-- ===== src/Engine/Inherit.antt =====
-- The loop of newFile of src/server/capio-cl-engine/capio_cl_engine.hpp, over the names of the table.
use capio_v.Prelude.{
  ◌≤◌, ◌≡◌, refl, ◌∙◌, ◌⊎◌, inl, inr, Bool, true, false, List, [], ◌∷◌, All, Bool-cases, length,
  arith, ltb,
}
use capio_v.Prelude.Eq.{Text, text_eq}
use capio_v.Prelude.Result.{ok, >>=-eq-ok}
use capio_v.Glob.{match_globs}
use capio_v.Engine.{
  Locations, Match, consider, longest_match, is_directory, get_commit_rule, get_fire_rule,
}

-- one of a list
abbrev pub Among : Text → List Text → Type 0
Among k [] = ⊥
Among k (x ∷ xs) = (x ≡ k) ⊎ Among k xs

module _ (path : Text) (l : Locations) where
  -- a directory of the table that matches the path
  pub record Matching (k : Text) : Type 0 where
    pub matches : match_globs k path ≡ ok true
    pub directory : is_directory k l ≡ true

  -- the entry holds the length and the rules of the name
  pub record Rules (k : Text) (r : Match) : Type 0 where
    pub size : r.size ≡ length k
    pub commit : r.commit ≡ get_commit_rule k l
    pub fire : r.fire ≡ get_fire_rule k l

  abbrev pub Source : List Text → Match → Type 0
  Source names r = (k : Text) × Among k names × Matching k × Rules k r

  pub record Best (names : List Text) (start r : Match) : Type 0 where
    pub grows : start.size ≤ r.size
    pub longest : All (λ k. Matching k → length k ≤ r.size) names
    pub source : (r ≡ start) ⊎ Source names r

  consider_grows : (k : Text) (m : Bool) (b : Match) → b.size ≤ (consider k l m b).size
  unfolding consider
  consider_grows k m b = ground arith

  consider_covers :
      (k : Text) (m : Bool) (b : Match)
      → match_globs k path ≡ ok m
      → Matching k
      → length k ≤ (consider k l m b).size
  unfolding consider
  consider_covers k m b e h = ground (arith, h.matches, h.directory)

  consider_source :
      (k : Text) (m : Bool) (b : Match)
      → match_globs k path ≡ ok m
      → (consider k l m b ≡ b) ⊎ (Matching k × Rules k (consider k l m b))
  unfolding consider
  consider_source k false b e = inl refl
  consider_source k true b e = elim (Bool-cases (is_directory k l)) [
    | inr n ↦ inl (rw n)
    | inl d ↦ elim (Bool-cases (ltb b.size (length k))) [
      | inr n ↦ inl (rw (d, n))
      | inl y ↦ inr (
        record { matches = e; directory = d },
        rw (d, y) (record { size = refl; commit = refl; fire = refl }),
      )
    ]
  ]

  pub longest_match_lem :
      (names : List Text) (start r : Match)
      → longest_match path l names start ≡ ok r
      → Best names start r
  unfolding longest_match
  longest_match_lem [] start r h = record {
    grows = ground arith;
    longest = tt;
    source = inl (ground arith);
  }
  longest_match_lem (k ∷ names) start r h =
      let (m, e, h') =
        >>=-eq-ok (match_globs k path) (λ m. longest_match path l names (consider k l m start)) h in
      let b = longest_match_lem names (consider k l m start) r h' in
      record {
        grows = omega (arith, b.grows, consider_grows k m start);
        longest = (λ hk. omega (arith, b.grows, consider_covers k m start e hk), b.longest);
        source = elim b.source [
          | inr (j, a, hm, hr) ↦ inr (j, inr a, hm, hr)
          | inl same ↦ elim (consider_source k m start e) [
            | inl c ↦ inl (same ∙ c)
            | inr (hm, hr) ↦ inr (k, inl refl, hm, rw same hr)
          ]
        ];
      }
