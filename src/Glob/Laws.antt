-- ===== src/Glob/Laws.antt =====
-- What match_globs decides.
use capio_v.Prelude.{
  ℕ, zero, suc, ◌≡◌, refl, ◌∙◌, ◌≢◌, ◌↔◌, ◌⊎◌, true, false, not, [], ◌∷◌, ◌++◌, Option, none, some,
  length, length-append, drop, drop-append, All, arith, ltb, nat_beq, nat_beq_of_ne, ◌-◌,
  if◌then◌else◌, append_assoc,
}
use capio_v.Prelude.Eq.{Text, text_eq, ==_refl, ◌==◌}
use capio_v.Prelude.Result.{ok, err, out_of_range}
use capio_v.Glob.{match_globs, match_loop, at_star, ends_in_star, after_star, compare_end}

abbrev pub get_elem? : Text → ℕ → Option ℕ
get_elem? [] i = none
get_elem? (x ∷ xs) zero = some x
get_elem? (x ∷ xs) (suc i) = get_elem? xs i

abbrev pub HasNoStar : Text → Type 0
HasNoStar glob = All (λ c. c ≢ b'*') glob

-- At every position that both texts have, the pattern has `?` or the character of the other.
abbrev pub Agree : Text → Text → Type 0
Agree glob text =
    (i g t : ℕ) → get_elem? glob i ≡ some g → get_elem? text i ≡ some t → (g ≡ b'?') ⊎ (g ≡ t)

Agree-cons : (g t : ℕ) (gs ts : Text) → (g ≡ b'?') ⊎ (g ≡ t) → Agree gs ts → Agree (g ∷ gs) (t ∷ ts)
Agree-cons g t gs ts h a zero x y p q = ground arith
Agree-cons g t gs ts h a (suc i) x y p q = a i x y p q

module _ (glob to_match : Text) where
  loop_sound :
      (gs ts : Text) → HasNoStar gs → match_loop glob to_match gs ts ≡ ok true → Agree gs ts
  unfolding match_loop
  loop_sound [] ts hs h = λ i g t p q. cc
  loop_sound (g ∷ gs) [] hs h = λ i x y p q. cc
  loop_sound (g ∷ gs) (t ∷ ts) hs h =
      Agree-cons g t gs ts (ground arith) (loop_sound gs ts hs.1 (ground arith))

  loop_complete :
      (gs ts : Text) → HasNoStar gs → Agree gs ts → match_loop glob to_match gs ts ≡ ok true
  unfolding match_loop
  loop_complete [] ts hs a = refl
  loop_complete (g ∷ gs) [] hs a = refl
  loop_complete (g ∷ gs) (t ∷ ts) hs a =
      ground (arith, a 0 g t refl refl, loop_complete gs ts hs.1 (λ i. a (suc i)))

  loop_prefix :
      (pre gs ts : Text)
      → HasNoStar pre
      → match_loop glob to_match (pre ++ gs) (pre ++ ts) ≡ match_loop glob to_match gs ts
  unfolding match_loop
  loop_prefix [] gs ts hs = refl
  loop_prefix (c ∷ pre) gs ts hs = ground (arith, loop_prefix pre gs ts hs.1)

-- A pattern with no star, not empty, matches exactly the paths that agree with it at every common
-- position: the ends of the two need not meet.
pub match_globs-eq-true_iff :
    (glob path : Text)
    → glob ≢ []
    → HasNoStar glob
    → (match_globs glob path ≡ ok true) ↔ Agree glob path
unfolding match_globs
match_globs-eq-true_iff [] path ne hs = absurd (ne refl)
match_globs-eq-true_iff (g ∷ gs) path ne hs =
    (loop_sound (g ∷ gs) path (g ∷ gs) path hs, loop_complete (g ∷ gs) path (g ∷ gs) path hs)

after_star_lem : (pre suf : Text) → HasNoStar pre → after_star (pre ++ b'*' ∷ suf) ≡ suf
unfolding after_star
after_star_lem [] suf hs = refl
after_star_lem (c ∷ pre) suf hs = ground (arith, after_star_lem pre suf hs.1)

match_globs-star :
    (pre suf rest : Text) (c : ℕ)
    → HasNoStar pre
    → match_globs (pre ++ b'*' ∷ suf) (pre ++ c ∷ rest)
      ≡ at_star (pre ++ b'*' ∷ suf) (pre ++ c ∷ rest)
unfolding match_globs match_loop
match_globs-star [] suf rest c hs = refl
match_globs-star (d ∷ pre) suf rest c hs =
    loop_prefix (d ∷ (pre ++ b'*' ∷ suf)) (d ∷ (pre ++ c ∷ rest)) (d ∷ pre) (b'*' ∷ suf) (c ∷ rest)
      hs

ends_append : (s : Text) (c : ℕ) → ends_in_star (s ++ c ∷ []) ≡ nat_beq c b'*'
unfolding ends_in_star
ends_append [] c = refl
ends_append (d ∷ []) c = refl
ends_append (d ∷ e ∷ s) c = ends_append (e ∷ s) c

-- A pattern that ends in its only star matches every longer path that begins with the part before
-- the star.
pub match_globs-trailing_star :
    (pre rest : Text) (c : ℕ)
    → HasNoStar pre
    → match_globs (pre ++ b'*' ∷ []) (pre ++ c ∷ rest) ≡ ok true
unfolding at_star
match_globs-trailing_star pre rest c hs =
    rw (match_globs-star pre [] rest c hs, ends_append pre b'*')

-- With text behind its only star a pattern is compared with the end of a path that begins with the
-- text before the star and goes on behind it, and the answer is turned round: such a path, where it
-- is no shorter than the text behind the star, matches exactly if it does not end in that text;
-- where it is shorter, the exception is raised.
pub match_globs-star_suffix :
    (pre suf rest : Text) (c e : ℕ)
    → HasNoStar pre
    → e ≢ b'*'
    → let path = pre ++ c ∷ rest in
      let end = suf ++ e ∷ [] in
      match_globs (pre ++ b'*' ∷ end) path ≡ (
        if ltb (length path) (length end)
        then err out_of_range
        else ok (not (drop (length path - length end) path == end)))
unfolding at_star compare_end
match_globs-star_suffix pre suf rest c e hs he =
    rw
      (
        match_globs-star pre (suf ++ e ∷ []) rest c hs,
        ← append_assoc pre (b'*' ∷ suf) (e ∷ []),
        ends_append (pre ++ b'*' ∷ suf) e,
      )
      (rw (
        append_assoc pre (b'*' ∷ suf) (e ∷ []),
        after_star_lem pre (suf ++ e ∷ []) hs,
        nat_beq_of_ne e b'*' he,
      ))

length_suffix : (path end : Text) → length (path ++ end) - length end ≡ length path
length_suffix path end = omega (arith, length-append path end)

compare_own_end :
    (path end : Text)
    → (if ltb (length (path ++ end)) (length end)
        then err out_of_range
        else ok (not (drop (length (path ++ end) - length end) (path ++ end) == end)))
      ≡ ok false
compare_own_end path end =
    rw (length_suffix path end, drop-append path end, ==_refl end)
      (ground (arith, length-append path end))

-- So the paths that `pre*end` is written for are the ones that it refuses.
pub match_globs_refuses_its_suffix :
    (pre mid suf : Text) (c e : ℕ)
    → HasNoStar pre
    → e ≢ b'*'
    → let end = suf ++ e ∷ [] in
      match_globs (pre ++ b'*' ∷ end) (pre ++ c ∷ (mid ++ end)) ≡ ok false
match_globs_refuses_its_suffix pre mid suf c e hs he =
    match_globs-star_suffix pre suf (mid ++ (suf ++ e ∷ [])) c e hs he
    ∙ rw (← append_assoc pre (c ∷ mid) (suf ++ e ∷ []))
        (compare_own_end (pre ++ c ∷ mid) (suf ++ e ∷ []))
