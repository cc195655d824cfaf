-- ===== src/Engine/NewFile.antt =====
-- What newFile and the operations built on it keep of the table.
use capio_v.Prelude.{
  ◌≤◌, ◌≡◌, ◌⊎◌, inl, inr, true, false, List, [], ◌∷◌, some, none, All, Bool-cases, Option-cases,
  length, arith,
}
use capio_v.Prelude.Eq.{Text, text_eq, text_beq_iff, ==_refl}
use capio_v.Prelude.Assoc.{find, has, keys, emplace, has-find, find-emplace}
use capio_v.Prelude.Result.{ok, >>=-eq-ok}
use capio_v.Engine.{
  Location, Locations, Match, no_match, inherited, longest_match, new_file, new_files,
}
use capio_v.Engine.Inherit.{Matching, Source, longest_match_lem}

pub find-has : (q : Text) (l : Locations) {f : Location} → find q l ≡ some f → has q l ≡ true
find-has q l h = rw (has-find q l, h)

pub absent : (q : Text) (l : Locations) → has q l ≡ false → find q l ≡ none
absent q l h = ground (arith, has-find q l)

-- newFile leaves every entry that is there as it is.
pub find-new_file :
    (p q : Text) (l : Locations) {l' : Locations} {f : Location}
    → new_file p l ≡ ok l'
    → find q l ≡ some f
    → find q l' ≡ some f
unfolding new_file
find-new_file p q l {l'} {f} e h = elim (Bool-cases (has p l)) [
  | inl y ↦ ground arith
  | inr n ↦
      let (best, _, e') =
        >>=-eq-ok (longest_match p l (keys l) no_match) (λ best. ok (emplace p (inherited best) l))
          (rw n at e) in
      ground (arith, find-emplace p q (inherited best) l, text_beq_iff p q, find-has q l h)
]

-- A file that newFile adds gets, with no producer and no consumer, the rules of a directory of the
-- table that matches it and has the longest name among those, or the default rules if there is
-- none (every matching directory's name is then empty).
pub new_file-inherits :
    (p : Text) (l : Locations) {l' : Locations}
    → has p l ≡ false
    → new_file p l ≡ ok l'
    → (best : Match) × (find p l' ≡ some (inherited best))
      × All (λ k. Matching p l k → length k ≤ best.size) (keys l)
      × ((best ≡ no_match) ⊎ Source p l (keys l) best)
unfolding new_file
new_file-inherits p l {l'} n e =
    let (best, found, e') =
      >>=-eq-ok (longest_match p l (keys l) no_match) (λ best. ok (emplace p (inherited best) l))
        (rw n at e) in
    let b = longest_match_lem p l (keys l) no_match best found in
    (best, ground (arith, find-emplace p p (inherited best) l, ==_refl p), b.longest, b.source)

-- After newFile the file is in the table.
pub has-new_file :
    (p : Text) (l : Locations) {l' : Locations} → new_file p l ≡ ok l' → has p l' ≡ true
has-new_file p l {l'} e = elim (Bool-cases (has p l)) [
  | inl y ↦ unfold new_file in ground arith
  | inr n ↦ let (best, h, _, _) = new_file-inherits p l n e in find-has p l' h
]

-- Registering a list of files leaves every entry that is there as it is.
pub find-new_files :
    (ps : List Text) (q : Text) (l : Locations) {l' : Locations} {f : Location}
    → new_files ps l ≡ ok l'
    → find q l ≡ some f
    → find q l' ≡ some f
unfolding new_files
find-new_files [] q l e h = ground arith
find-new_files (p ∷ ps) q l e h =
    let (m, e₁, e₂) = >>=-eq-ok (new_file p l) (new_files ps) e in
    find-new_files ps q m e₂ (find-new_file p q l e₁ h)

has_mono :
    (q : Text) (l l' : Locations)
    → ((f : Location) → find q l ≡ some f → find q l' ≡ some f)
    → has q l ≡ true
    → has q l' ≡ true
has_mono q l l' keep h = elim (Option-cases (find q l)) [
  | inl e ↦ ground (arith, has-find q l)
  | inr (f, e) ↦ find-has q l' (keep f e)
]

-- and puts each of them in the table.
pub has-new_files :
    (ps : List Text) (l : Locations) {l' : Locations}
    → new_files ps l ≡ ok l'
    → All (λ p. has p l' ≡ true) ps
unfolding new_files
has-new_files [] l e = tt
has-new_files (p ∷ ps) l {l'} e =
    let (m, e₁, e₂) = >>=-eq-ok (new_file p l) (new_files ps) e in
    (has_mono p m l' (λ f. find-new_files ps p m e₂) (has-new_file p l e₁), has-new_files ps m e₂)
