-- ===== src/Path/Subpath.antt =====
-- Prefixes of texts and of element lists.
use capio_v.Prelude.{◌≡◌, refl, true, List, [], ◌∷◌, ◌++◌, arith, ◌↔◌}
use capio_v.Prelude.Eq.{Text, text_eq, text_beq_iff}
use capio_v.Path.{starts_with, is_list_prefix, first_is_subpath_of_second, components}

pub starts_with_append : (p s : Text) → starts_with (p ++ s) p ≡ true
unfolding starts_with
starts_with_append [] s = refl
starts_with_append (c ∷ p) s = ground (arith, starts_with_append p s)

pub starts_with-split : (s p : Text) → starts_with s p ≡ true → (rest : Text) × (s ≡ p ++ rest)
unfolding starts_with
starts_with-split s [] h = (s, refl)
starts_with-split [] (c ∷ p) h = cc
starts_with-split (d ∷ s) (c ∷ p) h =
    let (rest, e) = starts_with-split s p (ground arith) in (rest, ground arith)

list_prefix-split :
    (xs ys : List Text) → is_list_prefix xs ys ≡ true → (rest : List Text) × (xs ≡ ys ++ rest)
unfolding is_list_prefix
list_prefix-split xs [] h = (xs, refl)
list_prefix-split [] (y ∷ ys) h = cc
list_prefix-split (x ∷ xs) (y ∷ ys) h =
    let (rest, e) = list_prefix-split xs ys (ground arith) in
    (rest, ground (arith, text_beq_iff x y))

list_prefix_append : (ys rest : List Text) → is_list_prefix (ys ++ rest) ys ≡ true
unfolding is_list_prefix
list_prefix_append [] rest = refl
list_prefix_append (y ∷ ys) rest = ground (arith, text_beq_iff y y, list_prefix_append ys rest)

-- first_is_subpath_of_second holds exactly if the elements of the path begin with those of the
-- base: the test never mistakes a sibling whose name begins with the base's last name.
pub subpath_iff :
    (path base : Text)
    → (first_is_subpath_of_second path base ≡ true)
      ↔ ((rest : List Text) × (components path ≡ components base ++ rest))
unfolding first_is_subpath_of_second
subpath_iff path base = (
  list_prefix-split (components path) (components base),
  λ (rest, e). rw e (list_prefix_append (components base) rest),
)
