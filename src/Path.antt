-- ===== src/Path.antt =====
-- What the sources use of `std::filesystem::path` (as libstdc++ has it on POSIX): the elements,
-- the parent, `/`, and two helpers, first_is_subpath_of_second of src/server/utils/common.hpp and
-- fileToBeHandled of src/server/capio-cl-engine/capio_cl_engine.hpp.
pub mod Subpath
use mathlib.Core.List.{reverse}
use capio_v.Prelude.{
  ℕ, Bool, true, false, not, ◌&&◌, ◌||◌, List, [], ◌∷◌, ◌++◌, nat_beq, if◌then◌else◌,
}
use capio_v.Prelude.Eq.{Text, Eq, text_eq, ◌==◌}

unfoldable pub is_absolute : Text → Bool
is_absolute [] = false
is_absolute (c ∷ _) = nat_beq c b'/'

pub is_relative : Text → Bool
unfolding is_absolute
is_relative p = not (is_absolute p)

unfoldable pub empty : Text → Bool
empty [] = true
empty (_ ∷ _) = false

cons_head : ℕ → List Text → List Text
cons_head c [] = (c ∷ []) ∷ []
cons_head c (s ∷ ss) = (c ∷ s) ∷ ss

-- the texts between slashes
segments : Text → List Text
unfolding cons_head
segments [] = [] ∷ []
segments (c ∷ cs) = if nat_beq c b'/' then [] ∷ segments cs else cons_head c (segments cs)

-- runs of slashes are one; a slash behind a name leaves an empty last element
clean : Bool → List Text → List Text
unfolding empty
clean seen [] = []
clean seen (s ∷ []) = if empty s then (if seen then [] ∷ [] else []) else s ∷ []
clean seen (s ∷ rest) =
    let more = clean (seen || not (empty s)) rest in if empty s then more else s ∷ more

-- begin() to end()
unfoldable pub components : Text → List Text
unfolding segments clean is_absolute
components p =
    if is_absolute p then (b'/' ∷ []) ∷ clean false (segments p) else clean false (segments p)

unfoldable pub list_beq {ℓ} : {A : Type ℓ} ⦃e : Eq A⦄ → List A → List A → Bool
list_beq [] [] = true
list_beq (a ∷ s) (b ∷ t) = a == b && list_beq s t
list_beq [] (b ∷ t) = false
list_beq (a ∷ s) [] = false

-- operator== compares the elements
unfoldable pub same_path : Text → Text → Bool
unfolding components list_beq
same_path p q = list_beq (components p) (components q)

-- s.rfind(prefix, 0) == 0
unfoldable pub starts_with : Text → Text → Bool
starts_with s [] = true
starts_with [] (c ∷ p) = false
starts_with (d ∷ s) (c ∷ p) = nat_beq d c && starts_with s p

unfoldable pub drop_name : Text → Text
drop_name [] = []
drop_name (c ∷ cs) = if nat_beq c b'/' then c ∷ cs else drop_name cs

unfoldable pub drop_slashes : Text → Text
drop_slashes [] = []
drop_slashes (c ∷ cs) = if nat_beq c b'/' then drop_slashes cs else c ∷ cs

unfoldable pub or_root : Bool → Text → Text
or_root absolute (c ∷ cs) = reverse (c ∷ cs)
or_root true [] = b'/' ∷ []
or_root false [] = []

unfoldable pub parent_path : Text → Text
unfolding or_root drop_slashes drop_name is_absolute
parent_path p = or_root (is_absolute p) (drop_slashes (drop_name (reverse p)))

last_is_slash : Text → Bool
last_is_slash [] = true
last_is_slash (c ∷ []) = nat_beq c b'/'
last_is_slash (c ∷ d ∷ cs) = last_is_slash (d ∷ cs)

infixl 66 ◌/path◌
unfoldable pub ◌/path◌ : Text → Text → Text
unfolding last_is_slash is_absolute
p /path q = if is_absolute q then q else if last_is_slash p then p ++ q else p ++ b'/' ∷ q

unfoldable pub is_list_prefix : List Text → List Text → Bool
is_list_prefix xs [] = true
is_list_prefix [] (y ∷ ys) = false
is_list_prefix (x ∷ xs) (y ∷ ys) = x == y && is_list_prefix xs ys

-- std::mismatch stops at the end of `base` exactly if the elements of `base` are a prefix
unfoldable pub first_is_subpath_of_second : Text → Text → Bool
unfolding components is_list_prefix
first_is_subpath_of_second path base = is_list_prefix (components path) (components base)

-- CapioCLEngine::fileToBeHandled
unfoldable pub file_to_be_handled : Text → Text → Bool
file_to_be_handled capio_dir path =
    if same_path path capio_dir then false else starts_with (parent_path path) capio_dir
