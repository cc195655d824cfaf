-- ===== src/JsonParser/Marks.antt =====
-- The sections "permanent" and "exclude" of a configuration, src/server/capio-cl-engine/json_parser.hpp.
use capio_v.Prelude.{
  ◌≡◌, refl, ap, ◌∙◌, Bool, true, false, Option, none, some, List, [], ◌∷◌, All, Bool-cases, inl,
  inr, if◌then◌else◌, arith,
}
use capio_v.Prelude.Eq.{Text, text_eq, ◌==◌}
use capio_v.Prelude.Assoc.{has, update}
use capio_v.Prelude.Result.{ok}
use capio_v.Path.{is_absolute, first_is_subpath_of_second}
use capio_v.Engine.{Location, Locations, set_permanent, set_exclude}
use capio_v.JsonParser.Parse.{
  Paths, resolve_normal, mark_all, mark_section, mark_permanent, mark_exclude,
}

-- Every file of the table has an absolute path.
abbrev pub IsRooted : Locations → Type 0
IsRooted l = (path : Text) → has path l ≡ true → is_absolute path ≡ true

-- a name of the section, relative
abbrev pub IsRelative : Option Text → Type 0
IsRelative none = ⊥
IsRelative (some name) = is_absolute name ≡ false

update-absent :
    (path : Text) (g : Location → Location) (l : Locations)
    → has path l ≡ false
    → update path g l ≡ l
unfolding update has
update-absent path g [] h = refl
update-absent path g ((q, f) ∷ l) h = elim (Bool-cases (q == path)) [
  | inl here ↦ absurd (ground (arith, h, here))
  | inr other ↦ ground (arith, h, other, λ (h' : has path l ≡ false). update-absent path g l h')
]

relative_absent :
    (name : Text) (l : Locations) → IsRooted l → is_absolute name ≡ false → has name l ≡ false
relative_absent name l rooted relative = elim (Bool-cases (has name l)) [
  | inl there ↦ absurd (ground (arith, rooted name there, relative))
  | inr absent ↦ absent
]

unmarked :
    (p : Paths) (mark : Text → Locations → Locations) (l : Locations)
    → ((name : Text) → has name l ≡ false → mark name l ≡ l)
    → IsRooted l
    → (files : List (Option Text)) → All IsRelative files
    → mark_all p mark files l ≡ ok l
unfolding mark_all
unmarked p mark l nothing rooted [] relative = refl
unmarked p mark l nothing rooted (none ∷ files) relative = absurd relative.0
unmarked p mark l nothing rooted (some name ∷ files) relative =
    ap (mark_all p mark files)
      (same (first_is_subpath_of_second (resolve_normal p name) p.capio_dir))
    ∙ unmarked p mark l nothing rooted files relative.1
  where
    same : (b : Bool) → (if b then mark name l else l) ≡ l
    same true = nothing name (relative_absent name l rooted relative.0)
    same false = refl

-- A relative name in the section "permanent" or "exclude" marks nothing. The sections are accepted
-- and leave a table whose paths are absolute, as the other sections make it, as it is: the name is
-- looked up as it stands in the section, not as it is resolved.
pub relative_marks_ignored :
    (p : Paths) (l : Locations) (files : List (Option Text))
    → IsRooted l
    → All IsRelative files
    → (mark_section p mark_permanent (some files) l ≡ ok l)
      × (mark_section p mark_exclude (some files) l ≡ ok l)
unfolding mark_section set_permanent set_exclude
relative_marks_ignored p l files rooted relative = (
  unmarked p mark_permanent l (λ name. update-absent name _ l) rooted files relative,
  unmarked p mark_exclude l (λ name. update-absent name _ l) rooted files relative,
)
