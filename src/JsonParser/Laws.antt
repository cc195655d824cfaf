-- ===== src/JsonParser/Laws.antt =====
-- What an entry of a "streaming" section leaves in the engine.
use capio_v.Prelude.{
  ◌≡◌, refl, sym, ◌∙◌, ◌≢◌, Bool, true, false, some, none, All, arith, Bool-cases, inl, inr,
  if◌then◌else◌,
}
use capio_v.Prelude.Int.{to_int, ℤ, negsuc, int_beq}
use capio_v.Prelude.Eq.{Text, text_eq, text_beq_iff, ==_refl}
use capio_v.Prelude.Assoc.{find, has, update, find-update, update-update, update_id}
use capio_v.Prelude.Result.{ok, err, out_of_range}
use capio_v.Engine.{
  Location, Locations, set_directory_file_count, set_file, set_directory, set_commit_rule,
  set_fire_rule, set_commited_number, set_file_deps, new_files,
}
use capio_v.Engine.NewFile.{find-new_files, has-new_files}
use capio_v.JsonParser.{Streaming, set_n_files, set_kind, update_metadata}

-- the entry that the section asks for
abbrev pub configured : Streaming → Location → Location
configured s f = record f {
  commit_rule = s.commit_rule;
  fire_rule = s.mode;
  is_file = s.is_file;
  commit_close_count = to_int s.n_close;
  directory_file_count =
      (if int_beq s.n_files (negsuc 0) then f.directory_file_count else s.n_files);
  file_deps = s.file_deps;
}

-- the table before the dependencies are set
ruled : Streaming → Text → Locations → Locations
unfolding set_commit_rule set_fire_rule set_commited_number
ruled s p l =
    set_commited_number p s.n_close
      (set_fire_rule p s.mode (set_commit_rule p s.commit_rule (set_kind s p (set_n_files s p l))))

-- the table before the dependencies are registered
prepared : Streaming → Text → Locations → Locations
unfolding ruled
prepared s p l = update p (λ f. record f { file_deps = s.file_deps }) (ruled s p l)

count_if :
    (b : Bool) (n : ℤ) (p : Text) (l : Locations)
    → (if b then l else set_directory_file_count p n l)
      ≡ update p
          (λ f. record f { directory_file_count = (if b then f.directory_file_count else n) })
          l
unfolding set_directory_file_count
count_if true n p l = sym (update_id p l)
count_if false n p l = refl

set_n_files-eq :
    (s : Streaming) (p : Text) (l : Locations)
    → set_n_files s p l
      ≡ update p
          (λ f. record f {
            directory_file_count =
                (if int_beq s.n_files (negsuc 0) then f.directory_file_count else s.n_files);
          })
          l
unfolding set_n_files
set_n_files-eq s p l = count_if (int_beq s.n_files (negsuc 0)) s.n_files p l

set_kind-eq :
    (s : Streaming) (p : Text) (l : Locations)
    → set_kind s p l ≡ update p (λ f. record f { is_file = s.is_file }) l
unfolding set_kind set_file set_directory
set_kind-eq s p l = elim (Bool-cases s.is_file) [ inl y ↦ simp y | inr n ↦ simp n ]

prepared-eq :
    (s : Streaming) (p : Text) (l : Locations) → prepared s p l ≡ update p (configured s) l
unfolding prepared
prepared-eq s p l = simp (set_n_files-eq, set_kind-eq, update-update)

find-prepared_ne :
    (s : Streaming) (p q : Text) (l : Locations) → p ≢ q → find q (prepared s p l) ≡ find q l
find-prepared_ne s p q l ne =
    rw prepared-eq (ground (arith, find-update p q (configured s) l, text_beq_iff p q))

find-prepared :
    (s : Streaming) (p : Text) (l : Locations) {f : Location}
    → find p l ≡ some f
    → find p (prepared s p l) ≡ some (configured s f)
find-prepared s p l h = rw prepared-eq (ground (arith, find-update p p (configured s) l, ==_refl p))

has_ruled :
    (s : Streaming) (p : Text) (l : Locations) {f : Location}
    → find p l ≡ some f
    → (g : Location) × (find p (ruled s p l) ≡ some g)
unfolding ruled
has_ruled s p l {f} h = (
  record (configured s f) { file_deps = f.file_deps },
  simp (set_n_files-eq, set_kind-eq, update-update, find-update, ==_refl p, h),
)

undeclared_ruled :
    (s : Streaming) (p : Text) (l : Locations) → find p l ≡ none → find p (ruled s p l) ≡ none
unfolding ruled
undeclared_ruled s p l h =
    simp (set_n_files-eq, set_kind-eq, update-update, find-update, ==_refl p, h)

update_metadata-eq :
    (s : Streaming) (p : Text) (l : Locations) {f : Location}
    → find p l ≡ some f
    → update_metadata s p l ≡ new_files s.file_deps (prepared s p l)
unfolding update_metadata set_file_deps prepared
update_metadata-eq s p l h = let (g, e) = has_ruled s p l h in ground (arith, e)

-- Of a file that is in the table, the entry takes the rules of the section, with the count of closes
-- narrowed to 32 bits, and keeps its producers,
-- its consumers and its marks; every other entry stays; every dependency is in the table.
pub update_metadata_lem :
    (s : Streaming) (p : Text) (l : Locations) {l' : Locations} {f : Location}
    → find p l ≡ some f
    → update_metadata s p l ≡ ok l'
    → (find p l' ≡ some (configured s f))
      × ((q : Text) (g : Location) → p ≢ q → find q l ≡ some g → find q l' ≡ some g)
      × All (λ dep. has dep l' ≡ true) s.file_deps
update_metadata_lem s p l {l'} {f} h e = (
  find-new_files s.file_deps p (prepared s p l) made (find-prepared s p l h),
  λ q g ne k. find-new_files s.file_deps q (prepared s p l) made (find-prepared_ne s p q l ne ∙ k),
  has-new_files s.file_deps (prepared s p l) made,
)
  where
    made : new_files s.file_deps (prepared s p l) ≡ ok l'
    made = sym (update_metadata-eq s p l h) ∙ e

-- A file that no input_stream and no output_stream has put in the table makes the parser end with
-- an uncaught exception.
pub update_metadata-undeclared :
    (s : Streaming) (p : Text) (l : Locations)
    → find p l ≡ none
    → update_metadata s p l ≡ err out_of_range
unfolding update_metadata set_file_deps ruled
update_metadata-undeclared s p l h = ground (arith, undeclared_ruled s p l h)
