-- ===== src/JsonParser.antt =====
-- src/server/capio-cl-engine/json_parser.hpp: what one entry of a "streaming" section does to the
-- engine, once its values are read. The JSON library is not part of the repository: the values it
-- hands over are the fields of `Streaming`, and a path stands as the parser has resolved it.
pub mod Laws
pub mod Number
pub mod Parse
pub mod Keeps
pub mod Sections
pub mod Added
pub mod Declared
pub mod Marks
pub mod Entries
use capio_v.Prelude.{Bool, List, [], ◌∷◌, if◌then◌else◌}
use capio_v.Prelude.Int.{ℤ, negsuc, int_beq}
use capio_v.Prelude.Eq.{Text}
use capio_v.Prelude.Result.{Result, ok, ◌>>=◌}
use capio_v.Engine.{
  Locations, set_directory_file_count, set_file, set_directory, set_commit_rule, set_fire_rule,
  set_commited_number, set_file_deps,
}

pub record Streaming : Type 0 where
  pub n_files : ℤ
  pub is_file : Bool
  pub commit_rule : Text
  pub mode : Text
  pub n_close : ℤ
  pub file_deps : List Text

-- -1: the entry has no "n_files"
unfoldable pub set_n_files : Streaming → Text → Locations → Locations
set_n_files s path l =
    if int_beq s.n_files (negsuc 0) then l else set_directory_file_count path s.n_files l

unfoldable pub set_kind : Streaming → Text → Locations → Locations
set_kind s path l = if s.is_file then set_file path l else set_directory path l

unfoldable pub update_metadata : Streaming → Text → Locations → Result Locations
unfolding set_n_files set_kind
update_metadata s path l =
    let counted = set_kind s path (set_n_files s path l) in
    let ruled = set_fire_rule path s.mode (set_commit_rule path s.commit_rule counted) in
    set_file_deps path s.file_deps (set_commited_number path s.n_close ruled)

-- for (auto path : streaming_names)
unfoldable pub update_streaming : Streaming → List Text → Locations → Result Locations
update_streaming s [] l = ok l
update_streaming s (path ∷ rest) l = do l' ← update_metadata s path l; update_streaming s rest l'
