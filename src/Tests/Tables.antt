-- ===== src/Tests/Tables.antt =====
-- Examples for the table of locations and its configuration.
use capio_v.Prelude.{◌≡◌, ◌≢◌, ◌≤◌, ◌⊎◌, refl, true, false, All, length, some, [], ◌∷◌}
use capio_v.Prelude.Int.{to_int, pos, negsuc}
use capio_v.Prelude.Eq.{Text, codes, text_eq, int_eq, text_beq}
use capio_v.Prelude.Assoc.{find, has, keys, emplace, update}
use capio_v.Constants.{capio_file_committed_on_close, capio_file_mode_no_update}
use capio_v.Engine.{
  Location, Locations, Match, no_match, inherited, new_file, consider, get_commit_rule,
  get_fire_rule, is_directory, is_file, longest_match, new_files, set_commit_rule,
  set_commited_number, set_file, set_file_deps, set_fire_rule,
}
use capio_v.Engine.Inherit.{Matching, Source}
use capio_v.Engine.NewFile.{new_file-inherits}
use capio_v.JsonParser.{Streaming, update_metadata}
use capio_v.JsonParser.Laws.{configured, update_metadata_lem}
use capio_v.Tests.{a_file, new_path, location, on_close_location, one_file}
use capio_v.Glob.{match_globs}

-- a directory of the table, with a pattern for its files
abbrev with_directory : Locations
with_directory =
    (
      codes "/c/*",
      location capio_file_committed_on_close capio_file_mode_no_update (codes "w" ∷ []) false [],
    )
    ∷ one_file

abbrev b_location : Location
b_location = record {
  producers = [];
  consumers = [];
  commit_rule = capio_file_committed_on_close;
  fire_rule = capio_file_mode_no_update;
  permanent = false;
  exclude = false;
  is_file = true;
  commit_close_count = negsuc 0;
  directory_file_count = negsuc 0;
  file_deps = [];
}

abbrev with_b : Locations
with_b = (new_path, b_location) ∷ with_directory

new_file-inherits_example :
    (best : Match) × (find new_path with_b ≡ some (inherited best))
    × All (λ k. Matching new_path with_directory k → length k ≤ best.size) (keys with_directory)
    × ((best ≡ no_match) ⊎ Source new_path with_directory (keys with_directory) best)
unfolding has text_beq new_file longest_match match_globs emplace consider is_directory is_file find
    get_commit_rule get_fire_rule
new_file-inherits_example = new_file-inherits new_path with_directory refl refl

abbrev shared : Locations
shared = (a_file, record on_close_location { producers = codes "w" ∷ codes "r" ∷ [] }) ∷ []

abbrev section_b : Streaming
section_b = record {
  n_files = negsuc 0;
  is_file = true;
  commit_rule = capio_file_committed_on_close;
  mode = capio_file_mode_no_update;
  n_close = pos 2;
  file_deps = [];
}

abbrev configured_table : Locations
configured_table = (a_file, configured section_b on_close_location) ∷ []

update_metadata_lem_example :
    (find a_file configured_table ≡ some (configured section_b on_close_location))
    × ((q : Text) (g : Location)
        → a_file ≢ q
        → find q one_file ≡ some g
        → find q configured_table ≡ some g)
    × All (λ dep. has dep configured_table ≡ true) []
unfolding find text_beq update_metadata set_file_deps set_commited_number update set_fire_rule
    set_commit_rule set_file new_files
update_metadata_lem_example = update_metadata_lem section_b a_file one_file refl refl

-- the long 2^32 + 1 as an int is 1, and 2^32 - 1 is -1
narrowed : (to_int (pos 4294967297) ≡ pos 1) × (to_int (pos 4294967295) ≡ negsuc 0)
unfolding to_int
narrowed = (refl, refl)
