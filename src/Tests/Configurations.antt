-- ===== src/Tests/Configurations.antt =====
-- Examples for the parser of configurations.
use capio_v.Prelude.{◌≡◌, refl, ap, ◌↔◌, true, none, some, List, [], ◌∷◌, arith}
use capio_v.Prelude.Eq.{Text, codes, text_eq, text_beq, text_beq_iff, contains}
use capio_v.Prelude.Assoc.{find, has, emplace, update}
use capio_v.Prelude.Result.{Result, ok, err}
use capio_v.Path.{is_absolute, ◌/path◌, first_is_subpath_of_second}
use capio_v.Engine.{Locations, new_file}
use capio_v.JsonParser.{Streaming}
use capio_v.JsonParser.Parse.{
  Entry, App, Document, Paths, is_accepted, resolve, read_entry, mark_section, mark_permanent,
  mark_exclude, parse,
}
use capio_v.JsonParser.Declared.{parse-Declared}
use capio_v.JsonParser.Added.{IsConsumer, IsProducer}
use capio_v.JsonParser.Marks.{IsRooted, relative_marks_ignored}
use capio_v.JsonParser.Entries.{IsComplete, read_entry-ok_iff}
use capio_v.Tests.{on_close_location}
use capio_v.Engine.{
  longest_match, add_consumer, add_producer, consider, get_commit_rule, get_fire_rule, is_directory,
  is_file, is_space, new_files, set_commit_rule, set_commited_number, set_directory,
  set_directory_file_count, set_exclude, set_file, set_file_deps, set_fire_rule, set_permanent,
  strip_spaces,
}
use capio_v.JsonParser.Parse.{
  parse_apps, parse_app, declare_inputs, declare_input, declare_outputs, declare_output, accepted,
  commit_rule_of, deps_of, entry_names, mark_all, parse_streaming, parse_streaming_of, resolve_all,
  resolve_names, resolve_normal, split_colon,
}
use capio_v.Glob.{match_globs, after_star, at_star, compare_end, ends_in_star, match_loop}
use capio_v.JsonParser.Number.{is_int, read_long, stol, strtol}
use capio_v.JsonParser.{set_kind, set_n_files, update_metadata, update_streaming}
use capio_v.Path.{components, empty, is_list_prefix}
use capio_v.Wire.{
  is_blank, is_digit, negative, read_digits, read_nat, skip_blanks, starts_with_digit,
}

abbrev p : Paths
p = record { capio_dir = codes "/c"; lexically_normal = λ path. path }

-- committed after two closes
abbrev entry : Entry
entry = record {
  name = some (codes "a" ∷ []);
  dirname = none;
  committed = some (codes "on_close:2");
  file_deps = none;
  mode = none;
  n_files = none;
}

-- w reads b, and writes a
abbrev writer : App
writer = record {
  app_name = some (codes "w");
  input_stream = some (codes "b" ∷ []);
  output_stream = some (codes "a" ∷ []);
  streaming = some (entry ∷ []);
}

abbrev workflow : Document
workflow = record {
  wf_name = some (codes "wf");
  io_graph = writer ∷ [];
  permanent = some (some (codes "a") ∷ []);
  exclude = none;
}

abbrev table : Locations
table = (codes "/c/a", on_close_location) ∷ []

table-IsRooted : IsRooted table
unfolding has is_absolute
table-IsRooted path h =
    ground
      (arith, h, text_beq_iff (codes "/c/a") path, λ (e : codes "/c/a" ≡ path). ap is_absolute e)

relative_marks_ignored_example :
    (mark_section p mark_permanent (some (some (codes "a") ∷ [])) table ≡ ok table)
    × (mark_section p mark_exclude (some (some (codes "a") ∷ [])) table ≡ ok table)
unfolding is_absolute
relative_marks_ignored_example =
    relative_marks_ignored p table (some (codes "a") ∷ []) table-IsRooted (refl, tt)

read_entry-ok_iff_example :
    ((r : List Text × Streaming) × (read_entry p entry ≡ ok r)) ↔ IsComplete entry
read_entry-ok_iff_example = read_entry-ok_iff p entry

-- the table that it leaves
abbrev result_or_empty : Result Locations → Locations
result_or_empty (ok l) = l
result_or_empty (err f) = []

abbrev parsed : Locations
parsed = result_or_empty (parse p (some workflow))

parse-Declared_example :
    ((file : Text)
      → contains file (codes "b" ∷ []) ≡ true
      → is_accepted p file ≡ true
      → IsConsumer (resolve p file) (codes "w") parsed)
    × ((file : Text)
        → contains file (codes "a" ∷ []) ≡ true
        → is_accepted p file ≡ true
        → IsProducer (resolve p file) (codes "w") parsed)
unfolding parse new_file has longest_match parse_apps parse_app declare_inputs declare_input
    is_accepted is_absolute emplace text_beq resolve ◌/path◌ match_globs declare_outputs
    declare_output add_consumer add_producer consider get_commit_rule get_fire_rule is_directory
    is_file is_space new_files set_commit_rule set_commited_number set_directory
    set_directory_file_count set_exclude set_file set_file_deps set_fire_rule set_permanent
    strip_spaces after_star at_star compare_end ends_in_star match_loop is_int read_long stol strtol
    accepted commit_rule_of deps_of entry_names mark_all mark_section parse_streaming
    parse_streaming_of read_entry resolve_all resolve_names resolve_normal split_colon set_kind
    set_n_files update_metadata update_streaming components empty first_is_subpath_of_second
    is_list_prefix find update is_blank is_digit negative read_digits read_nat skip_blanks
    starts_with_digit
parse-Declared_example =
    parse-Declared p workflow [] writer [] (codes "w") (codes "b" ∷ []) (codes "a" ∷ []) parsed refl
      refl refl refl refl
