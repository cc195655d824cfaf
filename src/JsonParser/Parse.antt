-- ===== src/JsonParser/Parse.antt =====
-- JsonParser::parse of src/server/capio-cl-engine/json_parser.hpp, on a document that the JSON
-- library has read. A field is what its accessor hands over; none: the accessor reports an error.
-- Where the source takes an element without asking for an error, it is there.
use capio_v.Prelude.{
  Bool, true, false, not, ◌||◌, Option, none, some, List, [], ◌∷◌, nat_beq, if◌then◌else◌,
}
use capio_v.Prelude.Int.{ℤ, negsuc}
use capio_v.Prelude.Eq.{Text, text_eq, ◌==◌}
use capio_v.Prelude.Result.{Result, ok, err, err_exit, ◌>>=◌, or_fault}
use capio_v.Constants.{
  capio_file_committed_on_close, capio_file_committed_on_file, capio_file_mode_update,
}
use capio_v.Path.{◌/path◌, is_absolute, first_is_subpath_of_second}
use capio_v.Engine.{Locations, new_file, add_consumer, add_producer, set_permanent, set_exclude}
use capio_v.JsonParser.{Streaming, update_streaming}
use capio_v.JsonParser.Number.{is_int, stol}

-- an entry of a "streaming" section
pub record Entry : Type 0 where
  pub name : Option (List Text)
  pub dirname : Option (List Text)
  pub committed : Option Text
  pub file_deps : Option (List Text)
  pub mode : Option Text
  pub n_files : Option ℤ

-- an application of "IO_Graph"
pub record App : Type 0 where
  pub app_name : Option Text
  pub input_stream : Option (List Text)
  pub output_stream : Option (List Text)
  pub streaming : Option (List Entry)

pub record Document : Type 0 where
  pub wf_name : Option Text
  pub io_graph : List App
  pub permanent : Option (List (Option Text))
  pub exclude : Option (List (Option Text))

-- get_capio_dir(), and lexically_normal of std::filesystem
pub record Paths : Type 0 where
  pub capio_dir : Text
  pub lexically_normal : Text → Text

unfoldable pub is_accepted : Paths → Text → Bool
is_accepted p file = not (is_absolute file) || first_is_subpath_of_second file p.capio_dir

unfoldable pub resolve : Paths → Text → Text
resolve p file = if is_absolute file then file else p.capio_dir /path file

unfoldable pub resolve_normal : Paths → Text → Text
resolve_normal p file =
    if is_absolute file then file else p.lexically_normal (p.capio_dir /path file)

unfoldable pub declare_input : Paths → Text → Text → Locations → Result Locations
declare_input p app_name file l =
    if not (is_accepted p file)
    then ok l
    else do l' ← new_file (resolve p file) l; ok (add_consumer (resolve p file) app_name l')

unfoldable pub declare_output : Paths → Text → Text → Locations → Result Locations
declare_output p app_name file l =
    if not (is_accepted p file)
    then ok l
    else do l' ← new_file (resolve p file) l; add_producer (resolve p file) app_name l'

unfoldable pub declare_inputs : Paths → Text → List Text → Locations → Result Locations
declare_inputs p app_name [] l = ok l
declare_inputs p app_name (file ∷ files) l = do
  l' ← declare_input p app_name file l
  declare_inputs p app_name files l'

unfoldable pub declare_outputs : Paths → Text → List Text → Locations → Result Locations
declare_outputs p app_name [] l = ok l
declare_outputs p app_name (file ∷ files) l = do
  l' ← declare_output p app_name file l
  declare_outputs p app_name files l'

-- the array of a name, if it is there and not empty
abbrev pub some_names : Option (List Text) → Option (List Text)
some_names none = none
some_names (some []) = none
some_names (some (n ∷ ns)) = some (n ∷ ns)

-- the names of an entry, and whether they are of files
unfoldable pub entry_names : Entry → Result (List Text × Bool)
entry_names e = elim (some_names e.name) [
  | some names ↦ ok (names, true)
  | none ↦ elim (some_names e.dirname) [ some names ↦ ok (names, false) | none ↦ err err_exit ]
]

unfoldable pub accepted : Paths → List Text → List Text
accepted p [] = []
accepted p (file ∷ files) =
    let rest = accepted p files in if is_accepted p file then file ∷ rest else rest

-- what stands before and behind the first colon
unfoldable pub split_colon : Text → Option (Text × Text)
split_colon [] = none
split_colon (c ∷ s) =
    if nat_beq c b':'
    then some ([], s)
    else elim (split_colon s) [ none ↦ none | some (before, behind) ↦ some (c ∷ before, behind) ]

-- the commit rule, and the number of closes
unfoldable pub commit_rule_of : Text → Result (Text × ℤ)
commit_rule_of committed = elim (split_colon committed) [
  | none ↦ ok (committed, negsuc 0)
  | some (rule, n_close_str) ↦
      if not (rule == capio_file_committed_on_close)
      then err err_exit
      else if not (is_int n_close_str)
      then err err_exit
      else do n_close ← stol n_close_str; ok (rule, n_close)
]

unfoldable pub resolve_all : Paths → List Text → List Text
resolve_all p [] = []
resolve_all p (file ∷ files) = resolve p file ∷ resolve_all p files

unfoldable pub deps_of : Paths → Text → Entry → Result (List Text)
deps_of p commit_rule e =
    if commit_rule == capio_file_committed_on_file
    then (do deps ← or_fault err_exit e.file_deps; ok (resolve_all p deps))
    else ok []

abbrev pub or_else {ℓ} : {A : Type ℓ} → A → Option A → A
or_else d none = d
or_else d (some a) = a

unfoldable pub resolve_names : Paths → List Text → List Text
resolve_names p [] = []
resolve_names p (file ∷ files) = resolve_normal p file ∷ resolve_names p files

-- an entry, read: its names and its rules
unfoldable pub read_entry : Paths → Entry → Result (List Text × Streaming)
read_entry p e = do
  named ← entry_names e
  committed ← or_fault err_exit e.committed
  rule ← commit_rule_of committed
  file_deps ← deps_of p rule.0 e
  ok (
    resolve_names p (accepted p named.0),
    record {
      n_files = or_else (negsuc 0) e.n_files;
      is_file = named.1;
      commit_rule = rule.0;
      mode = or_else capio_file_mode_update e.mode;
      n_close = rule.1;
      file_deps = file_deps;
    },
  )

unfoldable pub parse_streaming : Paths → List Entry → Locations → Result Locations
parse_streaming p [] l = ok l
parse_streaming p (e ∷ es) l = do
  read ← read_entry p e
  l' ← update_streaming read.1 read.0 l
  parse_streaming p es l'

-- a section of entries that may be missing
unfoldable pub parse_streaming_of : Paths → Option (List Entry) → Locations → Result Locations
parse_streaming_of p none l = ok l
parse_streaming_of p (some es) l = parse_streaming p es l

unfoldable pub parse_app : Paths → App → Locations → Result Locations
parse_app p app l = do
  name ← or_fault err_exit app.app_name
  inputs ← or_fault err_exit app.input_stream
  l₁ ← declare_inputs p name inputs l
  outputs ← or_fault err_exit app.output_stream
  l₂ ← declare_outputs p name outputs l₁
  parse_streaming_of p app.streaming l₂

unfoldable pub parse_apps : Paths → List App → Locations → Result Locations
parse_apps p [] l = ok l
parse_apps p (app ∷ apps) l = do l' ← parse_app p app l; parse_apps p apps l'

-- the sections "permanent" and "exclude": the mark is set on the name as it stands there
unfoldable pub mark_all :
    Paths → (Text → Locations → Locations) → List (Option Text) → Locations → Result Locations
mark_all p mark [] l = ok l
mark_all p mark (file ∷ files) l = do
  name ← or_fault err_exit file
  mark_all p mark files
      (if first_is_subpath_of_second (resolve_normal p name) p.capio_dir then mark name l else l)

unfoldable pub mark_section :
    Paths
    → (Text → Locations → Locations)
    → Option (List (Option Text))
    → Locations
    → Result Locations
mark_section p mark none l = ok l
mark_section p mark (some files) l = mark_all p mark files l

abbrev pub mark_permanent : Text → Locations → Locations
mark_permanent name = set_permanent name true

abbrev pub mark_exclude : Text → Locations → Locations
mark_exclude name = set_exclude name true

-- none: no configuration was given
unfoldable pub parse : Paths → Option Document → Result Locations
parse p none = new_file p.capio_dir []
parse p (some d) = do
  l₀ ← new_file p.capio_dir []
  wf_name ← or_fault err_exit d.wf_name
  l₁ ← parse_apps p d.io_graph l₀
  l₂ ← mark_section p mark_permanent d.permanent l₁
  mark_section p mark_exclude d.exclude l₂
