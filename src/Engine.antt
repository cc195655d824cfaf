-- ===== src/Engine.antt =====
-- CapioCLEngine of src/server/capio-cl-engine/capio_cl_engine.hpp: the table of the files that the
-- configuration or the applications name, with their streaming rules. print is not modelled.
pub mod Inherit
pub mod NewFile
pub mod Producers
use capio_v.Prelude.{
  ℕ, Bool, true, false, not, ◌&&◌, ◌||◌, none, some, List, [], ◌∷◌, ◌++◌, length, ltb, nat_beq, leb,
  if◌then◌else◌,
}
use capio_v.Prelude.Int.{to_int, ℤ, pos, negsuc}
use capio_v.Prelude.Eq.{Text, text_eq, contains}
use capio_v.Prelude.Assoc.{Assoc, find, has, emplace, update, erase, keys}
use capio_v.Prelude.Result.{Result, ok, err, out_of_range, ◌>>=◌}
use capio_v.Constants.{capio_file_committed_on_termination, capio_file_mode_update}
use capio_v.Glob.{match_globs}
use capio_v.Clients.{ClientManager, get_app_name}

pub record Location : Type 0 where
  pub producers : List Text
  pub consumers : List Text
  pub commit_rule : Text
  pub fire_rule : Text
  pub permanent : Bool
  pub exclude : Bool
  pub is_file : Bool
  pub commit_close_count : ℤ
  pub directory_file_count : ℤ
  pub file_deps : List Text

abbrev pub Locations : Type 0
Locations = Assoc Text Location

unfoldable pub get_commit_rule : Text → Locations → Text
get_commit_rule path l = elim (find path l) [
  | some f ↦ f.commit_rule
  | none ↦ capio_file_committed_on_termination
]

unfoldable pub get_fire_rule : Text → Locations → Text
get_fire_rule path l = elim (find path l) [ some f ↦ f.fire_rule | none ↦ capio_file_mode_update ]

unfoldable pub is_file : Text → Locations → Bool
is_file path l = elim (find path l) [ some f ↦ f.is_file | none ↦ false ]

unfoldable pub is_directory : Text → Locations → Bool
is_directory path l = not (is_file path l)

unfoldable pub get_directory_file_count : Text → Locations → ℤ
get_directory_file_count path l = elim (find path l) [
  | some f ↦ f.directory_file_count
  | none ↦ pos 0
]

unfoldable pub get_commit_close_count : Text → Locations → ℤ
get_commit_close_count path l = elim (find path l) [ some f ↦ f.commit_close_count | none ↦ pos 0 ]

unfoldable pub producers : Text → Locations → List Text
producers path l = elim (find path l) [ some f ↦ f.producers | none ↦ [] ]

unfoldable pub consumers : Text → Locations → List Text
consumers path l = elim (find path l) [ some f ↦ f.consumers | none ↦ [] ]

unfoldable pub get_file_deps : Text → Locations → List Text
get_file_deps path l = elim (find path l) [ some f ↦ f.file_deps | none ↦ [] ]

unfoldable pub set_commit_rule : Text → Text → Locations → Locations
set_commit_rule path rule = update path (λ f. record f { commit_rule = rule })

unfoldable pub set_fire_rule : Text → Text → Locations → Locations
set_fire_rule path rule = update path (λ f. record f { fire_rule = rule })

unfoldable pub set_permanent : Text → Bool → Locations → Locations
set_permanent path value = update path (λ f. record f { permanent = value })

unfoldable pub set_exclude : Text → Bool → Locations → Locations
set_exclude path value = update path (λ f. record f { exclude = value })

unfoldable pub set_directory : Text → Locations → Locations
set_directory path = update path (λ f. record f { is_file = false })

unfoldable pub set_file : Text → Locations → Locations
set_file path = update path (λ f. record f { is_file = true })

-- The parameter is an int: the long of the caller is narrowed to 32 bits.
unfoldable pub set_commited_number : Text → ℤ → Locations → Locations
set_commited_number path num = update path (λ f. record f { commit_close_count = to_int num })

unfoldable pub set_directory_file_count : Text → ℤ → Locations → Locations
set_directory_file_count path num = update path (λ f. record f { directory_file_count = num })

unfoldable pub remove : Text → Locations → Locations
remove path = erase path

unfoldable pub add :
    Text → List Text → List Text → Text → Text → Bool → Bool → List Text → Locations → Locations
add path prods cons commit fire perm excl deps = emplace path (record {
  producers = prods;
  consumers = cons;
  commit_rule = commit;
  fire_rule = fire;
  permanent = perm;
  exclude = excl;
  is_file = true;
  commit_close_count = negsuc 0;
  directory_file_count = negsuc 0;
  file_deps = deps;
})

-- matchSize, commit and fire of the loop of newFile
pub record Match : Type 0 where
  pub size : ℕ
  pub commit : Text
  pub fire : Text

abbrev pub no_match : Match
no_match = record {
  size = 0;
  commit = capio_file_committed_on_termination;
  fire = capio_file_mode_update;
}

unfoldable pub consider : Text → Locations → Bool → Match → Match
consider filename l matches best =
    if matches && is_directory filename l && ltb best.size (length filename)
    then record {
      size = length filename;
      commit = get_commit_rule filename l;
      fire = get_fire_rule filename l;
    }
    else best

-- the loop, over the names that are left
unfoldable pub longest_match : Text → Locations → List Text → Match → Result Match
longest_match path l [] best = ok best
longest_match path l (filename ∷ rest) best = do
  matches ← match_globs filename path
  longest_match path l rest (consider filename l matches best)

abbrev pub inherited : Match → Location
inherited best = record {
  producers = [];
  consumers = [];
  commit_rule = best.commit;
  fire_rule = best.fire;
  permanent = false;
  exclude = false;
  is_file = true;
  commit_close_count = negsuc 0;
  directory_file_count = negsuc 0;
  file_deps = [];
}

unfoldable pub new_file : Text → Locations → Result Locations
new_file path l =
    if has path l
    then ok l
    else do best ← longest_match path l (keys l) no_match; ok (emplace path (inherited best) l)

-- isspace of the C locale
unfoldable pub is_space : ℕ → Bool
is_space c = nat_beq c 32 || (leb 9 c && leb c 13)

-- erase(remove_if(begin, end, isspace), end)
unfoldable pub strip_spaces : Text → Text
unfolding is_space
strip_spaces [] = []
strip_spaces (c ∷ s) = let rest = strip_spaces s in if is_space c then rest else c ∷ rest

unfoldable pub add_producer : Text → Text → Locations → Result Locations
add_producer path producer l = do
  known ← new_file path l
  ok (update path (λ f. record f { producers = f.producers ++ strip_spaces producer ∷ [] }) known)

unfoldable pub add_consumer : Text → Text → Locations → Locations
add_consumer path consumer =
    update path (λ f. record f { consumers = f.consumers ++ strip_spaces consumer ∷ [] })

-- the second loop of isProducer: the first name that matches decides
unfoldable pub glob_producer : Text → Text → Locations → List Text → Result Bool
glob_producer app_name path l [] = ok false
glob_producer app_name path l (k ∷ rest) = do
  matches ← match_globs k path
  let more = glob_producer app_name path l rest
  if matches then ok (contains app_name (producers k l)) else more

unfoldable pub is_producer : ClientManager → Text → ℤ → Locations → Result Bool
is_producer clients path pid l = do
  app_name ← get_app_name pid clients
  if has path l
      then ok (contains app_name (producers path l))
      else glob_producer app_name path l (keys l)

unfoldable pub new_files : List Text → Locations → Result Locations
new_files [] l = ok l
new_files (dep ∷ deps) l = do l' ← new_file dep l; new_files deps l'

unfoldable pub set_file_deps : Text → List Text → Locations → Result Locations
set_file_deps path deps l = elim (find path l) [
  | none ↦ err out_of_range
  | some _ ↦ new_files deps (update path (λ f. record f { file_deps = deps }) l)
]
