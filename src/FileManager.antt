-- ===== src/FileManager.antt =====
-- CapioFileManager of src/server/file-manager/file_manager.hpp and file_manager_impl.hpp, over the
-- state of the whole server. A token file is the number that stands in it, 0 if it is empty. The
-- two mutexes and the lock file serialise the calls; each call is one step here.
pub mod Counting
pub mod Committed
pub mod Replies
pub mod Waiting
use capio_v.Prelude.{
  ℕ, zero, suc, ◌+◌, ◌-◌, ◌^◌, Bool, true, false, not, ◌&&◌, ◌||◌, Option, none, some, List, [],
  ◌∷◌, ◌++◌, leb, if◌then◌else◌,
}
use capio_v.Prelude.Int.{ℤ, pos, negsuc, leb_ℤ, int_beq, to_u64}
use capio_v.Prelude.Eq.{Text, text_eq, int_eq, ◌==◌}
use capio_v.Prelude.Assoc.{Assoc, find, has, emplace, update, erase, keys}
use capio_v.Prelude.Result.{Result, ok, err, out_of_fuel, out_of_range, ◌>>=◌}
use capio_v.Constants.{
  capio_file_committed_on_close, capio_file_committed_on_file, capio_file_mode_no_update,
  ullong_max,
}
use capio_v.Disk.{Env, metadata_path, get_file_size_if_exists, directory_count}
use capio_v.Disk
use capio_v.Clients.{ClientManager, reply_to_client, get_produced_files}
use capio_v.Engine.{
  Locations, get_commit_rule, get_fire_rule, get_file_deps, get_commit_close_count,
  get_directory_file_count, is_producer,
}

pub record Server : Type 0 where
  pub locations : Locations
  pub clients : ClientManager
  pub thread_awaiting_file_creation : Assoc Text (List ℤ)
  pub thread_awaiting_data : Assoc Text (Assoc ℤ ℕ)
  pub tokens : Assoc Text ℕ

-- the token of a path and the number in it
unfoldable pub token : Env → Server → Text → Option ℕ
token env s path = find (metadata_path env path) s.tokens

-- commit_computed && isCommitted(file), over the dependencies
unfoldable pub all_committed : (Text → Result Bool) → List Text → Result Bool
all_committed committed [] = ok true
all_committed committed (file ∷ files) = do
  computed ← committed file
  elim computed [ true ↦ all_committed committed files | false ↦ ok false ]

unfoldable pub closed_often_enough : ℤ → Option ℕ → Bool
closed_often_enough commit_count none = false
closed_often_enough commit_count (some actual) =
    if int_beq commit_count (negsuc 0) then true else leb_ℤ commit_count (pos actual)

unfoldable pub directory_committed : Env → Server → Text → Bool
directory_committed env s path =
    leb_ℤ (get_directory_file_count path s.locations) (directory_count env path)

unfoldable pub is_committed_within : ℕ → Env → Server → Text → Result Bool
is_committed_within zero env s path = err out_of_fuel
is_committed_within (suc fuel) env s path =
    let rule = get_commit_rule path s.locations in
    let on_deps = all_committed (is_committed_within fuel env s) (get_file_deps path s.locations) in
    if Disk.is_directory env path
    then ok (directory_committed env s path)
    else if rule == capio_file_committed_on_file
    then on_deps
    else if rule == capio_file_committed_on_close
    then ok (closed_often_enough (get_commit_close_count path s.locations) (token env s path))
    else ok (elim (token env s path) [ none ↦ false | some _ ↦ true ])

unfoldable pub is_committed : Env → Server → Text → Result Bool
is_committed env s path = is_committed_within env.fuel env s path

unfoldable pub add_thread_awaiting_creation : Text → ℤ → Server → Server
add_thread_awaiting_creation path tid s = record s {
  thread_awaiting_file_creation =
      update path (λ tids. tids ++ tid ∷ []) (emplace path [] s.thread_awaiting_file_creation);
}

unfoldable pub reply : ℤ → ℕ → Server → Result Server
reply tid offset s = do
  clients ← reply_to_client tid offset s.clients
  ok (record s { clients = clients })

unfoldable pub reply_all : List ℤ → ℕ → Server → Result Server
reply_all [] offset s = ok s
reply_all (tid ∷ tids) offset s = do s' ← reply tid offset s; reply_all tids offset s'

unfoldable pub delete_file_awaiting_creation : Text → Server → Server
delete_file_awaiting_creation path s = record s {
  thread_awaiting_file_creation = erase path s.thread_awaiting_file_creation;
}

abbrev pub awaiting_creation : Text → Server → List ℤ
awaiting_creation path s = elim (find path s.thread_awaiting_file_creation) [
  | none ↦ []
  | some tids ↦ tids
]

unfoldable pub unlock_thread_awaiting_creation : Text → Server → Result Server
unfolding delete_file_awaiting_creation
unlock_thread_awaiting_creation path s = do
  s' ← reply_all (awaiting_creation path s) 1 s
  ok (delete_file_awaiting_creation path s')

unfoldable pub add_thread_awaiting_data : Text → ℤ → ℕ → Server → Server
add_thread_awaiting_data path tid expected_size s = record s {
  thread_awaiting_data =
      update path (emplace tid expected_size) (emplace path [] s.thread_awaiting_data);
}

-- filesize: -1 as uintmax_t for a directory
unfoldable pub compared_size : Env → Text → Result ℕ
compared_size env path =
    if Disk.is_directory env path then ok (2 ^ 64 - 1) else get_file_size_if_exists env path

-- committed || is_producer || (file_size_check && is_fnu); the thread id is what the file's size is
-- compared with.
unfoldable pub lock_condition : Env → Text → ℤ → Server → Result Bool
lock_condition env path tid s = do
  filesize ← compared_size env path
  committed ← is_committed env s path
  producer ← is_producer s.clients path tid s.locations
  let is_fnu = get_fire_rule path s.locations == capio_file_mode_no_update
  ok (committed || (producer || (leb filesize (to_u64 tid) && is_fnu)))

unfoldable pub unlock_value : Env → Text → Result ℕ
unlock_value env path =
    if Disk.is_directory env path then ok ullong_max else get_file_size_if_exists env path

-- The loop over the threads that await data of the path: those that stay, and the server.
unfoldable pub unlock_threads : Env → Text → Assoc ℤ ℕ → Server → Result (Assoc ℤ ℕ × Server)
unlock_threads env path [] s = ok ([], s)
unlock_threads env path ((tid, size) ∷ rest) s = do
  unlocked ← lock_condition env path tid s
  elim unlocked [
    | true ↦ do
      value ← unlock_value env path
      s' ← reply tid value s
      unlock_threads env path rest s'
    | false ↦ do out ← unlock_threads env path rest s; ok ((tid, size) ∷ out.0, out.1)
  ]

unfoldable pub keep_threads : Text → Assoc ℤ ℕ → Server → Server
keep_threads path [] s = record s { thread_awaiting_data = erase path s.thread_awaiting_data }
keep_threads path (t ∷ ts) s = record s {
  thread_awaiting_data = update path (λ _. t ∷ ts) s.thread_awaiting_data;
}

unfoldable pub check_and_unlock_thread_awaiting_data : Env → Text → Server → Result Server
check_and_unlock_thread_awaiting_data env path s = elim (find path s.thread_awaiting_data) [
  | none ↦ ok s
  | some threads ↦ do out ← unlock_threads env path threads s; ok (keep_threads path out.0 out.1)
]

-- f >> close_count, close_count++, written back: a file that is not there counts as 0
unfoldable pub increase_close_count : Env → Text → Server → Server
increase_close_count env path s =
    let name = metadata_path env path in
    record s { tokens = update name (λ close_count. close_count + 1) (emplace name 0 s.tokens) }

-- setCommitted(path): a token that is there stays
unfoldable pub set_committed : Env → Text → Server → Result Server
set_committed env path s = do
  s' ←
      check_and_unlock_thread_awaiting_data env path
        (record s { tokens = emplace (metadata_path env path) 0 s.tokens })
  unlock_thread_awaiting_creation path s'

unfoldable pub set_committed_files : Env → List Text → Server → Result Server
set_committed_files env [] s = ok s
set_committed_files env (file ∷ files) s = do
  s' ← set_committed env file s
  set_committed_files env files s'

-- setCommitted(tid)
unfoldable pub set_committed_by : Env → ℤ → Server → Result Server
set_committed_by env tid s = do
  files ← get_produced_files tid s.clients
  set_committed_files env files s

unfoldable pub get_file_awaiting_creation : Server → List Text
get_file_awaiting_creation s = keys s.thread_awaiting_file_creation

unfoldable pub get_file_awaiting_data : Server → List Text
get_file_awaiting_data s = keys s.thread_awaiting_data
