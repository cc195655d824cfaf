-- ===== src/Process.antt =====
-- src/posix/utils/clone.hpp, and the handlers of fork, execve and exit in src/posix/handlers: how
-- the client follows the threads and processes of an application. A new thread waits on a condition
-- variable until its parent has registered it; the wait is the guard of the step.
pub mod Started
pub mod Ending
use capio_v.Prelude.{ℕ, Bool, true, false, Option, none, some, List, [], ◌∷◌, ◌++◌, if◌then◌else◌}
use capio_v.Prelude.Int.{ℤ, pos, int_beq, leb_ℤ}
use capio_v.Prelude.Eq.{Text, int_eq, contains}
use capio_v.Prelude.Result.{Result, ok, ◌>>=◌}
use capio_v.Constants.{capio_default_app_name}
use capio_v.Requests.{handshake_named_request, handshake_anonymous_request, exit_group_request}
use capio_v.FdTable.{Tables, insert_fd, erase_fd, init_filesystem}
use capio_v.Cache.{WriteCache, ReadCache, new_write_cache, new_read_cache}
use capio_v.Posix.{Client, Outcome, skip, done, request, flush_writes}
use capio_v.Snapshot.{Segments, Stale, create_snapshot, resume}

-- `client` is the running thread's view; `tids` are the registered threads; `app_name` is the variable CAPIO_APP_NAME, `cache_size` what the caches
-- of a new thread hold.
pub record Process : Type 0 where
  pub client : Client
  pub tids : List ℤ
  pub no_intercept : Bool
  pub app_name : Option Text
  pub cache_size : ℕ

unfoldable pub is_capio_tid : ℤ → Process → Bool
is_capio_tid tid p = contains tid p.tids

unfoldable pub register_capio_tid : ℤ → Process → Process
register_capio_tid tid p = record p { tids = insert_fd tid p.tids }

unfoldable pub remove_capio_tid : ℤ → Process → Process
remove_capio_tid tid p = record p { tids = erase_fd tid p.tids }

unfoldable pub register_listener : ℤ → Process → Process
register_listener tid p = record p {
  client = record p.client { listeners = insert_fd tid p.client.listeners };
}

-- the pointer is never null
unfoldable pub get_capio_app_name : Option Text → Option Text
get_capio_app_name none = some capio_default_app_name
get_capio_app_name (some name) = some name

unfoldable pub handshake : ℤ → ℤ → Option Text → Text
handshake tid pid none = handshake_anonymous_request tid pid
handshake tid pid (some name) = handshake_named_request tid pid name

unfoldable pub init_process : ℤ → ℤ → Process → Process
init_process tid pid p =
    let q = register_listener tid (record p { no_intercept = true }) in
    record q {
      client = request (handshake tid pid (get_capio_app_name p.app_name)) q.client;
      no_intercept = false;
    }

-- init_client: the buffers and the caches of the first thread
unfoldable pub init_client : ℤ → Tables → ℕ → Client
init_client tid tables cache_size = record {
  tid = tid;
  tables = tables;
  writes = new_write_cache cache_size;
  reads = new_read_cache;
  listeners = [];
  requests = [];
}

-- the constructor of src/posix/libcapio_posix.cpp, in the directory `cwd`; `snapshot` is what
-- get_fd_snapshot finds
unfoldable pub init : Stale → ℤ → ℤ → Text → Option Segments → Option Text → ℕ → Result Process
init stale tid pid cwd snapshot app_name cache_size = do
  tables ← resume stale snapshot (init_filesystem cwd)
  ok (
      register_capio_tid tid (
        init_process tid pid (record {
          client = init_client tid tables cache_size;
          tids = [];
          no_intercept = false;
          app_name = app_name;
          cache_size = cache_size;
        })))

-- The child starts, with new caches, once it is registered.
unfoldable pub hook_clone_child : ℤ → Process → Option Client
hook_clone_child tid p =
    if is_capio_tid tid p
    then some (record p.client {
      tid = tid;
      writes = new_write_cache p.cache_size;
      reads = new_read_cache;
    })
    else none

-- what a parent does for a child, one after the other: init_process, register_capio_tid and
-- notify_all
pub data Action : Type 0 where
  introduces : ℤ → ℤ → Action
  registers : ℤ → Action
  notifies : Action

-- A waiting child looks at `tids` again when it is notified; its wait is a guard.
unfoldable pub act : Action → Process → Process
act (introduces tid pid) p = init_process tid pid p
act (registers tid) p = register_capio_tid tid p
act notifies p = p

unfoldable pub hook_clone_parent : ℤ → ℤ → List Action
hook_clone_parent child_tid pid =
    if leb_ℤ (pos 0) child_tid
    then introduces child_tid pid ∷ registers child_tid ∷ notifies ∷ []
    else []

unfoldable pub act_all : List Action → Process → Process
act_all [] p = p
act_all (a ∷ actions) p = act_all actions (act a p)

-- fork_handler, in the child: `child_tid` is its only thread and its process
unfoldable pub fork_child : ℤ → Process → Process × Outcome
fork_child child_tid p = (
  init_process child_tid child_tid (record p { client = record p.client { tid = child_tid } }),
  done (pos 0),
)

-- fork_handler, in the parent
unfoldable pub fork_parent : ℤ → Process → Process × Outcome
fork_parent child p = (p, done child)

-- execve_handler: what it leaves in shared memory
unfoldable pub execve : Process → Result (Option Segments × Outcome)
execve p = do s ← create_snapshot p.client.tables; ok (s, skip)

-- exit_group_request
unfoldable pub announce_exit : Client → Client
announce_exit c = request (exit_group_request c.tid) (flush_writes c)

-- exit_handler; the destructor of the write cache flushes it
unfoldable pub exit : Process → Process × Outcome
exit p =
    let q =
      if is_capio_tid p.client.tid p
      then remove_capio_tid p.client.tid (record p { client = announce_exit p.client })
      else p in
    (record q { client = flush_writes q.client }, skip)
