-- ===== src/Tests/Watching.antt =====
-- Examples for the handlers that only ask, for snapshots, for threads and for the hook.
use mathlib.Core.List.{map}
use capio_v.Prelude.{
  ℕ, ◌≡◌, refl, ◌≢◌, ◌⊎◌, true, false, Option, none, some, [], ◌∷◌, ◌++◌, All, if◌then◌else◌, arith,
}
use capio_v.Prelude.Int.{pos, leb_ℤ}
use capio_v.Prelude.Eq.{Text, codes, text_eq, int_eq, ◌==◌, contains, text_beq, text_beq_iff}
use capio_v.Prelude.Result.{ok}
use capio_v.FdTable.{init_filesystem}
use capio_v.FdTable.Consistent.{Consistent}
use capio_v.Cache.{flush, write_text}
use capio_v.Requests.{handshake_named_request}
use capio_v.Posix.{Client, Outcome}
use capio_v.Posix.Asking.Consent.{ask-Answers}
use capio_v.Posix.Asking.Asks.{ask, Sent, fstats}
use capio_v.Snapshot.{Stale, resume}
use capio_v.Process.{
  Process, exit, fork_child, init, init_client, init_process, register_capio_tid, hook_clone_child,
  hook_clone_parent, introduces, registers, notifies, act_all,
}
use capio_v.Process.Ending.{forked_exit_is_silent}
use capio_v.Process.Started.{
  Running, Reach, begins, moves, clones, goes_on, IsIntroduced, child_starts-IsIntroduced,
}
use capio_v.Hook.{Handler, not_handled_handler, captured, assignments, to_kernel, calls, hook}
use capio_v.Hook.Dispatch.{IsInjective, last_of, hook-last_of}
use capio_v.Tests.Calls.{client, client-Consistent, client-IsListening, no_answers}

-- fstat(3), which is open on a
ask-Answers_example :
    (out : Client × Outcome) × (ask no_answers (fstats (pos 3)) client ≡ ok out)
    × Sent no_answers client (fstats (pos 3)) out.0
ask-Answers_example =
    ask-Answers no_answers (fstats (pos 3)) client client-Consistent client-IsListening

-- the page of the path is still there
abbrev readable : Stale
readable path info = some path

-- thread 7, registered, has written 9 bytes of a that are still in its cache
abbrev writing : Process
writing = record {
  client = record client {
    writes = record client.writes {
      current_fd = pos 3;
      current_size = 9;
      current_path = codes "/c/a";
    };
  };
  tids = pos 7 ∷ [];
  no_intercept = false;
  app_name = some (codes "w");
  cache_size = 4096;
}

forked_exit_is_silent_example :
    (exit (fork_child (pos 8) writing).0).0.client.requests
    ≡ (writing.client.requests ++ handshake_named_request (pos 8) (pos 8) (codes "w") ∷ [])
      ++ map write_text (flush (pos 8) writing.client.writes).sent
unfolding contains
forked_exit_is_silent_example = forked_exit_is_silent (pos 8) (codes "w") writing refl refl

-- a program of thread 7, with no snapshot
abbrev program : Process
program = register_capio_tid (pos 7) (
    init_process (pos 7) (pos 7) (record {
      client = init_client (pos 7) (init_filesystem (codes "/c")) 4096;
      tids = [];
      no_intercept = false;
      app_name = some (codes "w");
      cache_size = 4096;
    }))

-- that starts thread 8: the actions of the parent, one by one
abbrev started : Running
started = record {
  process = act_all (hook_clone_parent (pos 8) (pos 7)) program;
  parents = [] ∷ [];
}

started-Reach : Reach program started
unfolding hook_clone_parent act_all
started-Reach =
    moves
      (moves
        (moves (moves begins (clones (pos 8) (pos 7)))
          (goes_on [] [] (introduces (pos 8) (pos 7)) (registers (pos 8) ∷ notifies ∷ []) refl))
        (goes_on [] [] (registers (pos 8)) (notifies ∷ []) refl))
      (goes_on [] [] notifies [] refl)

child_starts-IsIntroduced_example :
    ((c : Client)
      → hook_clone_child (pos 8) started.process ≡ some c
      → IsIntroduced (pos 8) started.process)
    × (leb_ℤ (pos 0) (pos 8) ≡ true
        → (c : Client) × (hook_clone_child
              (pos 8)
              (act_all (hook_clone_parent (pos 8) (pos 7)) started.process)
            ≡ some c))
unfolding init resume
child_starts-IsIntroduced_example =
    child_starts-IsIntroduced readable (pos 7) (pos 7) (codes "/c") none (some (codes "w")) 4096
      (pos 8) (pos 7) refl started-Reach

-- a platform with two system calls, of the x86-64 numbers
abbrev number : Text → Option ℕ
number name =
    if name == codes "close" then some 3 else if name == codes "openat" then some 257 else none

number-IsInjective : IsInjective number
number-IsInjective a b n e e' = ground (
  arith,
  e,
  e',
  text_beq_iff a (codes "close"),
  text_beq_iff a (codes "openat"),
  text_beq_iff b (codes "close"),
  text_beq_iff b (codes "openat"),
)

hook-last_of_example :
    ((name : Text) (n : ℕ)
      → contains name captured ≡ true
      → number name ≡ some n
      → hook number false (some (codes "/c")) n
        ≡ calls (last_of name assignments not_handled_handler))
    × ((n : ℕ)
        → All (λ a. number a.0 ≢ some n) assignments
        → (hook number false (some (codes "/c")) n ≡ to_kernel)
          ⊎ (hook number false (some (codes "/c")) n ≡ calls not_handled_handler))
hook-last_of_example = hook-last_of number (codes "/c") number-IsInjective

-- chmod, whose first argument is a path, goes to the handler of fchmod, which takes a descriptor.
chmod_as_descriptor :
    last_of (codes "chmod") assignments not_handled_handler ≡ Handler.fchmod_handler
unfolding last_of text_beq
chmod_as_descriptor = refl
