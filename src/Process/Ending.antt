-- ===== src/Process/Ending.antt =====
-- The end of a thread, exit_handler of src/posix/handlers/exit_group.hpp.
use mathlib.Core.List.{map}
use capio_v.Prelude.{
  ◌≡◌, refl, ◌∙◌, true, false, some, List, [], ◌∷◌, ◌++◌, append-nil, append_assoc,
}
use capio_v.Prelude.Int.{ℤ}
use capio_v.Prelude.Eq.{Text, int_eq, contains}
use capio_v.Requests.{exit_group_request, handshake_named_request}
use capio_v.Cache.{flush, write_text}
use capio_v.Posix.{Client, drain, request, flush_writes}
use capio_v.Process.{
  Process, is_capio_tid, remove_capio_tid, announce_exit, exit, fork_child, init_process, handshake,
  get_capio_app_name, register_listener,
}

-- the writes that the cache of a thread still owes the server
abbrev pub pending : Client → List Text
pending c = map write_text (flush c.tid c.writes).sent

-- A registered thread that exits sends the writes that its cache still owes the server, then the
-- request of exit, and nothing after it.
pub exit-registered :
    (p : Process)
    → is_capio_tid p.client.tid p ≡ true
    → (exit p).0.client.requests
      ≡ p.client.requests ++ (pending p.client ++ exit_group_request p.client.tid ∷ [])
unfolding exit announce_exit flush_writes drain request remove_capio_tid flush
exit-registered p registered =
    rw registered (append-nil _ ∙ append_assoc p.client.requests (pending p.client) _)

-- Where the thread is not registered, only the writes are sent.
pub exit-unregistered :
    (p : Process)
    → is_capio_tid p.client.tid p ≡ false
    → (exit p).0.client.requests ≡ p.client.requests ++ pending p.client
unfolding exit flush_writes drain
exit-unregistered p unknown = rw unknown refl

-- A forked child whose thread id is not that of a registered thread of its parent never tells the
-- server that it ends: after its handshake (CAPIO_APP_NAME is set) its exit sends the writes that its
-- cache still owes the server, and no request of exit.
pub forked_exit_is_silent :
    (child : ℤ) (name : Text) (p : Process)
    → contains child p.tids ≡ false
    → p.app_name ≡ some name
    → (exit (fork_child child p).0).0.client.requests
      ≡ (p.client.requests ++ handshake_named_request child child name ∷ [])
        ++ map write_text (flush child p.client.writes).sent
unfolding exit fork_child init_process handshake get_capio_app_name register_listener flush_writes
    drain request is_capio_tid
forked_exit_is_silent child name p unknown named = rw (unknown, named) refl
