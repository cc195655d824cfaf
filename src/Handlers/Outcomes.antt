-- ===== src/Handlers/Outcomes.antt =====
-- What single requests come to: dispatch of src/server/client-manager/request_handler_engine.hpp,
-- read.hpp, open.hpp and create.hpp of src/server/client-manager/handlers/.
use mathlib.Core.Path.{subst, sym}
use mathlib.Core.Option
use capio_v.Prelude.{ℕ, ◌<◌, ◌≡◌, ◌≢◌, refl, ◌∙◌, false, none, [], ◌∷◌, ◌++◌, ◌⊎◌, arith, inl, inr}
use capio_v.Prelude.Int.{ℤ, pos}
use capio_v.Prelude.Eq.{Text, text_eq, int_eq, ==_refl}
use capio_v.Prelude.Assoc.{find, emplace, has-find, find-emplace, find-update}
use capio_v.Prelude.Result.{ok, err, bad_call, err_exit}
use capio_v.Disk.{Env, exists}
use capio_v.Engine.{is_producer}
use capio_v.FileManager.{
  Server, add_thread_awaiting_creation, awaiting_creation, unlock_thread_awaiting_creation,
}
use capio_v.FileManager.Replies.{buffer, Registered, answers, unlock_thread_awaiting_creation_lem}
use capio_v.Handlers.{dispatch, request_handlers, on_open}

-- Of the codes from 0 to 12, all have a handler but 1, the clone request, and 12, the number of
-- the codes: these two are called through a null or absent pointer. Greater codes end the server.
pub dispatch_codes :
    (code : ℕ) (env : Env) (str : Text) (s : Server)
    → ((code ≡ 1) ⊎ (code ≡ 12) → dispatch (pos code) env str s ≡ err bad_call)
      × (12 < code → dispatch (pos code) env str s ≡ err err_exit)
      × (code ≢ 1 → code < 12 → request_handlers code ≢ none)
unfolding dispatch request_handlers
dispatch_codes code env str s = (
  λ absent. elim absent [ inl one ↦ rw one | inr twelve ↦ rw twelve ],
  λ lt. ground arith,
  λ other lt e. absurd (ground arith),
)

queue_end :
    (path : Text) (tid : ℤ) (s : Server)
    → awaiting_creation path (add_thread_awaiting_creation path tid s)
      ≡ awaiting_creation path s ++ tid ∷ []
unfolding add_thread_awaiting_creation
queue_end path tid s = ground (
  arith,
  find-emplace path path [] s.thread_awaiting_file_creation,
  has-find path s.thread_awaiting_file_creation,
  ==_refl path,
  find-update path path (λ ts. ts ++ tid ∷ []) (emplace path [] s.thread_awaiting_file_creation),
)

waiting-Registered :
    (path : Text) (tid : ℤ) (s : Server)
    → Registered s (awaiting_creation path s ++ tid ∷ [])
    → Registered
        (add_thread_awaiting_creation path tid s)
        (awaiting_creation path (add_thread_awaiting_creation path tid s))
unfolding add_thread_awaiting_creation
waiting-Registered path tid s h =
    subst (Registered (add_thread_awaiting_creation path tid s)) (sym (queue_end path tid s)) h

-- A thread that opens a file which does not exist and which it does not produce is queued and gets
-- no answer. When the file's creation is then announced, and all that wait for it have a buffer,
-- each of them, that thread included, is sent a 1 for each time it is queued, and the queue goes.
pub open_then_creation :
    (env : Env) (tid : ℤ) (path : Text) (s : Server)
    → exists env path ≡ false
    → is_producer s.clients path tid s.locations ≡ ok false
    → Registered s (awaiting_creation path s ++ tid ∷ [])
    → (s' s'' : Server) × (on_open env tid path s ≡ ok s')
      × (s'.clients ≡ s.clients)
      × (unlock_thread_awaiting_creation path s' ≡ ok s'')
      × ((t : ℤ)
          → buffer t s''
            ≡ Option.map
                (λ buf. buf ++ answers t (awaiting_creation path s ++ tid ∷ []) 1)
                (buffer t s))
      × (find path s''.thread_awaiting_file_creation ≡ none)
unfolding on_open add_thread_awaiting_creation
open_then_creation env tid path s he hp hr =
    let s' = add_thread_awaiting_creation path tid s in
    let (s'', unlocked, bufs, queues, _, _, _, _, _) =
      unlock_thread_awaiting_creation_lem path s' (waiting-Registered path tid s hr) in
    (
      s',
      s'',
      ground (arith, he, hp),
      refl,
      unlocked,
      λ t. bufs t ∙ rw (queue_end path tid s) refl,
      queues path ∙ rw (==_refl path),
    )
