-- ===== src/FileManager/Waiting.antt =====
-- checkAndUnlockThreadAwaitingData of src/server/file-manager/file_manager_impl.hpp.
use mathlib.Core.Path.{fun_ext}
use mathlib.Core.Option
use capio_v.Prelude.{
  ℕ, zero, suc, ◌≡◌, refl, ◌∙◌, Bool, Option, none, some, List, [], ◌∷◌, ◌++◌, All, arith, inl, inr,
  Bool-cases, if◌then◌else◌,
}
use capio_v.Prelude.Int.{ℤ}
use capio_v.Prelude.Eq.{Text, text_eq, int_eq, ◌==◌, text_beq_iff}
use capio_v.Prelude.Assoc.{Assoc, find, update, find-update, find-erase}
use capio_v.Prelude.Result.{ok}
use capio_v.Disk.{Env}
use capio_v.Clients.{get_app_name}
use capio_v.Engine.{is_producer}
use capio_v.FileManager.{
  Server, token, directory_committed, is_committed_within, is_committed, lock_condition,
  unlock_value, unlock_threads, keep_threads, check_and_unlock_thread_awaiting_data,
}
use capio_v.FileManager.Replies.{
  Buffers, buffer, Registered, answers, send_all, with_buffers, reply_lem, find-send_all,
  Registered-update,
}

committed-with_buffers :
    (n : ℕ) (env : Env) (s : Server) (bufs : Buffers) (path : Text)
    → is_committed_within n env (with_buffers s bufs) path ≡ is_committed_within n env s path
unfolding is_committed_within token directory_committed
committed-with_buffers zero env s bufs path = refl
committed-with_buffers (suc n) env s bufs path = rw (fun_ext (committed-with_buffers n env s bufs))

-- The test does not depend on the response buffers.
pub lock_condition-with_buffers :
    (env : Env) (path : Text) (tid : ℤ) (s : Server) (bufs : Buffers)
    → lock_condition env path tid (with_buffers s bufs) ≡ lock_condition env path tid s
unfolding lock_condition is_committed is_producer get_app_name
lock_condition-with_buffers env path tid s bufs =
    rw (committed-with_buffers env.fuel env s bufs path)

-- the threads that pass a test, and the entries of those that do not
abbrev pub woken : (ℤ → Bool) → Assoc ℤ ℕ → List ℤ
woken test [] = []
woken test ((tid, size) ∷ rest) = if test tid then tid ∷ woken test rest else woken test rest

abbrev pub still_waiting : (ℤ → Bool) → Assoc ℤ ℕ → Assoc ℤ ℕ
still_waiting test [] = []
still_waiting test ((tid, size) ∷ rest) =
    if test tid then still_waiting test rest else (tid, size) ∷ still_waiting test rest

-- what the test of each thread says
abbrev pub Decided : Env → Text → Server → (ℤ → Bool) → Assoc ℤ ℕ → Type 0
Decided env path s test threads =
    All (λ entry. lock_condition env path entry.0 s ≡ ok (test entry.0)) threads

Decided-with_buffers :
    (env : Env) (path : Text) (s : Server) (test : ℤ → Bool) (bufs : Buffers) (threads : Assoc ℤ ℕ)
    → Decided env path s test threads
    → Decided env path (with_buffers s bufs) test threads
Decided-with_buffers env path s test bufs [] h = tt
Decided-with_buffers env path s test bufs ((tid, size) ∷ rest) h = (
  lock_condition-with_buffers env path tid s bufs ∙ h.0,
  Decided-with_buffers env path s test bufs rest h.1,
)

unlock_threads_lem :
    (env : Env) (path : Text) (test : ℤ → Bool) (v : ℕ) (threads : Assoc ℤ ℕ) (s : Server)
    → unlock_value env path ≡ ok v
    → Decided env path s test threads
    → Registered s (woken test threads)
    → unlock_threads env path threads s
      ≡ ok (
        still_waiting test threads,
        with_buffers s (send_all (woken test threads) v s.clients.bufs_response),
      )
unfolding unlock_threads send_all
unlock_threads_lem env path test v [] s hv hd hr = refl
unlock_threads_lem env path test v ((tid, size) ∷ rest) s hv hd hr = elim (Bool-cases (test tid)) [
  | inl y ↦
      let registered : Registered s (tid ∷ woken test rest) = rw y at hr in
      let grow = λ (buf : List ℕ). buf ++ v ∷ [] in
      let bufs = update tid grow s.clients.bufs_response in
      rw (hd.0, y, hv, reply_lem tid v s registered.0)
        (unlock_threads_lem env path test v rest (with_buffers s bufs) hv
          (Decided-with_buffers env path s test bufs rest hd.1)
          (Registered-update s tid grow (woken test rest) registered.1))
  | inr n ↦ rw (hd.0, n, unlock_threads_lem env path test v rest s hv hd.1 (rw n at hr))
]

-- what is left of the queue of a path
abbrev pub queue_left : Assoc ℤ ℕ → Option (Assoc ℤ ℕ)
queue_left [] = none
queue_left (t ∷ ts) = some (t ∷ ts)

find-keep_threads :
    (path q : Text) (kept threads : Assoc ℤ ℕ) (s : Server)
    → find path s.thread_awaiting_data ≡ some threads
    → find q (keep_threads path kept s).thread_awaiting_data
      ≡ (if path == q then queue_left kept else find q s.thread_awaiting_data)
unfolding keep_threads
find-keep_threads path q [] threads s h = find-erase path q s.thread_awaiting_data
find-keep_threads path q (t ∷ ts) threads s h =
    ground (arith, find-update path q (λ _. t ∷ ts) s.thread_awaiting_data, text_beq_iff path q)

clients-keep_threads :
    (path : Text) (kept : Assoc ℤ ℕ) (s : Server) → (keep_threads path kept s).clients ≡ s.clients
unfolding keep_threads
clients-keep_threads path [] s = refl
clients-keep_threads path (t ∷ ts) s = refl

-- When each thread's test returns, the size to report can be read and the threads that pass have a
-- buffer, the call succeeds: exactly the threads that pass are sent the size, once for each entry,
-- exactly the others stay in the queue of the path, which is dropped if it is empty, and the queues
-- of the other paths stay.
pub check_and_unlock_lem :
    (env : Env) (path : Text) (test : ℤ → Bool) (v : ℕ) (threads : Assoc ℤ ℕ) (s : Server)
    → find path s.thread_awaiting_data ≡ some threads
    → unlock_value env path ≡ ok v
    → Decided env path s test threads
    → Registered s (woken test threads)
    → (s' : Server) × (check_and_unlock_thread_awaiting_data env path s ≡ ok s')
      × ((t : ℤ)
          → buffer t s' ≡ Option.map (λ buf. buf ++ answers t (woken test threads) v) (buffer t s))
      × ((q : Text)
          → find q s'.thread_awaiting_data ≡ (
              if path == q
              then queue_left (still_waiting test threads)
              else find q s.thread_awaiting_data))
unfolding check_and_unlock_thread_awaiting_data
check_and_unlock_lem env path test v threads s h hv hd hr =
    let answered = with_buffers s (send_all (woken test threads) v s.clients.bufs_response) in
    (
      keep_threads path (still_waiting test threads) answered,
      rw (
        h,
        check_and_unlock_thread_awaiting_data,
        unlock_threads_lem env path test v threads s hv hd hr,
      ),
      λ t.
          rw (clients-keep_threads path (still_waiting test threads) answered)
            (find-send_all t (woken test threads) v s.clients.bufs_response),
      λ q. find-keep_threads path q (still_waiting test threads) threads answered h,
    )
