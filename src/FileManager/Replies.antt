-- ===== src/FileManager/Replies.antt =====
-- Whom the server answers: reply_to_client of src/server/client-manager/client_manager.hpp in the
-- loops of src/server/file-manager/file_manager_impl.hpp.
use mathlib.Core.Option
use capio_v.Prelude.{
  ℕ, ◌≡◌, refl, ◌∙◌, Bool, true, false, Option, none, some, List, [], ◌∷◌, ◌++◌, append-nil,
  append_assoc, All, arith, inl, inr, Option-cases, if◌then◌else◌,
}
use capio_v.Prelude.Int.{ℤ, int_beq}
use capio_v.Prelude.Eq.{Text, text_eq, int_eq, ◌==◌}
use capio_v.Prelude.Assoc.{Assoc, has-update, find, has, update, has-find, find-update, find-erase}
use capio_v.Prelude.Result.{ok}
use capio_v.Clients.{reply_to_client}
use capio_v.FileManager.{
  Server, reply, reply_all, awaiting_creation, unlock_thread_awaiting_creation,
  delete_file_awaiting_creation,
}

-- the response buffer of a thread
abbrev pub buffer : ℤ → Server → Option (List ℕ)
buffer tid s = find tid s.clients.bufs_response

-- Every thread of the list has a response buffer.
abbrev pub Registered : Server → List ℤ → Type 0
Registered s tids = All (λ tid. has tid s.clients.bufs_response ≡ true) tids

-- what a thread is sent when each thread of the list is sent `v`
abbrev pub answers : ℤ → List ℤ → ℕ → List ℕ
answers t [] v = []
answers t (tid ∷ tids) v = if int_beq tid t then v ∷ answers t tids v else answers t tids v

abbrev pub Buffers : Type 0
Buffers = Assoc ℤ (List ℕ)

-- the buffers after `v` is sent to each thread of a list
unfoldable pub send_all : List ℤ → ℕ → Buffers → Buffers
send_all [] v bufs = bufs
send_all (tid ∷ tids) v bufs = send_all tids v (update tid (λ buf. buf ++ v ∷ []) bufs)

abbrev pub with_buffers : Server → Buffers → Server
with_buffers s bufs = record s { clients = record s.clients { bufs_response = bufs } }

-- One reply is appended to the buffer of its thread, which must be there.
pub reply_lem :
    (tid : ℤ) (v : ℕ) (s : Server)
    → has tid s.clients.bufs_response ≡ true
    → reply tid v s
      ≡ ok (with_buffers s (update tid (λ buf. buf ++ v ∷ []) s.clients.bufs_response))
unfolding reply reply_to_client
reply_lem tid v s h = elim (Option-cases (find tid s.clients.bufs_response)) [
  | inl e ↦ absurd (ground (arith, has-find tid s.clients.bufs_response))
  | inr (b, e) ↦ ground (arith, e)
]

pub Registered-update :
    (s : Server) (tid : ℤ) (f : List ℕ → List ℕ) (tids : List ℤ)
    → Registered s tids
    → Registered (with_buffers s (update tid f s.clients.bufs_response)) tids
Registered-update s tid f [] h = tt
Registered-update s tid f (t ∷ tids) h =
    (has-update tid t f s.clients.bufs_response ∙ h.0, Registered-update s tid f tids h.1)

-- Answering a list of threads that all have a buffer succeeds, and changes only the buffers.
pub reply_all_lem :
    (tids : List ℤ) (v : ℕ) (s : Server)
    → Registered s tids
    → reply_all tids v s ≡ ok (with_buffers s (send_all tids v s.clients.bufs_response))
unfolding reply_all send_all
reply_all_lem [] v s h = refl
reply_all_lem (tid ∷ tids) v s h = rw (reply_lem tid v s h.0) (
    reply_all_lem tids v
      (with_buffers s (update tid (λ buf. buf ++ v ∷ []) s.clients.bufs_response))
      (Registered-update s tid (λ buf. buf ++ v ∷ []) tids h.1))

nothing_more : (o : Option (List ℕ)) → o ≡ Option.map (λ buf. buf ++ []) o
nothing_more none = refl
nothing_more (some buf) = rw (append-nil buf)

one_more :
    (b : Bool) (v : ℕ) (more : List ℕ) (o : Option (List ℕ))
    → Option.map (λ buf. buf ++ more) (if b then Option.map (λ buf. buf ++ v ∷ []) o else o)
      ≡ Option.map (λ buf. buf ++ (if b then v ∷ more else more)) o
one_more true v more none = refl
one_more true v more (some buf) = rw (append_assoc buf (v ∷ []) more)
one_more false v more o = refl

-- Each thread finds in its buffer, behind what was there, one value for each time it is listed.
pub find-send_all :
    (t : ℤ) (tids : List ℤ) (v : ℕ) (bufs : Buffers)
    → find t (send_all tids v bufs) ≡ Option.map (λ buf. buf ++ answers t tids v) (find t bufs)
unfolding send_all
find-send_all t [] v bufs = nothing_more (find t bufs)
find-send_all t (tid ∷ tids) v bufs =
    find-send_all t tids v (update tid (λ buf. buf ++ v ∷ []) bufs)
    ∙ rw (find-update tid t (λ buf. buf ++ v ∷ []) bufs)
        (one_more (int_beq tid t) v (answers t tids v) (find t bufs))

-- When all threads that await the creation of a path have a buffer, each of them is sent a 1 for
-- each time it is queued, nobody else is sent anything, and the path has no queue any more; the
-- queues of the other paths, the table, the tokens, the threads that await data, the names of the
-- applications and the lists of produced files stay.
pub unlock_thread_awaiting_creation_lem :
    (path : Text) (s : Server)
    → Registered s (awaiting_creation path s)
    → (s' : Server) × (unlock_thread_awaiting_creation path s ≡ ok s')
      × ((t : ℤ)
          → buffer t s'
            ≡ Option.map (λ buf. buf ++ answers t (awaiting_creation path s) 1) (buffer t s))
      × ((q : Text)
          → find q s'.thread_awaiting_file_creation
            ≡ (if path == q then none else find q s.thread_awaiting_file_creation))
      × (s'.locations ≡ s.locations)
      × (s'.tokens ≡ s.tokens)
      × (s'.thread_awaiting_data ≡ s.thread_awaiting_data)
      × (s'.clients.app_names ≡ s.clients.app_names)
      × (s'.clients.files_to_be_committed_by_tid ≡ s.clients.files_to_be_committed_by_tid)
unfolding unlock_thread_awaiting_creation
unlock_thread_awaiting_creation_lem path s h = (
  delete_file_awaiting_creation path
      (with_buffers s (send_all (awaiting_creation path s) 1 s.clients.bufs_response)),
  rw (reply_all_lem (awaiting_creation path s) 1 s h),
  λ t. find-send_all t (awaiting_creation path s) 1 s.clients.bufs_response,
  λ q. find-erase path q s.thread_awaiting_file_creation,
  refl,
  refl,
  refl,
  refl,
  refl,
)
