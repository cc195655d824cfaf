-- ===== src/Handlers/Runs.antt =====
-- Invariants of the request loop of src/server/client-manager/request_handler_engine.hpp.
use mathlib.Core.Path.{subst}
use capio_v.Prelude.{
  ℕ, ◌+◌, ◌≤◌, ◌≡◌, refl, true, some, List, [], ◌∷◌, ◌++◌, append-nil, append_assoc, arith, inl,
  inr, Bool-cases, Option-cases,
}
use capio_v.Prelude.Int.{ℤ}
use capio_v.Prelude.Eq.{Eq, Text, text_eq, int_eq, ◌==◌, text_beq_iff}
use capio_v.Prelude.Assoc.{
  Assoc, find, has, emplace, update, has-find, find-emplace, find-update, find-erase,
}
use capio_v.Prelude.Result.{ok}
use capio_v.Disk.{Env}
use capio_v.Clients.{
  ClientManager, register_new_client, remove_client, reply_to_client, get_produced_files,
  no_clients,
}
use capio_v.Engine.{Location, Locations, add_producer, strip_spaces}
use capio_v.Engine.Producers.{find-add_producer_eq, find-add_producer_ne}
use capio_v.FileManager.{Server, reply, set_committed_by, set_committed_files}
use capio_v.FileManager.Replies.{Buffers, with_buffers}
use capio_v.Handlers.{start, on_exit}
use capio_v.Handlers.Keeps.{Stable}
use capio_v.Handlers.Invariants.{start-keeps}

-- A reply changes only the buffers.
reply-buffers :
    (tid : ℤ) (v : ℕ) (s s' : Server)
    → reply tid v s ≡ ok s'
    → (bufs : Buffers) × (with_buffers s bufs ≡ s')
unfolding reply reply_to_client
reply-buffers tid v s s' e = elim (Option-cases (find tid s.clients.bufs_response)) [
  | inl h ↦ absurd (ground (arith, h))
  | inr (b, h) ↦ (update tid (λ buf. buf ++ v ∷ []) s.clients.bufs_response, ground (arith, h))
]

-- An entry that is there stays.
find-emplace_keeps :
    {K V : Type 0} ⦃e : Eq K⦄ (k j : K) (v w : V) (m : Assoc K V)
    → find j m ≡ some w
    → find j (emplace k v m) ≡ some w
find-emplace_keeps ⦃e = e⦄ k j v w m h =
    ground (arith, find-emplace k j v m, has-find k m, e.beq_iff k j)

Named : ℤ → Text → Server → Type 0
Named tid name s = find tid s.clients.app_names ≡ some name

Named-Stable : (tid : ℤ) (name : Text) → Stable (Named tid name)
unfolding Named register_new_client remove_client
Named-Stable tid name = record {
  replied = λ t v s s' e h. subst (Named tid name) (reply-buffers t v s s' e).1 h;
  located = λ path n s l e h. h;
  queued = λ s creation waiting h. h;
  token_made = λ n s h. h;
  token_raised = λ n s h. h;
  registered = λ t n s h. find-emplace_keeps t tid n name s.clients.app_names h;
  removed = λ t s h. h;
}

-- The name a thread has first shaken hands with is its name for the rest of the run: neither its
-- exit nor a second handshake changes it.
pub start-app_names :
    (tid : ℤ) (name : Text) (requests : List (Env × Text)) (s s' : Server)
    → find tid s.clients.app_names ≡ some name
    → start requests s ≡ ok s'
    → find tid s'.clients.app_names ≡ some name
unfolding Named
start-app_names tid name requests s s' h e =
    start-keeps (Named tid name) (Named-Stable tid name) requests s h s' e

Counted : Text → ℕ → Server → Type 0
Counted file n s = (m : ℕ) × (find file s.tokens ≡ some m) × (n ≤ m)

raised :
    (file name : Text) (n : ℕ) (s : Server)
    → Counted file n s
    → Counted file n (record s { tokens = update name (λ close_count. close_count + 1) s.tokens })
unfolding Counted
raised file name n s (m, h, le) = elim (Bool-cases (name == file)) [
  | inl y ↦ (
    m + 1,
    ground (arith, find-update name file (λ close_count. close_count + 1) s.tokens),
    omega arith,
  )
  | inr other ↦
      (m, ground (arith, find-update name file (λ close_count. close_count + 1) s.tokens), le)
]

Counted-Stable : (file : Text) (n : ℕ) → Stable (Counted file n)
unfolding Counted
Counted-Stable file n = record {
  replied = λ t v s s' e h. subst (Counted file n) (reply-buffers t v s s' e).1 h;
  located = λ path name s l e h. h;
  queued = λ s creation waiting h. h;
  token_made = λ name s h. (h.0, find-emplace_keeps name file 0 h.0 s.tokens h.1, h.2);
  token_raised = λ name s h. raised file name n s h;
  registered = λ t name s h. h;
  removed = λ t s h. h;
}

-- A commit token that exists is there after any run, and its close counter has not decreased.
pub start-tokens :
    (file : Text) (n : ℕ) (requests : List (Env × Text)) (s s' : Server)
    → find file s.tokens ≡ some n
    → start requests s ≡ ok s'
    → (m : ℕ) × (find file s'.tokens ≡ some m) × (n ≤ m)
unfolding Counted
start-tokens file n requests s s' h e =
    start-keeps (Counted file n) (Counted-Stable file n) requests s (n, h, omega arith) s' e

Ruled : Text → Location → Server → Type 0
Ruled path f s =
    (more : List Text) × (find path s.locations
      ≡ some (record f { producers = f.producers ++ more }))

located-same :
    (q name : Text) (f : Location) (more : List Text) (s : Server) (l : Locations)
    → add_producer q name s.locations ≡ ok l
    → find q s.locations ≡ some (record f { producers = f.producers ++ more })
    → find q l ≡ some (record f { producers = (f.producers ++ more) ++ strip_spaces name ∷ [] })
located-same q name f more s l e h = find-add_producer_eq q name s.locations e h

located-again :
    (path name : Text) (q : Text) (f : Location) (s : Server) (l : Locations)
    → add_producer path name s.locations ≡ ok l
    → Ruled q f s
    → Ruled q f (record s { locations = l })
unfolding Ruled
located-again path name q f s l e (more, h) = elim (Bool-cases (path == q)) [
  | inl y ↦ (
    more ++ strip_spaces name ∷ [],
    subst (λ ps. find q l ≡ some (record f { producers = ps }))
        (append_assoc f.producers more (strip_spaces name ∷ []))
        (located-same q name f more s l
          (subst (λ p. add_producer p name s.locations ≡ ok l) ((text_beq_iff path q).0 y) e) h),
  )
  | inr other ↦ (
    more,
    find-add_producer_ne path q name s.locations e
        (λ same. absurd (ground (arith, text_beq_iff path q))) h,
  )
]

Ruled-Stable : (path : Text) (f : Location) → Stable (Ruled path f)
unfolding Ruled
Ruled-Stable path f = record {
  replied = λ t v s s' e h. subst (Ruled path f) (reply-buffers t v s s' e).1 h;
  located = λ p name s l e h. located-again p name path f s l e h;
  queued = λ s creation waiting h. h;
  token_made = λ name s h. h;
  token_raised = λ name s h. h;
  registered = λ t name s h. h;
  removed = λ t s h. h;
}

-- The entry of a path in the table of locations is there after any run with the same rules, flags,
-- counts and dependencies; its producers are those it had, with further ones behind them.
pub start-locations :
    (path : Text) (f : Location) (requests : List (Env × Text)) (s s' : Server)
    → find path s.locations ≡ some f
    → start requests s ≡ ok s'
    → (more : List Text) × (find path s'.locations
        ≡ some (record f { producers = f.producers ++ more }))
unfolding Ruled
start-locations path f requests s s' h e =
    start-keeps (Ruled path f) (Ruled-Stable path f) requests s ([], rw (append-nil f.producers) h)
      s' e

-- No produced file is noted for any thread.
NothingProduced : Server → Type 0
NothingProduced s =
    (tid : ℤ) (files : List Text)
    → find tid s.clients.files_to_be_committed_by_tid ≡ some files
    → files ≡ []

NothingProduced-Stable : Stable NothingProduced
unfolding NothingProduced register_new_client remove_client
NothingProduced-Stable = record {
  replied = λ t v s s' e h. subst NothingProduced (reply-buffers t v s s' e).1 h;
  located = λ p name s l e h. h;
  queued = λ s creation waiting h. h;
  token_made = λ name s h. h;
  token_raised = λ name s h. h;
  registered = λ t name s h tid files there.
      ground (arith, find-emplace t tid [] s.clients.files_to_be_committed_by_tid, h tid files);
  removed = λ t s h tid files there.
      ground (arith, find-erase t tid s.clients.files_to_be_committed_by_tid, h tid files);
}

no_files :
    (c : ClientManager) (t : ℤ) (fs : List Text)
    → c ≡ no_clients
    → find t c.files_to_be_committed_by_tid ≡ some fs
    → ⊥
unfolding find
no_files c t fs fresh found =
    let e = subst (λ k. find t k.files_to_be_committed_by_tid ≡ some fs) fresh found in cc

-- In any run from a server without clients, the exit request of a thread that has shaken hands
-- commits nothing: no token is made, nobody is answered, and only the thread's own entries go.
pub exit_commits_nothing :
    (env : Env) (tid : ℤ) (requests : List (Env × Text)) (s s' : Server)
    → s.clients ≡ no_clients
    → start requests s ≡ ok s'
    → has tid s'.clients.files_to_be_committed_by_tid ≡ true
    → on_exit env tid s' ≡ ok (record s' { clients = remove_client tid s'.clients })
unfolding NothingProduced on_exit set_committed_by get_produced_files set_committed_files
exit_commits_nothing env tid requests s s' fresh e there =
    elim (Option-cases (find tid s'.clients.files_to_be_committed_by_tid)) [
      | inl gone ↦ absurd (ground (arith, has-find tid s'.clients.files_to_be_committed_by_tid))
      | inr (files, h) ↦
          let empty =
            start-keeps NothingProduced NothingProduced-Stable requests s
              (λ t fs found. absurd (no_files s.clients t fs fresh found)) s' e tid files h in
          rw (h, empty) refl
    ]
