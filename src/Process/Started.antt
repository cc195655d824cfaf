-- ===== src/Process/Started.antt =====
-- The start of a thread, hook_clone_parent and hook_clone_child of src/posix/utils/clone.hpp.
use mathlib.Core.Path.{subst}
use capio_v.Requests.{exit_group_request}
use capio_v.Process.Ending.{pending, exit-registered, exit-unregistered}
use capio_v.Prelude.{
  ◌≡◌, refl, ap, ◌∙◌, Bool, true, false, some, List, [], ◌∷◌, ◌++◌, Bool-cases, Option-cases, inl,
  inr, if◌then◌else◌, arith,
}
use capio_v.Prelude.Int.{ℤ, pos, int_beq_iff, leb_ℤ}
use capio_v.Prelude.Eq.{Text, int_eq, text_eq, ◌==◌, contains, ==_refl}
use capio_v.FdTable.{init_filesystem}
use capio_v.Snapshot.{Segments, Stale, resume}
use capio_v.Prelude.Result.{ok, >>=-eq-ok, ok_injective}
use capio_v.Prelude.{ℕ, Option}
use capio_v.FdTable.Sets.{contains-insert_fd, contains-erase_fd}
use capio_v.Posix.{Client, request}
use capio_v.Prelude.{All, ◌⊎◌}
use capio_v.FdTable.{Tables}
use capio_v.Posix.{flush_writes, drain}
use capio_v.Process.{
  Action, introduces, registers, notifies, act, act_all, announce_exit, Process, is_capio_tid,
  register_capio_tid, remove_capio_tid, register_listener, get_capio_app_name, handshake,
  init_process, hook_clone_child, hook_clone_parent, exit, init, init_client,
}

-- a process, and for each parent that is in hook_clone_parent what it has still to do
pub record Running : Type 0 where
  pub process : Process
  pub parents : List (List Action)

-- what the threads of a process do, in any order: a parent enters hook_clone_parent or takes its
-- next action there; a thread ends, or sends requests
pub data Move (s : Running) : Running → Type 0 where
  clones : (child pid : ℤ) → Move s (record s { parents = hook_clone_parent child pid ∷ s.parents })
  goes_on :
      (before after : List (List Action)) (a : Action) (actions : List Action)
      → s.parents ≡ before ++ (a ∷ actions) ∷ after
      → Move s (record { process = act a s.process; parents = before ++ actions ∷ after })
  exits : Move s (record s { process = (exit s.process).0 })
  works :
      (c : Client) (sent : List Text)
      → c.listeners ≡ s.process.client.listeners
      → c.requests ≡ s.process.client.requests ++ sent
      → Move s (record s { process = record s.process { client = c } })

-- The thread has a buffer for responses, and its handshake has been sent.
abbrev pub IsIntroduced : ℤ → Process → Type 0
IsIntroduced tid p =
    (contains tid p.client.listeners ≡ true)
    × (pid : ℤ) × (contains (handshake tid pid (get_capio_app_name p.app_name)) p.client.requests
        ≡ true)

-- so has every registered thread
abbrev pub Inv : Process → Type 0
Inv p = (tid : ℤ) → is_capio_tid tid p ≡ true → IsIntroduced tid p

-- moves of the threads of a process that starts, one after another
pub data Reach (p : Process) : Running → Type 0 where
  begins : Reach p (record { process = p; parents = [] })
  moves : {s t : Running} → Reach p s → Move s t → Reach p t

contains_longer :
    (x : Text) (xs ys : List Text) → contains x xs ≡ true → contains x (xs ++ ys) ≡ true
unfolding contains
contains_longer x [] ys h = absurd (cc)
contains_longer x (y ∷ xs) ys h =
    ground (arith, h, λ (h' : contains x xs ≡ true). contains_longer x xs ys h')

contains_last : (x : Text) (xs : List Text) → contains x (xs ++ x ∷ []) ≡ true
unfolding contains
contains_last x [] = ground (arith, ==_refl x)
contains_last x (y ∷ xs) = ground (arith, contains_last x xs)

grown-IsIntroduced :
    (tid : ℤ) (p q : Process) (more : List Text)
    → (contains tid p.client.listeners ≡ true → contains tid q.client.listeners ≡ true)
    → q.app_name ≡ p.app_name
    → q.client.requests ≡ p.client.requests ++ more
    → IsIntroduced tid p
    → IsIntroduced tid q
grown-IsIntroduced tid p q more listening named requests (listens, pid, sent) =
    (listening listens, pid, rw (requests, named) (contains_longer _ p.client.requests more sent))

init_process-IsIntroduced : (tid pid : ℤ) (p : Process) → IsIntroduced tid (init_process tid pid p)
unfolding init_process register_listener request
init_process-IsIntroduced tid pid p = (
  ground (arith, contains-insert_fd tid tid p.client.listeners, int_beq_iff tid tid),
  pid,
  contains_last _ p.client.requests,
)

init_process-keeps :
    (tid child pid : ℤ) (p : Process)
    → IsIntroduced tid p
    → IsIntroduced tid (init_process child pid p)
unfolding init_process register_listener request
init_process-keeps tid child pid p h =
    grown-IsIntroduced tid p (init_process child pid p)
      (handshake child pid (get_capio_app_name p.app_name) ∷ [])
      (λ l. ground (arith, l, contains-insert_fd child tid p.client.listeners)) refl refl h

-- whatever is introduced before stays so
abbrev Keeps : Process → Process → Type 0
Keeps p q = (tid : ℤ) → IsIntroduced tid p → IsIntroduced tid q

register-Inv :
    (child : ℤ) (p : Process) → IsIntroduced child p → Inv p → Inv (register_capio_tid child p)
unfolding register_capio_tid is_capio_tid
register-Inv child p told inv tid h = elim (Bool-cases (child == tid)) [
  | inl same ↦ subst (λ k. IsIntroduced k p) ((int_beq_iff child tid).0 same) told
  | inr other ↦ inv tid (ground (arith, h, other, contains-insert_fd child tid p.tids))
]

init_process-Inv : (child pid : ℤ) (p : Process) → Inv p → Inv (init_process child pid p)
unfolding is_capio_tid init_process register_listener
init_process-Inv child pid p inv tid h = init_process-keeps tid child pid p (inv tid h)

-- Whom a parent has still to register is introduced, or is so by then.
abbrev Ready : Process → List ℤ → List Action → Type 0
Ready p told [] = Unit
Ready p told (introduces tid pid ∷ actions) = Ready p (tid ∷ told) actions
Ready p told (registers tid ∷ actions) =
    (IsIntroduced tid p ⊎ (contains tid told ≡ true)) × Ready p told actions
Ready p told (notifies ∷ actions) = Ready p told actions

Ready-later :
    (p q : Process) (told told' : List ℤ) (actions : List Action)
    → Keeps p q
    → ((tid : ℤ) → contains tid told ≡ true → IsIntroduced tid q ⊎ (contains tid told' ≡ true))
    → Ready p told actions
    → Ready q told' actions
unfolding contains
Ready-later p q told told' [] keeps known h = tt
Ready-later p q told told' (introduces tid pid ∷ actions) keeps known h =
    Ready-later p q (tid ∷ told) (tid ∷ told') actions keeps (λ k e. more k e (tid == k) refl) h
  where
    more :
        (k : ℤ)
        → contains k (tid ∷ told) ≡ true
        → (b : Bool) → (tid == k) ≡ b
        → IsIntroduced k q ⊎ (contains k (tid ∷ told') ≡ true)
    more k e true same = inr (ground (arith, same))
    more k e false other = elim (known k (ground (arith, e, other))) [
      | inl a ↦ inl a
      | inr a ↦ inr (ground (arith, a))
    ]
Ready-later p q told told' (registers tid ∷ actions) keeps known (here, h) = (
  elim here [ inl a ↦ inl (keeps tid a) | inr a ↦ known tid a ],
  Ready-later p q told told' actions keeps known h,
)
Ready-later p q told told' (notifies ∷ actions) keeps known h =
    Ready-later p q told told' actions keeps known h

none_told : {A : Type 0} (tid : ℤ) → contains tid [] ≡ true → A
unfolding contains
none_told tid h = absurd (cc)

Ready-kept :
    (p q : Process) (actions : List Action) → Keeps p q → Ready p [] actions → Ready q [] actions
Ready-kept p q actions keeps h = Ready-later p q [] [] actions keeps (λ tid e. none_told tid e) h

hook_clone_parent-Ready : (child pid : ℤ) (p : Process) → Ready p [] (hook_clone_parent child pid)
unfolding hook_clone_parent contains
hook_clone_parent-Ready child pid p = go (leb_ℤ (pos 0) child)
  where
    listed : contains child (child ∷ []) ≡ true
    listed = ground (arith, ==_refl child)

    go :
        (b : Bool)
        → Ready p [] (if b then introduces child pid ∷ registers child ∷ notifies ∷ [] else [])
    go true = (inr listed, tt)
    go false = tt

register-Keeps : (tid : ℤ) (p : Process) → Keeps p (register_capio_tid tid p)
unfolding register_capio_tid
register-Keeps tid p k h = h

-- Each registered thread is introduced, and each parent is ready.
record Good (s : Running) : Type 0 where
  registered : Inv s.process
  ready : All (Ready s.process []) s.parents

-- the next action of a parent
act-Good :
    (p : Process) (a : Action) (actions : List Action)
    → Inv p
    → Ready p [] (a ∷ actions)
    → Keeps p (act a p) × Inv (act a p) × Ready (act a p) [] actions
unfolding act contains
act-Good p (introduces tid pid) actions inv h =
    let keeps : Keeps p (init_process tid pid p) = λ k. init_process-keeps k tid pid p in
    (
      keeps,
      init_process-Inv tid pid p inv,
      Ready-later p (init_process tid pid p) (tid ∷ []) [] actions keeps (λ k e. inl (is_told k e))
          h,
    )
  where
    is_told : (k : ℤ) → contains k (tid ∷ []) ≡ true → IsIntroduced k (init_process tid pid p)
    is_told k e =
        subst (λ j. IsIntroduced j (init_process tid pid p))
          ((int_beq_iff tid k).0 (ground (arith, e))) (init_process-IsIntroduced tid pid p)
act-Good p (registers tid) actions inv (here, h) =
    let told : IsIntroduced tid p = elim here [ inl a ↦ a | inr a ↦ none_told tid a ] in
    let keeps : Keeps p (register_capio_tid tid p) = register-Keeps tid p in
    (keeps, register-Inv tid p told inv, Ready-kept p (register_capio_tid tid p) actions keeps h)
act-Good p notifies actions inv h = ((λ k e. e), inv, h)

exit-tids : (tid : ℤ) (p : Process) → is_capio_tid tid (exit p).0 ≡ true → is_capio_tid tid p ≡ true
unfolding exit remove_capio_tid is_capio_tid
exit-tids tid p h = ground (arith, h, contains-erase_fd p.client.tid tid p.tids)

exit-listeners : (p : Process) → (exit p).0.client.listeners ≡ p.client.listeners
unfolding exit remove_capio_tid announce_exit request flush_writes drain
exit-listeners p = ground arith

exit-app_name : (p : Process) → (exit p).0.app_name ≡ p.app_name
unfolding exit remove_capio_tid
exit-app_name p = ground arith

exit-requests :
    (p : Process) → (more : List Text) × ((exit p).0.client.requests ≡ p.client.requests ++ more)
exit-requests p = elim (Bool-cases (is_capio_tid p.client.tid p)) [
  | inl registered ↦
      (pending p.client ++ exit_group_request p.client.tid ∷ [], exit-registered p registered)
  | inr unknown ↦ (pending p.client, exit-unregistered p unknown)
]

exit-Keeps : (p : Process) → Keeps p (exit p).0
exit-Keeps p tid h =
    let (more, e) = exit-requests p in
    grown-IsIntroduced tid p (exit p).0 more (λ l. ap (contains tid) (exit-listeners p) ∙ l)
      (exit-app_name p) e h

works-Keeps :
    (p : Process) (c : Client) (sent : List Text)
    → c.listeners ≡ p.client.listeners
    → c.requests ≡ p.client.requests ++ sent
    → Keeps p (record p { client = c })
works-Keeps p c sent same e tid h =
    grown-IsIntroduced tid p (record p { client = c }) sent (λ l. ap (contains tid) same ∙ l) refl e
      h

parents-Ready :
    (p q : Process) (parents : List (List Action))
    → Keeps p q
    → All (Ready p []) parents
    → All (Ready q []) parents
parents-Ready p q [] keeps h = tt
parents-Ready p q (actions ∷ parents) keeps h =
    (Ready-kept p q actions keeps h.0, parents-Ready p q parents keeps h.1)

goes_on-Ready :
    (p q : Process) (before after : List (List Action)) (a : Action) (actions : List Action)
    → Keeps p q
    → (Ready p [] (a ∷ actions) → Ready q [] actions)
    → All (Ready p []) (before ++ (a ∷ actions) ∷ after)
    → All (Ready q []) (before ++ actions ∷ after)
goes_on-Ready p q [] after a actions keeps next h = (next h.0, parents-Ready p q after keeps h.1)
goes_on-Ready p q (b ∷ before) after a actions keeps next h =
    (Ready-kept p q b keeps h.0, goes_on-Ready p q before after a actions keeps next h.1)

next-Ready :
    (p : Process) (before after : List (List Action)) (a : Action) (actions : List Action)
    → All (Ready p []) (before ++ (a ∷ actions) ∷ after)
    → Ready p [] (a ∷ actions)
next-Ready p [] after a actions h = h.0
next-Ready p (b ∷ before) after a actions h = next-Ready p before after a actions h.1

Move-Good : {s t : Running} → Move s t → Good s → Good t
unfolding is_capio_tid
Move-Good {s} (clones child pid) good = record {
  registered = good.registered;
  ready = (hook_clone_parent-Ready child pid s.process, good.ready);
}
Move-Good {s} (goes_on before after a actions e) good =
    let ready = subst (All (Ready s.process [])) e good.ready in
    let here = next-Ready s.process before after a actions ready in
    let (keeps, inv, next) = act-Good s.process a actions good.registered here in
    record {
      registered = inv;
      ready =
          goes_on-Ready s.process (act a s.process) before after a actions keeps (λ h. next) ready;
    }
Move-Good {s} exits good = record {
  registered = λ tid h. exit-Keeps s.process tid (good.registered tid (exit-tids tid s.process h));
  ready = parents-Ready s.process (exit s.process).0 s.parents (exit-Keeps s.process) good.ready;
}
Move-Good {s} (works c sent same e) good =
    let keeps = works-Keeps s.process c sent same e in
    record {
      registered = λ tid h. keeps tid (good.registered tid h);
      ready = parents-Ready s.process (record s.process { client = c }) s.parents keeps good.ready;
    }

Reach-Good : {p : Process} {s : Running} → Inv p → Reach p s → Good s
Reach-Good inv begins = record { registered = inv; ready = tt }
Reach-Good inv (moves r m) = Move-Good m (Reach-Good inv r)

no_threads-Inv : (p : Process) → p.tids ≡ [] → Inv p
unfolding is_capio_tid contains
no_threads-Inv p none_yet tid h = absurd (ground (arith, none_yet, h))

init-Inv :
    (stale : Stale) (tid pid : ℤ) (cwd : Text) (snapshot : Option Segments) (app_name : Option Text)
    (cache_size : ℕ) {p : Process}
    → init stale tid pid cwd snapshot app_name cache_size ≡ ok p
    → Inv p
unfolding init
init-Inv stale tid pid cwd snapshot app_name cache_size e tid' =
    let (tables, e₁, e₂) = >>=-eq-ok (resume stale snapshot (init_filesystem cwd)) _ e in
    subst (λ q. is_capio_tid tid' q ≡ true → IsIntroduced tid' q) (ok_injective _ _ e₂)
      (register-Inv tid (init_process tid pid (begun tables))
        (init_process-IsIntroduced tid pid (begun tables))
        (init_process-Inv tid pid (begun tables) (no_threads-Inv (begun tables) refl)) tid')
  where
    begun : Tables → Process
    begun tables = record {
      client = init_client tid tables cache_size;
      tids = [];
      no_intercept = false;
      app_name = app_name;
      cache_size = cache_size;
    }

registered_starts :
    (tid : ℤ) (p : Process)
    → is_capio_tid tid p ≡ true
    → (c : Client) × (hook_clone_child tid p ≡ some c)
unfolding hook_clone_child
registered_starts tid p h = elim (Option-cases (hook_clone_child tid p)) [
  | inl e ↦ absurd (ground (arith, h, e))
  | inr started ↦ started
]

parent_registers :
    (child pid : ℤ) (p : Process)
    → leb_ℤ (pos 0) child ≡ true
    → is_capio_tid child (act_all (hook_clone_parent child pid) p) ≡ true
unfolding hook_clone_parent act_all act register_capio_tid is_capio_tid
parent_registers child pid p there = rw there (
    ground (
      arith,
      contains-insert_fd child child (init_process child pid p).tids,
      int_beq_iff child child,
    ))

-- A thread runs only after the server has been told of it. From the start of a program, after any
-- actions of its threads in any order, among them the single actions of parents that are in
-- hook_clone_parent: a new thread that starts has a buffer for responses, and its handshake has been
-- sent. A parent that has done all its actions for a child, of an id that is not negative, lets it
-- start.
pub child_starts-IsIntroduced :
    (stale : Stale) (tid pid : ℤ) (cwd : Text) (snapshot : Option Segments) (app_name : Option Text)
    (cache_size : ℕ) {p : Process} {s : Running} (child child_pid : ℤ)
    → init stale tid pid cwd snapshot app_name cache_size ≡ ok p
    → Reach p s
    → ((c : Client) → hook_clone_child child s.process ≡ some c → IsIntroduced child s.process)
      × (leb_ℤ (pos 0) child ≡ true
          → (c : Client) × (hook_clone_child child
                (act_all (hook_clone_parent child child_pid) s.process)
              ≡ some c))
unfolding hook_clone_child
child_starts-IsIntroduced stale tid pid cwd snapshot app_name cache_size {s = s} child child_pid e
      r =
    let good = Reach-Good (init-Inv stale tid pid cwd snapshot app_name cache_size e) r in
    (
      λ c e. good.registered child (ground (arith, e)),
      λ there.
          registered_starts child (act_all (hook_clone_parent child child_pid) s.process)
            (parent_registers child child_pid s.process there),
    )
