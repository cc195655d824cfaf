-- ===== src/Monitor/Woken.antt =====
-- One file in a round of src/server/file-manager/fs_monitor.hpp.
use mathlib.Core.Option
use capio_v.Prelude.{
  ℕ, ◌≡◌, refl, sym, ap, ◌∙◌, Bool, true, false, ◌&&◌, Option, none, some, List, [], ◌∷◌, ◌++◌,
  append-nil, append_assoc, arith, inl, inr, Bool-cases, if◌then◌else◌,
}
use capio_v.Prelude.Int.{ℤ, int_beq}
use capio_v.Prelude.Eq.{Text, text_eq, int_eq, nat_eq, ◌==◌, contains}
use capio_v.Prelude.Assoc.{find, has-find, find-erase}
use capio_v.Prelude.Result.{ok}
use capio_v.Disk.{Env, exists}
use capio_v.FileManager.{Server, awaiting_creation, delete_file_awaiting_creation}
use capio_v.FileManager.Replies.{buffer, Registered, answers, unlock_thread_awaiting_creation_lem}
use capio_v.Monitor.{wake_on_creation}

-- Every thread that waits for a file has a response buffer.
abbrev pub IsRegistered : Server → Type 0
IsRegistered s =
    (path : Text) (tids : List ℤ)
    → find path s.thread_awaiting_file_creation ≡ some tids
    → Registered s tids

-- what the buffer of a thread has behind what was there
pub record Sent (t : ℤ) (more : List ℕ) (s s' : Server) : Type 0 where
  pub appended : buffer t s' ≡ Option.map (λ buf. buf ++ more) (buffer t s)

awaiting-Registered :
    (path : Text) (s : Server) → IsRegistered s → Registered s (awaiting_creation path s)
awaiting-Registered path s r = go (find path s.thread_awaiting_file_creation) (r path)
  where
    go :
        (o : Option (List ℤ))
        → ((tids : List ℤ) → o ≡ some tids → Registered s tids)
        → Registered s (elim o [ none ↦ [] | some tids ↦ tids ])
    go none r = tt
    go (some tids) r = r tids refl

Registered-later :
    (s s' : Server)
    → ((t : ℤ) → (more : List ℕ) × Sent t more s s')
    → (tids : List ℤ) → Registered s tids
    → Registered s' tids
Registered-later s s' grew [] h = tt
Registered-later s s' grew (t ∷ tids) h =
    let (more, sent) = grew t in
    (
      ground (
        arith,
        h.0,
        has-find t s.clients.bufs_response,
        has-find t s'.clients.bufs_response,
        sent.appended,
      ),
      Registered-later s s' grew tids h.1,
    )

contains-answers :
    (t : ℤ) (tids : List ℤ) → contains t tids ≡ true → contains 1 (answers t tids 1) ≡ true
unfolding contains
contains-answers t [] h = absurd (cc)
contains-answers t (tid ∷ tids) h = elim (Bool-cases (int_beq tid t)) [
  | inl same ↦ ground (arith, same)
  | inr other ↦
      ground (arith, h, other, λ (h' : contains t tids ≡ true). contains-answers t tids h')
]

-- What waking the threads of one file does.
pub record Woken (env : Env) (file : Text) (s s' : Server) : Type 0 where
  pub queues :
      (q : Text)
      → find q s'.thread_awaiting_file_creation
        ≡ (if (file == q) && exists env file then none else find q s.thread_awaiting_file_creation)
  pub grew : (t : ℤ) → (more : List ℕ) × Sent t more s s'
  pub answered :
      (t : ℤ) (tids : List ℤ)
      → exists env file ≡ true
      → find file s.thread_awaiting_file_creation ≡ some tids
      → contains t tids ≡ true
      → (more : List ℕ) × Sent t more s s' × (contains 1 more ≡ true)

pub unchanged : (t : ℤ) (s : Server) → Sent t [] s s
unchanged t s = record { appended = go (buffer t s) }
  where
    go : (o : Option (List ℕ)) → o ≡ Option.map (λ buf. buf ++ []) o
    go none = refl
    go (some buf) = ap some (sym (append-nil buf))

pub wake_on_creation-Woken :
    (env : Env) (file : Text) (s : Server)
    → IsRegistered s
    → (s' : Server) × (wake_on_creation env file s ≡ ok s') × Woken env file s s'
unfolding wake_on_creation delete_file_awaiting_creation
wake_on_creation-Woken env file s r = elim (Bool-cases (exists env file)) [
  | inl there ↦
      let (s₁, e, sent, queues, _, _, _, _, _) =
        unlock_thread_awaiting_creation_lem file s (awaiting-Registered file s r) in
      (
        delete_file_awaiting_creation file s₁,
        ground (arith, there, e),
        record {
          queues = λ q.
              ground (arith, there, queues q, find-erase file q s₁.thread_awaiting_file_creation);
          grew = λ t. (answers t (awaiting_creation file s) 1, record { appended = sent t });
          answered = λ t tids _ queued waits. (
            answers t (awaiting_creation file s) 1,
            record { appended = sent t },
            ground (arith, queued, contains-answers t tids waits),
          );
        },
      )
  | inr absent ↦ (
    s,
    ground (arith, absent),
    record {
      queues = λ q. ground (arith, absent);
      grew = λ t. ([], unchanged t s);
      answered = λ t tids there. absurd (ground (arith, there, absent));
    },
  )
]

pub Sent-trans :
    (t : ℤ) (a b : List ℕ) (s s' s'' : Server)
    → Sent t a s s'
    → Sent t b s' s''
    → Sent t (a ++ b) s s''
Sent-trans t a b s s' s'' sa sb = record {
  appended = sb.appended ∙ ap (Option.map (λ buf. buf ++ b)) sa.appended ∙ twice (buffer t s);
}
  where
    twice :
        (o : Option (List ℕ))
        → Option.map (λ buf. buf ++ b) (Option.map (λ buf. buf ++ a) o)
          ≡ Option.map (λ buf. buf ++ (a ++ b)) o
    twice none = refl
    twice (some buf) = ap some (append_assoc buf a b)

pub Woken-IsRegistered :
    (env : Env) (file : Text) (s s' : Server)
    → Woken env file s s'
    → IsRegistered s
    → IsRegistered s'
Woken-IsRegistered env file s s' w r path tids queued =
    Registered-later s s' w.grew tids
      (r path tids (still ((file == path) && exists env file) _ (w.queues path) queued))
  where
    still :
        (b : Bool) (o : Option (List ℤ))
        → find path s'.thread_awaiting_file_creation ≡ (if b then none else o)
        → find path s'.thread_awaiting_file_creation ≡ some tids
        → o ≡ some tids
    still true o e q = absurd (ground (arith, e, q))
    still false o e q = sym e ∙ q
