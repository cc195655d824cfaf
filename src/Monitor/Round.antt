-- ===== src/Monitor/Round.antt =====
-- Whom a round of the loop of src/server/file-manager/fs_monitor.hpp wakes.
use mathlib.Core.Option
use capio_v.Prelude.{
  ℕ, ◌≡◌, refl, ap, ◌∙◌, true, ◌&&◌, none, some, List, [], ◌∷◌, ◌++◌, arith, inl, inr, Bool-cases,
  if◌then◌else◌,
}
use capio_v.Prelude.Int.{ℤ}
use capio_v.Prelude.Eq.{
  Text, text_eq, text_beq_iff, int_eq, nat_eq, ◌==◌, contains, contains-append,
}
use capio_v.Prelude.Assoc.{Assoc, find, has, keys, has-find}
use capio_v.Prelude.Result.{ok}
use capio_v.Disk.{Env, exists}
use capio_v.FileManager.{Server, get_file_awaiting_creation}
use capio_v.FileManager.Replies.{buffer}
use capio_v.Monitor.{wake_all_on_creation}
use capio_v.Monitor.Woken.{
  IsRegistered, Sent, Woken, unchanged, wake_on_creation-Woken, Sent-trans, Woken-IsRegistered,
}

-- What a round's first loop does to the queues and the buffers.
record Done (env : Env) (files : List Text) (s s' : Server) : Type 0 where
  queues_done :
      (q : Text)
      → find q s'.thread_awaiting_file_creation ≡ (
          if contains q files && exists env q then none else find q s.thread_awaiting_file_creation)
  grew_done : (t : ℤ) → (more : List ℕ) × Sent t more s s'
  answered_done :
      (t : ℤ) (q : Text) (tids : List ℤ)
      → contains q files ≡ true
      → exists env q ≡ true
      → find q s.thread_awaiting_file_creation ≡ some tids
      → contains t tids ≡ true
      → (more : List ℕ) × Sent t more s s' × (contains 1 more ≡ true)

cons-Done :
    (env : Env) (file : Text) (files : List Text) (s s₁ s' : Server)
    → Woken env file s s₁
    → Done env files s₁ s'
    → Done env (file ∷ files) s s'
unfolding contains
cons-Done env file files s s₁ s' w d = record {
  queues_done = λ q. elim (Bool-cases (file == q)) [
    | inl same ↦
        ground
          (arith, same, w.queues q, d.queues_done q, ap (exists env) ((text_beq_iff file q).0 same))
    | inr other ↦ ground (arith, other, w.queues q, d.queues_done q)
  ];
  grew_done = λ t.
      let (a, sa) = w.grew t in
      let (b, sb) = d.grew_done t in (a ++ b, Sent-trans t a b s s₁ s' sa sb);
  answered_done = λ t q tids listed there queued waits. elim (Bool-cases (file == q)) [
    | inl same ↦
        let e = (text_beq_iff file q).0 same in
        let (a, sa, ca) =
          w.answered t tids (ap (exists env) e ∙ there)
            (ap (λ p. find p s.thread_awaiting_file_creation) e ∙ queued) waits in
        let (b, sb) = d.grew_done t in
        (a ++ b, Sent-trans t a b s s₁ s' sa sb, ground (arith, ca, contains-append 1 a b))
    | inr other ↦
        let (a, sa) = w.grew t in
        let (b, sb, cb) =
          d.answered_done t q tids (ground (arith, listed, other)) there
            (ground (arith, queued, other, w.queues q)) waits in
        (a ++ b, Sent-trans t a b s s₁ s' sa sb, ground (arith, cb, contains-append 1 a b))
  ];
}

nil-Done : (env : Env) (s : Server) → Done env [] s s
unfolding contains
nil-Done env s = record {
  queues_done = λ q. ground arith;
  grew_done = λ t. ([], unchanged t s);
  answered_done = λ t q tids listed. absurd (cc);
}

wake_all-Done :
    (env : Env) (files : List Text) (s : Server)
    → IsRegistered s
    → (s' : Server) × (wake_all_on_creation env files s ≡ ok s') × Done env files s s'
unfolding wake_all_on_creation
wake_all-Done env [] s r = (s, refl, nil-Done env s)
wake_all-Done env (file ∷ files) s r =
    let (s₁, e, w) = wake_on_creation-Woken env file s r in
    let (s', e', d) = wake_all-Done env files s₁ (Woken-IsRegistered env file s s₁ w r) in
    (s', rw e e', cons-Done env file files s s₁ s' w d)

contains-keys : (path : Text) (m : Assoc Text (List ℤ)) → contains path (keys m) ≡ has path m
unfolding contains has
contains-keys path [] = refl
contains-keys path ((q, tids) ∷ m) = ground (arith, contains-keys path m)

-- A file that appears wakes all who wait for it. If every waiting thread has a response buffer, the
-- first loop of a round of the monitor ends without an exception; after it the queues of exactly
-- the files that exist are gone; every thread that was in the queue of such a file has been sent a
-- 1, and every buffer still begins with what it had.
pub round_wakes :
    (env : Env) (s : Server)
    → IsRegistered s
    → (s' : Server) × (wake_all_on_creation env (get_file_awaiting_creation s) s ≡ ok s')
      × ((q : Text)
          → find q s'.thread_awaiting_file_creation
            ≡ (if exists env q then none else find q s.thread_awaiting_file_creation))
      × ((t : ℤ) (q : Text) (tids : List ℤ)
          → exists env q ≡ true
          → find q s.thread_awaiting_file_creation ≡ some tids
          → contains t tids ≡ true
          → (more : List ℕ) × (buffer t s' ≡ Option.map (λ buf. buf ++ more) (buffer t s))
            × (contains 1 more ≡ true))
      × ((t : ℤ) → (more : List ℕ) × (buffer t s' ≡ Option.map (λ buf. buf ++ more) (buffer t s)))
unfolding get_file_awaiting_creation
round_wakes env s r =
    let queue = s.thread_awaiting_file_creation in
    let (s', e, d) = wake_all-Done env (keys queue) s r in
    (
      s',
      e,
      λ q. ground (arith, d.queues_done q, contains-keys q queue, has-find q queue),
      λ t q tids there queued waits.
          let (more, sent, c) =
            d.answered_done t q tids
              (ground (arith, contains-keys q queue, has-find q queue, queued)) there queued
              waits in
          (more, sent.appended, c),
      λ t. let (more, sent) = d.grew_done t in (more, sent.appended),
    )
