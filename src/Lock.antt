-- ===== src/Lock.antt =====
-- DistributedSemaphore of src/server/utils/distributed_semaphore.hpp: a lock between servers on
-- different nodes, held by whoever has created the lock file. open with O_EXCL and O_CREAT creates
-- the file, and fails if it is there, as one step, as POSIX says.
pub mod Exclusion
use capio_v.Prelude.{ℕ, ◌≡◌, ◌≢◌, Bool, Option, none, some, List, [], ◌++◌, nat_beq, if◌then◌else◌}
use capio_v.Prelude.Eq.{Text}

-- where a server is: outside, in the loop of `lock`, with the file open, with the lock, or gone
-- because its name could not be written
pub data Pc : Type 0 where
  outside spinning opened locked stopped : Pc

-- the lock file with what is written in it, none: it is not there; and the servers
pub record System : Type 0 where
  pub file : Option Text
  pub pc : ℕ → Pc

abbrev pub move_to : ℕ → Pc → (ℕ → Pc) → ℕ → Pc
move_to i p pc j = if nat_beq i j then p else pc j

pub data Step (s : System) : System → Type 0 where
  constructs : (i : ℕ) → s.pc i ≡ Pc.outside → Step s (record s { pc = move_to i Pc.spinning s.pc })
  fails_to_open : (i : ℕ) (text : Text) → s.pc i ≡ Pc.spinning → s.file ≡ some text → Step s s
  opens :
      (i : ℕ)
      → s.pc i ≡ Pc.spinning
      → s.file ≡ none
      → Step s (record { file = some []; pc = move_to i Pc.opened s.pc })
  writes_name :
      (i : ℕ) (node_name : Text)
      → s.pc i ≡ Pc.opened
      → Step s (record { file = some node_name; pc = move_to i Pc.locked s.pc })
  fails_to_write :
      (i : ℕ) → s.pc i ≡ Pc.opened → Step s (record s { pc = move_to i Pc.stopped s.pc })
  unlocks :
      (i : ℕ) → s.pc i ≡ Pc.locked → Step s (record { file = none; pc = move_to i Pc.outside s.pc })

abbrev pub nobody : System
nobody = record { file = none; pc = λ i. Pc.outside }

pub data Reach : System → Type 0 where
  begins : Reach nobody
  steps : {s t : System} → Reach s → Step s t → Reach t
