-- ===== src/Queue/Threads.antt =====
-- The single-producer, single-consumer queue (`SPSCQueue`, whose mutex is NoLock): one thread
-- writes elements while another reads them, and their steps interleave in any order. A thread
-- waits on its semaphore, copies an element, moves its offset and posts the other semaphore.
pub mod Invariant
pub mod Writes
pub mod Reads
pub mod Delivery
use mathlib.Core.Path.{subst}
use native.Mathlib.Nat.{zero-mod, zero-mul}
use capio_v.Prelude.{
  ℕ, zero, suc, ◌+◌, ◌-◌, ◌*◌, ◌%◌, ◌≤◌, ◌<◌, ◌≡◌, refl, sym, ap, ◌∙◌, ◌⊎◌, inl, inr, List, [], ◌∷◌,
  ◌++◌, append-nil, append_assoc, length, length-append, arith,
}
use capio_v.Queue.{Memory, Queue, copy_in, copy_out, advance, new_queue, put, taken_from}
use capio_v.Queue.Slots.{
  slot, slot-advance, slot-in, slot_same, Stored-append, mod-add-ne, Stored, Stored-put,
}

-- where the writer is in `_write`, and what it writes
pub data Writer : Type 0 where
  resting : Writer
  granted copied : List ℕ → Writer
  advanced : Writer

-- where the reader is in `_read`, and what it has copied
pub data Reader : Type 0 where
  resting granted : Reader
  copied : List ℕ → Reader
  advanced : Reader

-- `sent` and `received` are what has been given to `_write`, and what `_read` has delivered
pub record Pair : Type 0 where
  pub queue : Queue
  pub writer : Writer
  pub reader : Reader
  pub sent : List (List ℕ)
  pub received : List (List ℕ)

pub data Step (s : Pair) : Pair → Type 0 where
  waits_empty :
      (x : List ℕ)
      → s.writer ≡ Writer.resting
      → length x ≡ s.queue.elem_size
      → 0 < s.queue.num_empty
      → Step s (record s {
        queue = record s.queue { num_empty = s.queue.num_empty - 1 };
        writer = Writer.granted x;
        sent = s.sent ++ x ∷ [];
      })
  copies_in :
      (x : List ℕ)
      → s.writer ≡ Writer.granted x
      → Step s (record s {
        queue = record s.queue { shm = copy_in s.queue.shm s.queue.last_elem x };
        writer = Writer.copied x;
      })
  moves_last :
      (x : List ℕ)
      → s.writer ≡ Writer.copied x
      → Step s (record s {
        queue = record s.queue { last_elem = advance s.queue s.queue.last_elem };
        writer = Writer.advanced;
      })
  posts_elem :
      s.writer ≡ Writer.advanced
      → Step s (record s {
        queue = record s.queue { num_elems = s.queue.num_elems + 1 };
        writer = Writer.resting;
      })
  waits_elem :
      s.reader ≡ Reader.resting
      → 0 < s.queue.num_elems
      → Step s (record s {
        queue = record s.queue { num_elems = s.queue.num_elems - 1 };
        reader = Reader.granted;
      })
  copies_out :
      s.reader ≡ Reader.granted
      → Step s (record s {
        reader = Reader.copied (copy_out s.queue.shm s.queue.first_elem s.queue.elem_size);
      })
  moves_first :
      (x : List ℕ)
      → s.reader ≡ Reader.copied x
      → Step s (record s {
        queue = record s.queue { first_elem = advance s.queue s.queue.first_elem };
        reader = Reader.advanced;
        received = s.received ++ x ∷ [];
      })
  posts_empty :
      s.reader ≡ Reader.advanced
      → Step s (record s {
        queue = record s.queue { num_empty = s.queue.num_empty + 1 };
        reader = Reader.resting;
      })

-- both threads at rest over a new queue
abbrev pub fresh : Memory → ℕ → ℕ → Pair
fresh m max size = record {
  queue = new_queue m max size;
  writer = Writer.resting;
  reader = Reader.resting;
  sent = [];
  received = [];
}

pub data Reach (m : Memory) (max size : ℕ) : Pair → Type 0 where
  begins : Reach m max size (fresh m max size)
  steps : {s t : Pair} → Reach m max size s → Step s t → Reach m max size t
