-- ===== src/Queue/Threads/Reads.antt =====
-- The steps of the reader (`_read` of src/common/capio/queue.hpp) keep the invariant.
use mathlib.Core.Path.{subst}
use capio_v.Prelude.{
  ℕ, suc, ◌+◌, ◌-◌, ◌*◌, ◌%◌, ◌<◌, ◌≡◌, ap, ◌∙◌, List, [], ◌∷◌, ◌++◌, append_assoc, length, arith,
}
use capio_v.Queue.{Queue, copy_out, advance}
use capio_v.Queue.Slots.{Stored}
use capio_v.Queue.Threads.{Reader, Pair}
use capio_v.Queue.Threads.Invariant.{
  in_flight, unposted, held, left_behind, InSlot, IsFirst, Inv, on_advance,
}

pub waits_elem-Inv :
    {s : Pair}
    → Inv s
    → s.reader ≡ Reader.resting
    → 0 < s.queue.num_elems
    → Inv (record s {
      queue = record s.queue { num_elems = s.queue.num_elems - 1 };
      reader = Reader.granted;
    })
waits_elem-Inv {s} inv e some_elem = record {
  slots = inv.slots;
  size = inv.size;
  bytes = inv.bytes;
  taken = inv.taken;
  items = inv.items;
  first = inv.first;
  last = inv.last;
  elems = ground (arith, e, inv.elems);
  empty = ground (arith, e, inv.empty);
  stored = inv.stored;
  in_slot = inv.in_slot;
  is_first = tt;
  history = inv.history;
}

copied-IsFirst :
    (q : Queue) (taken : ℕ) (items : List (List ℕ))
    → 0 < length items
    → q.first_elem ≡ taken % q.max_num_elems * q.elem_size
    → Stored q.shm q.max_num_elems q.elem_size taken items
    → IsFirst (Reader.copied (copy_out q.shm q.first_elem q.elem_size)) items
copied-IsFirst q taken [] some_elem first stored = absurd (omega arith)
copied-IsFirst q taken (y ∷ items) some_elem first stored =
    ap (λ o. copy_out q.shm o q.elem_size) first ∙ stored.0

pub copies_out-Inv :
    {s : Pair}
    → Inv s
    → s.reader ≡ Reader.granted
    → Inv (record s {
      reader = Reader.copied (copy_out s.queue.shm s.queue.first_elem s.queue.elem_size);
    })
copies_out-Inv {s} inv e = record {
  slots = inv.slots;
  size = inv.size;
  bytes = inv.bytes;
  taken = inv.taken;
  items = inv.items;
  first = inv.first;
  last = inv.last;
  elems = ground (arith, e, inv.elems);
  empty = ground (arith, e, inv.empty);
  stored = inv.stored;
  in_slot = inv.in_slot;
  is_first =
      copied-IsFirst s.queue inv.taken inv.items (ground (arith, e, inv.elems)) inv.first
        inv.stored;
  history = inv.history;
}

pub moves_first-Inv :
    {s : Pair} (x : List ℕ)
    → Inv s
    → s.reader ≡ Reader.copied x
    → Inv (record s {
      queue = record s.queue { first_elem = advance s.queue s.queue.first_elem };
      reader = Reader.advanced;
      received = s.received ++ x ∷ [];
    })
moves_first-Inv {s} x inv e =
    go inv.items inv.last (subst (λ r. IsFirst r inv.items) e inv.is_first) inv.elems inv.empty
      inv.stored inv.in_slot inv.history
  where
    q : Queue
    q = s.queue

    shift : (a b : ℕ) → a + suc b ≡ suc a + b
    shift a b = omega arith

    go :
        (items : List (List ℕ))
        → q.last_elem ≡ (inv.taken + length items) % q.max_num_elems * q.elem_size
        → IsFirst (Reader.copied x) items
        → q.num_elems + unposted s.writer + held s.reader ≡ length items
        → q.num_empty + length (in_flight s.writer) + length items + left_behind s.reader
          ≡ q.max_num_elems
        → Stored q.shm q.max_num_elems q.elem_size inv.taken items
        → InSlot q.shm q.max_num_elems q.elem_size (inv.taken + length items) s.writer
        → s.received ++ (items ++ in_flight s.writer) ≡ s.sent
        → Inv (record s {
          queue = record s.queue { first_elem = advance s.queue s.queue.first_elem };
          reader = Reader.advanced;
          received = s.received ++ x ∷ [];
        })
    go [] last is_first elems empty stored in_slot history = absurd is_first
    go (y ∷ items) last is_first elems empty stored in_slot history = record {
      slots = inv.slots;
      size = inv.size;
      bytes = inv.bytes;
      taken = suc inv.taken;
      items = items;
      first = on_advance inv inv.taken q.first_elem inv.first;
      last = last ∙ ap (λ k. k % q.max_num_elems * q.elem_size) (omega arith);
      elems = ground (arith, e, elems);
      empty = ground (arith, e, empty);
      stored = stored.1;
      in_slot =
          subst (λ k. InSlot q.shm q.max_num_elems q.elem_size k s.writer)
            (shift inv.taken (length items)) in_slot;
      is_first = tt;
      history =
          append_assoc s.received (x ∷ []) (items ++ in_flight s.writer)
          ∙ ap (λ a. s.received ++ (a ∷ items ++ in_flight s.writer)) is_first
          ∙ history;
    }

pub posts_empty-Inv :
    {s : Pair}
    → Inv s
    → s.reader ≡ Reader.advanced
    → Inv (record s {
      queue = record s.queue { num_empty = s.queue.num_empty + 1 };
      reader = Reader.resting;
    })
posts_empty-Inv {s} inv e = record {
  slots = inv.slots;
  size = inv.size;
  bytes = inv.bytes;
  taken = inv.taken;
  items = inv.items;
  first = inv.first;
  last = inv.last;
  elems = ground (arith, e, inv.elems);
  empty = ground (arith, e, inv.empty);
  stored = inv.stored;
  in_slot = inv.in_slot;
  is_first = tt;
  history = inv.history;
}
