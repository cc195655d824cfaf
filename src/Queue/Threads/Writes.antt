-- ===== src/Queue/Threads/Writes.antt =====
-- The steps of the writer (`_write` of src/common/capio/queue.hpp) keep the invariant.
use mathlib.Core.Path.{subst}
use capio_v.Prelude.{
  ℕ, suc, ◌+◌, ◌-◌, ◌*◌, ◌%◌, ◌<◌, ◌≡◌, refl, sym, ap, ◌∙◌, List, [], ◌∷◌, ◌++◌, append-nil,
  append_assoc, length, length-append, arith,
}
use capio_v.Queue.{copy_in, advance}
use capio_v.Queue.Slots.{slot, Stored-append, Stored, Stored-put}
use capio_v.Queue.Threads.{Writer, resting, granted, copied, advanced, Reader, Pair}
use capio_v.Queue.Threads.Invariant.{in_flight, InSlot, IsFirst, Inv, on_advance}

IsFirst-stays :
    (r : Reader) (items : List (List ℕ)) (x : List ℕ)
    → IsFirst r items
    → IsFirst r (items ++ x ∷ [])
IsFirst-stays resting items x h = tt
IsFirst-stays granted items x h = tt
IsFirst-stays (copied y) [] x h = absurd h
IsFirst-stays (copied y) (z ∷ items) x h = h
IsFirst-stays advanced items x h = tt

pub waits_empty-Inv :
    {s : Pair} (x : List ℕ)
    → Inv s
    → s.writer ≡ Writer.resting
    → length x ≡ s.queue.elem_size
    → 0 < s.queue.num_empty
    → Inv (record s {
      queue = record s.queue { num_empty = s.queue.num_empty - 1 };
      writer = Writer.granted x;
      sent = s.sent ++ x ∷ [];
    })
waits_empty-Inv {s} x inv e fits room = record {
  slots = inv.slots;
  size = inv.size;
  bytes = inv.bytes;
  taken = inv.taken;
  items = inv.items;
  first = inv.first;
  last = inv.last;
  elems = ground (arith, e, inv.elems);
  empty = ground (arith, e, inv.empty);
  stored = inv.stored;
  in_slot = fits;
  is_first = inv.is_first;
  history =
      sym (append_assoc s.received inv.items (x ∷ []))
      ∙ ap (λ l. l ++ x ∷ []) (earlier ∙ inv.history);
}
  where
    earlier : s.received ++ inv.items ≡ s.received ++ (inv.items ++ in_flight s.writer)
    earlier =
        ap (λ l. s.received ++ l)
          (sym (append-nil inv.items) ∙ ap (λ w. inv.items ++ in_flight w) (sym e))

pub copies_in-Inv :
    {s : Pair} (x : List ℕ)
    → Inv s
    → s.writer ≡ Writer.granted x
    → Inv (record s {
      queue = record s.queue { shm = copy_in s.queue.shm s.queue.last_elem x };
      writer = Writer.copied x;
    })
copies_in-Inv {s} x inv e = record {
  slots = inv.slots;
  size = inv.size;
  bytes = inv.bytes;
  taken = inv.taken;
  items = inv.items;
  first = inv.first;
  last = inv.last;
  elems = ground (arith, e, inv.elems);
  empty = ground (arith, e, inv.empty);
  stored = filled.0;
  in_slot = (fits, filled.1);
  is_first = inv.is_first;
  history = subst (λ w. s.received ++ (inv.items ++ in_flight w) ≡ s.sent) e inv.history;
}
  where
    fits : length x ≡ s.queue.elem_size
    fits =
        subst
          (InSlot s.queue.shm s.queue.max_num_elems s.queue.elem_size
            (inv.taken + length inv.items))
          e inv.in_slot

    room : length inv.items < s.queue.max_num_elems
    room = ground (arith, e, inv.empty)

    filled :
        Stored
          (copy_in s.queue.shm s.queue.last_elem x)
          s.queue.max_num_elems
          s.queue.elem_size
          inv.taken
          inv.items
        × (slot
              (copy_in s.queue.shm s.queue.last_elem x)
              s.queue.elem_size
              ((inv.taken + length inv.items) % s.queue.max_num_elems)
            ≡ x)
    filled =
        (Stored-append (copy_in s.queue.shm s.queue.last_elem x) s.queue.max_num_elems
            s.queue.elem_size inv.taken inv.items x).0
          (subst
            (λ o.
              Stored (copy_in s.queue.shm o x) s.queue.max_num_elems s.queue.elem_size inv.taken
                (inv.items ++ x ∷ []))
            (sym inv.last)
            (Stored-put s.queue.shm s.queue.max_num_elems s.queue.elem_size inv.taken
              (inv.taken + length inv.items) inv.items x fits room refl inv.stored))

pub moves_last-Inv :
    {s : Pair} (x : List ℕ)
    → Inv s
    → s.writer ≡ Writer.copied x
    → Inv (record s {
      queue = record s.queue { last_elem = advance s.queue s.queue.last_elem };
      writer = Writer.advanced;
    })
moves_last-Inv {s} x inv e = record {
  slots = inv.slots;
  size = inv.size;
  bytes = inv.bytes;
  taken = inv.taken;
  items = inv.items ++ x ∷ [];
  first = inv.first;
  last =
      on_advance inv (inv.taken + length inv.items) s.queue.last_elem inv.last
      ∙ ap (λ k. k % s.queue.max_num_elems * s.queue.elem_size) (omega (arith, longer));
  elems = ground (arith, e, inv.elems, longer);
  empty = ground (arith, e, inv.empty, longer);
  stored =
      (Stored-append s.queue.shm s.queue.max_num_elems s.queue.elem_size inv.taken inv.items x).1 (
        inv.stored,
        (subst
            (InSlot s.queue.shm s.queue.max_num_elems s.queue.elem_size
              (inv.taken + length inv.items))
            e inv.in_slot).1,
      );
  in_slot = tt;
  is_first = IsFirst-stays s.reader inv.items x inv.is_first;
  history =
      ap (λ l. s.received ++ l) (append-nil (inv.items ++ x ∷ []))
      ∙ subst (λ w. s.received ++ (inv.items ++ in_flight w) ≡ s.sent) e inv.history;
}
  where
    longer : length (inv.items ++ x ∷ []) ≡ suc (length inv.items)
    longer = omega (arith, length-append inv.items (x ∷ []))

pub posts_elem-Inv :
    {s : Pair}
    → Inv s
    → s.writer ≡ Writer.advanced
    → Inv (record s {
      queue = record s.queue { num_elems = s.queue.num_elems + 1 };
      writer = Writer.resting;
    })
posts_elem-Inv {s} inv e = record {
  slots = inv.slots;
  size = inv.size;
  bytes = inv.bytes;
  taken = inv.taken;
  items = inv.items;
  first = inv.first;
  last = inv.last;
  elems = ground (arith, e, inv.elems);
  empty = ground (arith, e, inv.empty);
  stored = inv.stored;
  in_slot = tt;
  is_first = inv.is_first;
  history = subst (λ w. s.received ++ (inv.items ++ in_flight w) ≡ s.sent) e inv.history;
}
