-- ===== src/Queue/Threads/Delivery.antt =====
-- What a reader and a writer of src/common/capio/queue.hpp that share no lock can rely on.
use mathlib.Core.Path.{subst}
use capio_v.Prelude.{
  ℕ, ◌+◌, ◌*◌, ◌%◌, ◌≤◌, ◌<◌, ◌≡◌, refl, sym, ap, ◌∙◌, ◌⊎◌, inl, inr, List, ◌++◌, length,
  length-append, arith,
}
use capio_v.Queue.{Memory, new_queue}
use capio_v.Queue.Slots.{slot-in, mod-add-ne}
use capio_v.Queue.Threads.{
  Writer, Reader, Pair, Step, waits_empty, copies_in, moves_last, posts_elem, waits_elem,
  copies_out, moves_first, posts_empty, Reach, begins, steps,
}
use capio_v.Queue.Threads.Invariant.{in_flight, Inv, fresh-Inv}
use capio_v.Queue.Threads.Writes.{waits_empty-Inv, copies_in-Inv, moves_last-Inv, posts_elem-Inv}
use capio_v.Queue.Threads.Reads.{waits_elem-Inv, copies_out-Inv, moves_first-Inv, posts_empty-Inv}
use capio_v.Queue.Slots.{slots_apart, mod-add-ne, slot-in}
use capio_v.Queue.{new_queue}

Step-Inv : {s t : Pair} → Step s t → Inv s → Inv t
Step-Inv (waits_empty x e fits room) inv = waits_empty-Inv x inv e fits room
Step-Inv (copies_in x e) inv = copies_in-Inv x inv e
Step-Inv (moves_last x e) inv = moves_last-Inv x inv e
Step-Inv (posts_elem e) inv = posts_elem-Inv inv e
Step-Inv (waits_elem e some_elem) inv = waits_elem-Inv inv e some_elem
Step-Inv (copies_out e) inv = copies_out-Inv inv e
Step-Inv (moves_first x e) inv = moves_first-Inv x inv e
Step-Inv (posts_empty e) inv = posts_empty-Inv inv e

Reach-Inv : {m : Memory} {max size : ℕ} {s : Pair} → 0 < max → 0 < size → Reach m max size s → Inv s
Reach-Inv {m} {max} {size} hm hs begins = fresh-Inv m max size hm hs
Reach-Inv hm hs (steps r st) = Step-Inv st (Reach-Inv hm hs r)

abbrev SameSizes : Pair → Pair → Type 0
SameSizes s t =
    (t.queue.max_num_elems ≡ s.queue.max_num_elems) × (t.queue.elem_size ≡ s.queue.elem_size)

Step-SameSizes : {s t : Pair} → Step s t → SameSizes s t
Step-SameSizes (waits_empty x e fits room) = (refl, refl)
Step-SameSizes (copies_in x e) = (refl, refl)
Step-SameSizes (moves_last x e) = (refl, refl)
Step-SameSizes (posts_elem e) = (refl, refl)
Step-SameSizes (waits_elem e some_elem) = (refl, refl)
Step-SameSizes (copies_out e) = (refl, refl)
Step-SameSizes (moves_first x e) = (refl, refl)
Step-SameSizes (posts_empty e) = (refl, refl)

Reach-sizes :
    {m : Memory} {max size : ℕ} {s : Pair}
    → Reach m max size s
    → (s.queue.max_num_elems ≡ max) × (s.queue.elem_size ≡ size)
unfolding new_queue
Reach-sizes begins = (refl, refl)
Reach-sizes (steps r st) =
    let (a, b) = Step-SameSizes st in let (c, d) = Reach-sizes r in (a ∙ c, b ∙ d)

-- A writer and a reader that share no lock lose, double and reorder nothing. From a new queue of
-- `max` elements (at least one, of at least one byte), after any steps of the two: what has been
-- received, then at most `max` elements, make up what has been sent.
pub in_order :
    {m : Memory} {max size : ℕ} {s : Pair}
    → 0 < max
    → 0 < size
    → Reach m max size s
    → (rest : List (List ℕ)) × (s.received ++ rest ≡ s.sent) × (length rest ≤ max)
in_order {s = s} hm hs r =
    let inv = Reach-Inv hm hs r in
    let same = Reach-sizes r in
    (
      inv.items ++ in_flight s.writer,
      inv.history,
      omega (arith, inv.empty, same.0, length-append inv.items (in_flight s.writer)),
    )

-- From a new queue of `max` elements of `size` bytes (at least one of each), after any steps of
-- the two threads, an element at either offset lies within the max * size bytes of the buffer,
-- and the counts of the semaphores together are at most `max`.
pub in_bounds :
    {m : Memory} {max size : ℕ} {s : Pair}
    → 0 < max
    → 0 < size
    → Reach m max size s
    → (s.queue.first_elem + size ≤ max * size)
      × (s.queue.last_elem + size ≤ max * size)
      × (s.queue.num_elems + s.queue.num_empty ≤ max)
in_bounds {max = max} {size = size} {s = s} hm hs r =
    let inv = Reach-Inv hm hs r in
    let (same_max, same_size) = Reach-sizes r in
    (
      inside inv.taken s.queue.first_elem same_max same_size inv.first,
      inside (inv.taken + length inv.items) s.queue.last_elem same_max same_size inv.last,
      omega (arith, inv.elems, inv.empty, same_max),
    )
  where
    inside :
        (k offset : ℕ)
        → s.queue.max_num_elems ≡ max
        → s.queue.elem_size ≡ size
        → offset ≡ k % s.queue.max_num_elems * s.queue.elem_size
        → offset + size ≤ max * size
    inside k offset a b e =
        subst (λ o. o + size ≤ max * size)
          (ap (λ n. k % n * size) (sym a) ∙ ap (λ n. k % s.queue.max_num_elems * n) (sym b) ∙ sym e)
          (slot-in max size k hm)

-- From a new queue (of at least one element, of at least one byte), after any steps of the two
-- threads: where the writer may copy an element in while the reader has one to copy out, the two
-- elements do not overlap.
pub apart :
    {m : Memory} {max size : ℕ} {s : Pair} (x : List ℕ)
    → 0 < max
    → 0 < size
    → Reach m max size s
    → s.writer ≡ Writer.granted x
    → s.reader ≡ Reader.granted
    → (s.queue.first_elem + size ≤ s.queue.last_elem)
      ⊎ (s.queue.last_elem + size ≤ s.queue.first_elem)
apart {size = size} {s = s} x hm hs r ew er =
    let inv = Reach-Inv hm hs r in
    let (same_max, same_size) = Reach-sizes r in
    let k = inv.taken in
    let max = s.queue.max_num_elems in
    let e = s.queue.elem_size in
    let differ =
      mod-add-ne max k (length inv.items) (ground (arith, er, inv.elems))
        (ground (arith, ew, inv.empty)) in
    elim (slots_apart (k % max) ((k + length inv.items) % max) e differ) [
      | inl p ↦ inr (omega (arith, p, inv.first, inv.last, same_size))
      | inr p ↦ inl (omega (arith, p, inv.first, inv.last, same_size))
    ]
