-- ===== src/Queue/Early.antt =====
-- `reserve` and `fetch` of src/common/capio/queue.hpp, which hand out the address of an element
-- after they have posted the semaphore of the other side.
use mathlib.Core.Path.{subst}
use native.Mathlib.Nat.{add-mod_right}
use capio_v.Prelude.{ℕ, ◌+◌, ◌-◌, ◌*◌, ◌%◌, ◌≡◌, sym, ap, ◌∙◌, some, List, [], length, arith}
use capio_v.Queue.{
  Queue, copy_in, copy_out, advance, write, read, write_one, read_one, written, put, taken_from,
  reserve, fetch,
}
use capio_v.Queue.Slots.{copy_out-copy_in}
use capio_v.Queue.Fifo.{Holds, write-write_one, read-read_one}

reserved : Queue → Queue
unfolding advance
reserved q = record q {
  last_elem = advance q q.last_elem;
  num_empty = q.num_empty - 1;
  num_elems = q.num_elems + 1;
}

-- An element of an empty buffer that `reserve` has handed out can be read before it is filled:
-- the read does not block, and it returns the bytes that were at that address before.
pub reserved_unfilled :
    (q : Queue)
    → Holds q []
    → (q' : Queue) × (reserve q ≡ some (q.last_elem, q'))
      × (read q.elem_size q' ≡ some (copy_out q.shm q.last_elem q.elem_size, taken_from q'))
unfolding reserve reserved read_one
reserved_unfilled q h = (
  reserved q,
  ground (arith, h.empty, h.slots),
  read-read_one (reserved q) h.size ∙ ground (arith, h.elems, here),
)
  where
    here : copy_out q.shm q.first_elem q.elem_size ≡ copy_out q.shm q.last_elem q.elem_size
    here =
        ap (λ o. copy_out q.shm o q.elem_size)
          (h.first ∙ ap (λ k. k % q.max_num_elems * q.elem_size) (omega arith) ∙ sym h.last)

-- An element of a full buffer that `fetch` has handed out can be overwritten before it is used:
-- a write of an element of the buffer's size does not block, and its bytes are then at that address.
pub fetched_overwritten :
    (q : Queue) (items : List (List ℕ)) (x : List ℕ)
    → Holds q items
    → length items ≡ q.max_num_elems
    → length x ≡ q.elem_size
    → (q' q'' : Queue) × (fetch q ≡ some (q.first_elem, q'))
      × (write x q' ≡ some q'')
      × (copy_out q''.shm q.first_elem q.elem_size ≡ x)
unfolding fetch taken_from write_one written put
fetched_overwritten q items x h full fits = (
  taken_from q,
  written x (taken_from q),
  ground (arith, h.elems, h.slots),
  write-write_one (taken_from q) x h.size fits ∙ ground (arith, h.empty),
  there,
)
  where
    round : q.last_elem ≡ q.first_elem
    round =
        h.last
        ∙ ap (λ k. k * q.elem_size)
            (ap (λ n. (h.taken + n) % q.max_num_elems) full ∙ add-mod_right h.taken q.max_num_elems)
        ∙ sym h.first

    there : copy_out (copy_in q.shm q.last_elem x) q.first_elem q.elem_size ≡ x
    there =
        subst (λ n. copy_out (copy_in q.shm q.last_elem x) q.first_elem n ≡ x) fits
          (subst (λ o. copy_out (copy_in q.shm q.last_elem x) o (length x) ≡ x) round
            (copy_out-copy_in q.shm q.last_elem x))
