-- ===== src/Tests/Queues.antt =====
-- The circular buffer: instances of its theorems on small queues.
use capio_v.Prelude.{ℕ, ◌+◌, ◌*◌, ◌≤◌, ◌≡◌, refl, ◌⊎◌, some, List, [], ◌∷◌, ◌++◌, length, arith}
use capio_v.Queue.{Memory, Queue, new_queue, copy_in, copy_out, advance, put, written, write, fetch}
use capio_v.Queue.Fifo.{
  Op, puts, gets, Holds, new_queue-Holds, written-Holds, run, run_list, run_refines,
}
use capio_v.Queue.Early.{fetched_overwritten}
use capio_v.Queue.Threads.{
  Writer, Reader, Pair, waits_empty, copies_in, moves_last, posts_elem, waits_elem, Reach, begins,
  steps,
}
use capio_v.Queue.Threads.Delivery.{in_order, in_bounds, apart}

abbrev zeros : Memory
zeros a = 0

-- two elements of three bytes
abbrev two : Queue
two = new_queue zeros 2 3

two-Holds : Holds two []
two-Holds = new_queue-Holds zeros 2 3 (omega arith) (omega arith)

abbrev traffic : List Op
traffic =
    puts (1 ∷ 2 ∷ 3 ∷ []) ∷ puts (4 ∷ 5 ∷ 6 ∷ []) ∷ gets ∷ puts (7 ∷ 8 ∷ 9 ∷ []) ∷ gets ∷ gets ∷ []

run_refines_example : run traffic two ≡ run_list two.max_num_elems traffic []
unfolding new_queue
run_refines_example =
    run_refines traffic two [] two-Holds (refl, (refl, (tt, (refl, (tt, (tt, tt))))))

-- one element of three bytes, filled
abbrev one : Queue
one = written (1 ∷ 2 ∷ 3 ∷ []) (new_queue zeros 1 3)

one-Holds : Holds one ((1 ∷ 2 ∷ 3 ∷ []) ∷ [])
unfolding new_queue
one-Holds =
    written-Holds (new_queue zeros 1 3) [] (1 ∷ 2 ∷ 3 ∷ [])
      (new_queue-Holds zeros 1 3 (omega arith) (omega arith)) refl (omega arith)

fetched_overwritten_example :
    (q' q'' : Queue) × (fetch one ≡ some (one.first_elem, q'))
    × (write (7 ∷ 8 ∷ 9 ∷ []) q' ≡ some q'')
    × (copy_out q''.shm one.first_elem one.elem_size ≡ 7 ∷ 8 ∷ 9 ∷ [])
unfolding new_queue written put
fetched_overwritten_example =
    fetched_overwritten one ((1 ∷ 2 ∷ 3 ∷ []) ∷ []) (7 ∷ 8 ∷ 9 ∷ []) one-Holds refl refl

abbrev first : List ℕ
first = 1 ∷ 2 ∷ 3 ∷ []

abbrev second : List ℕ
second = 4 ∷ 5 ∷ 6 ∷ []

-- one element is in the queue and the reader's; the writer has room for the next
abbrev busy_queue : Queue
busy_queue = record two {
  shm = copy_in two.shm two.last_elem first;
  last_elem = advance two two.last_elem;
  num_elems = 0;
  num_empty = 0;
}

abbrev busy : Pair
busy = record {
  queue = busy_queue;
  writer = Writer.granted second;
  reader = Reader.granted;
  sent = first ∷ second ∷ [];
  received = [];
}

busy-Reach : Reach zeros 2 3 busy
unfolding new_queue advance
busy-Reach =
    steps
      (steps
        (steps
          (steps
            (steps (steps begins (waits_empty first refl refl (omega arith)))
              (copies_in first refl))
            (moves_last first refl))
          (posts_elem refl))
        (waits_elem refl (omega arith)))
      (waits_empty second refl refl (omega arith))

in_order_example : (rest : List (List ℕ)) × (busy.received ++ rest ≡ busy.sent) × (length rest ≤ 2)
in_order_example = in_order (omega arith) (omega arith) busy-Reach

in_bounds_example :
    (busy.queue.first_elem + 3 ≤ 2 * 3)
    × (busy.queue.last_elem + 3 ≤ 2 * 3)
    × (busy.queue.num_elems + busy.queue.num_empty ≤ 2)
in_bounds_example = in_bounds (omega arith) (omega arith) busy-Reach

apart_example :
    (busy.queue.first_elem + 3 ≤ busy.queue.last_elem)
    ⊎ (busy.queue.last_elem + 3 ≤ busy.queue.first_elem)
apart_example = apart second (omega arith) (omega arith) busy-Reach refl refl
