-- ===== src/Queue.antt =====
-- src/common/capio/queue.hpp: the circular buffer in shared memory through which client and server
-- exchange requests. Shared memory is a function from addresses to bytes; the offsets of the
-- first and the last element are in bytes. A semaphore is its count; a wait on a count of 0
-- blocks, and an operation that blocks gives none.
pub mod Slots
pub mod Fifo
pub mod Threads
pub mod Early
use capio_v.Prelude.{
  ℕ, zero, suc, ◌+◌, ◌-◌, ◌*◌, ◌/◌, ◌%◌, Bool, ◌&&◌, nat_beq, ltb, leb, Option, none, some, List,
  [], ◌∷◌, ◌++◌, if◌then◌else◌, length, take, drop, get_or,
}

abbrev pub Memory : Type 0
Memory = ℕ → ℕ

pub record Queue : Type 0 where
  pub shm : Memory
  pub max_num_elems : ℕ
  pub elem_size : ℕ
  pub buff_size : ℕ
  pub first_elem : ℕ
  pub last_elem : ℕ
  pub num_elems : ℕ
  pub num_empty : ℕ

-- memcpy of `text` to the address `at_byte`
unfoldable pub copy_in : Memory → ℕ → List ℕ → Memory
copy_in m at_byte text a =
    if leb at_byte a && ltb a (at_byte + length text) then get_or text (a - at_byte) 0 else m a

-- memcpy of `n` bytes from the address `at_byte`
unfoldable pub copy_out : Memory → ℕ → ℕ → List ℕ
copy_out m at_byte zero = []
copy_out m at_byte (suc n) = m at_byte ∷ copy_out m (suc at_byte) n

-- the constructor, where the segment of that name is not there yet
unfoldable pub new_queue : Memory → ℕ → ℕ → Queue
new_queue m max_num_elems elem_size = record {
  shm = m;
  max_num_elems = max_num_elems;
  elem_size = elem_size;
  buff_size = max_num_elems * elem_size;
  first_elem = 0;
  last_elem = 0;
  num_elems = 0;
  num_empty = max_num_elems;
}

-- the next offset
unfoldable pub advance : Queue → ℕ → ℕ
advance q offset = (offset + q.elem_size) % q.buff_size

-- the part of `_write` under the mutex, before it posts num_elems
unfoldable pub put : List ℕ → Queue → Queue
unfolding advance
put text q = record q { shm = copy_in q.shm q.last_elem text; last_elem = advance q q.last_elem }

-- what `_write` does once it has waited for an empty element
unfoldable pub written : List ℕ → Queue → Queue
unfolding put
written text q = record (put text q) { num_empty = q.num_empty - 1; num_elems = q.num_elems + 1 }

-- _write(data, num_bytes) of `text`, which is num_bytes long
unfoldable pub write_one : List ℕ → Queue → Option Queue
write_one text q = if nat_beq q.num_empty 0 then none else some (written text q)

-- what `_read` does once it has waited for an element
unfoldable pub taken_from : Queue → Queue
unfolding advance
taken_from q = record q {
  first_elem = advance q q.first_elem;
  num_elems = q.num_elems - 1;
  num_empty = q.num_empty + 1;
}

-- _read(buff_recv, num_bytes): the bytes that it copies out
unfoldable pub read_one : ℕ → Queue → Option (List ℕ × Queue)
read_one num_bytes q =
    if nat_beq q.num_elems 0
    then none
    else some (copy_out q.shm q.first_elem num_bytes, taken_from q)

-- the loop of `write`, for a T of one byte: the whole elements from the i-th on
unfoldable pub write_elems : ℕ → ℕ → List ℕ → Queue → Option Queue
write_elems zero i text q = some q
write_elems (suc n) i text q = elim (write_one (take q.elem_size (drop (i * q.elem_size) text)) q) [
  | none ↦ none
  | some q' ↦ write_elems n (suc i) text q'
]

-- write(data, num_bytes) of `text`: whole elements, then what remains in an element of its own
unfoldable pub write : List ℕ → Queue → Option Queue
write text q =
    let n_writes = length text / q.elem_size in
    let r = length text % q.elem_size in
    elim (write_elems n_writes 0 text q) [
      | none ↦ none
      | some q' ↦ if nat_beq r 0 then some q' else write_one (drop (n_writes * q.elem_size) text) q'
    ]

-- the loop of `read`: the bytes of `n` whole elements, one after another
unfoldable pub read_elems : ℕ → Queue → Option (List ℕ × Queue)
read_elems zero q = some ([], q)
read_elems (suc n) q = elim (read_one q.elem_size q) [
  | none ↦ none
  | some (text, q') ↦ elim (read_elems n q') [
    | none ↦ none
    | some (rest, q'') ↦ some (text ++ rest, q'')
  ]
]

-- read(buff_rcv, num_bytes)
unfoldable pub read : ℕ → Queue → Option (List ℕ × Queue)
read num_bytes q =
    let r = num_bytes % q.elem_size in
    elim (read_elems (num_bytes / q.elem_size) q) [
      | none ↦ none
      | some (text, q') ↦
          if nat_beq r 0
          then some (text, q')
          else elim (read_one r q') [ none ↦ none | some (rest, q'') ↦ some (text ++ rest, q'') ]
    ]

-- reserve(): the address of an element to be filled, which it has posted already
unfoldable pub reserve : Queue → Option (ℕ × Queue)
unfolding advance
reserve q =
    if nat_beq q.num_empty 0
    then none
    else some (
      q.last_elem,
      record q {
        last_elem = advance q q.last_elem;
        num_empty = q.num_empty - 1;
        num_elems = q.num_elems + 1;
      },
    )

-- fetch(): the address of an element to be read, which it has given back already
unfoldable pub fetch : Queue → Option (ℕ × Queue)
unfolding advance
fetch q =
    if nat_beq q.num_elems 0
    then none
    else some (
      q.first_elem,
      record q {
        first_elem = advance q q.first_elem;
        num_elems = q.num_elems - 1;
        num_empty = q.num_empty + 1;
      },
    )
