-- ===== src/Queue/Fifo.antt =====
-- The circular buffer against a bounded queue of its elements.
use mathlib.Core.Option
use mathlib.Core.Path.{subst}
use native.Mathlib.Nat.{zero-mod, zero-mul, mod_self, mul-one, mul-div_cancel_left}
use capio_v.Prelude.{
  ℕ, zero, suc, ◌+◌, ◌*◌, ◌/◌, ◌%◌, ◌<◌, ◌≡◌, refl, sym, ap, ◌∙◌, ltb, Bool-cases, Option-cases,
  append-nil, take, drop, ltb→lt, Option, none, some, List, [], ◌∷◌, ◌++◌, if◌then◌else◌, length,
  length-append, All, inl, inr, arith,
}
use capio_v.Queue.{
  Memory, Queue, copy_in, copy_out, advance, new_queue, put, write_one, read_one, write, read,
  write_elems, read_elems, written, taken_from,
}
use capio_v.Queue.Slots.{slot-advance, Stored, Stored-put}

-- The buffer holds these elements, oldest first, after `taken` elements have been read.
pub record Holds (q : Queue) (items : List (List ℕ)) : Type 0 where
  pub slots : 0 < q.max_num_elems
  pub size : 0 < q.elem_size
  pub bytes : q.buff_size ≡ q.max_num_elems * q.elem_size
  pub taken : ℕ
  pub first : q.first_elem ≡ taken % q.max_num_elems * q.elem_size
  pub last : q.last_elem ≡ (taken + length items) % q.max_num_elems * q.elem_size
  pub elems : q.num_elems ≡ length items
  pub empty : q.num_empty + length items ≡ q.max_num_elems
  pub stored : Stored q.shm q.max_num_elems q.elem_size taken items

-- what processes do with the buffer
pub data Op : Type 0 where
  puts : List ℕ → Op
  gets : Op

-- an element given to `write`, of the size of an element
abbrev pub Fits : ℕ → Op → Type 0
Fits size (puts x) = length x ≡ size
Fits size gets = Unit

-- the elements that the reads return, if no operation blocks
unfoldable pub run : List Op → Queue → Option (List (List ℕ))
run [] q = some []
run (puts x ∷ ops) q = elim (write x q) [ none ↦ none | some q' ↦ run ops q' ]
run (gets ∷ ops) q = elim (read q.elem_size q) [
  | none ↦ none
  | some (x, q') ↦ Option.map (λ xs. x ∷ xs) (run ops q')
]

-- the same of a list of at most `max` elements
unfoldable pub run_list : ℕ → List Op → List (List ℕ) → Option (List (List ℕ))
run_list max [] items = some []
run_list max (puts x ∷ ops) items =
    let rest = run_list max ops (items ++ x ∷ []) in if ltb (length items) max then rest else none
run_list max (gets ∷ ops) [] = none
run_list max (gets ∷ ops) (x ∷ items) = Option.map (λ xs. x ∷ xs) (run_list max ops items)

pub new_queue-Holds :
    (m : Memory) (max size : ℕ) → 0 < max → 0 < size → Holds (new_queue m max size) []
unfolding new_queue
new_queue-Holds m max size hm hs = record {
  slots = hm;
  size = hs;
  bytes = refl;
  taken = 0;
  first = start;
  last = start;
  elems = refl;
  empty = omega arith;
  stored = tt;
}
  where
    start : 0 ≡ 0 % max * size
    start = sym (ap (λ t. t * size) (zero-mod max) ∙ zero-mul size)

advance_lem :
    {q : Queue} {items : List (List ℕ)} (h : Holds q items) (k : ℕ)
    → advance q (k % q.max_num_elems * q.elem_size) ≡ suc k % q.max_num_elems * q.elem_size
unfolding advance
advance_lem {q} h k =
    ap (λ b. (k % q.max_num_elems * q.elem_size + q.elem_size) % b) h.bytes
    ∙ slot-advance q.max_num_elems q.elem_size k h.slots h.size

pub written-Holds :
    (q : Queue) (items : List (List ℕ)) (x : List ℕ)
    → Holds q items
    → length x ≡ q.elem_size
    → length items < q.max_num_elems
    → Holds (written x q) (items ++ x ∷ [])
unfolding written put
written-Holds q items x h fits room = record {
  slots = h.slots;
  size = h.size;
  bytes = h.bytes;
  taken = h.taken;
  first = h.first;
  last =
      ap (λ o. advance q o) h.last
      ∙ advance_lem h (h.taken + length items)
      ∙ ap (λ k. k % q.max_num_elems * q.elem_size) (omega (arith, longer));
  elems = omega (arith, longer, h.elems);
  empty = omega (arith, longer, h.empty);
  stored =
      subst (λ o. Stored (copy_in q.shm o x) q.max_num_elems q.elem_size h.taken (items ++ x ∷ []))
        (sym h.last)
        (Stored-put q.shm q.max_num_elems q.elem_size h.taken (h.taken + length items) items x fits
          room refl h.stored);
}
  where
    longer : length (items ++ x ∷ []) ≡ suc (length items)
    longer = omega (arith, length-append items (x ∷ []))

taken_from-Holds :
    (q : Queue) (x : List ℕ) (items : List (List ℕ))
    → Holds q (x ∷ items)
    → Holds (taken_from q) items
unfolding taken_from
taken_from-Holds q x items h = record {
  slots = h.slots;
  size = h.size;
  bytes = h.bytes;
  taken = suc h.taken;
  first = ap (λ o. advance q o) h.first ∙ advance_lem h h.taken;
  last = h.last ∙ ap (λ k. k % q.max_num_elems * q.elem_size) (omega arith);
  elems = omega (arith, h.elems);
  empty = omega (arith, h.empty);
  stored = h.stored.1;
}

oldest :
    (q : Queue) (x : List ℕ) (items : List (List ℕ))
    → Holds q (x ∷ items)
    → copy_out q.shm q.first_elem q.elem_size ≡ x
oldest q x items h = ap (λ o. copy_out q.shm o q.elem_size) h.first ∙ h.stored.0

write_one_lem :
    (q : Queue) (items : List (List ℕ)) (x : List ℕ)
    → Holds q items
    → write_one x q ≡ (if ltb (length items) q.max_num_elems then some (written x q) else none)
unfolding write_one
write_one_lem q items x h = ground (arith, h.empty)

one_elem : (size n : ℕ) → 0 < size → n ≡ size → (n / size ≡ 1) × (n % size ≡ 0)
one_elem size n pos e = (
  ap (λ k. k / size) e ∙ ap (λ k. k / size) (sym (mul-one size)) ∙ mul-div_cancel_left 1 pos,
  ap (λ k. k % size) e ∙ mod_self size,
)

take_all : (n : ℕ) (x : List ℕ) → length x ≡ n → take n x ≡ x
take_all zero [] e = refl
take_all zero (a ∷ x) e = absurd (omega arith)
take_all (suc n) [] e = refl
take_all (suc n) (a ∷ x) e = ap (λ t. a ∷ t) (take_all n x (omega arith))

one_write : (q : Queue) (x : List ℕ) → length x ≡ q.elem_size → write_elems 1 0 x q ≡ write_one x q
unfolding write_elems
one_write q x e = ground (arith, ap (λ t. write_one t q) first_chunk)
  where
    first_chunk : take q.elem_size (drop (0 * q.elem_size) x) ≡ x
    first_chunk =
        ap (λ k. take q.elem_size (drop k x)) (zero-mul q.elem_size) ∙ take_all q.elem_size x e

-- Text of the size of an element is written as one element.
pub write-write_one :
    (q : Queue) (x : List ℕ) → 0 < q.elem_size → length x ≡ q.elem_size → write x q ≡ write_one x q
unfolding write
write-write_one q x pos e =
    let (whole, rest) = one_elem q.elem_size (length x) pos e in
    ground (arith, rest, ap (λ k. write_elems k 0 x q) whole, one_write q x e)

one_read : (q : Queue) → read_elems 1 q ≡ read_one q.elem_size q
unfolding read_elems
one_read q = elim (Option-cases (read_one q.elem_size q)) [
  | inl e ↦ ground (arith, e)
  | inr (a, e) ↦ ground (arith, e, append-nil a.0)
]

pub read-read_one : (q : Queue) → 0 < q.elem_size → read q.elem_size q ≡ read_one q.elem_size q
unfolding read
read-read_one q pos =
    let (whole, rest) = one_elem q.elem_size q.elem_size pos refl in
    ground (arith, rest, ap (λ k. read_elems k q) whole, one_read q)

-- A buffer that holds `items` does what a bounded list of them does: operations in any order
-- block on the buffer exactly where they do on the list, and its reads return the same elements.
-- The condition: every element that is written is of the buffer's element size.
pub run_refines :
    (ops : List Op) (q : Queue) (items : List (List ℕ))
    → Holds q items
    → All (Fits q.elem_size) ops
    → run ops q ≡ run_list q.max_num_elems ops items
unfolding run run_list read_one taken_from written put
run_refines [] q items h fit = refl
run_refines (puts x ∷ ops) q items h fit = elim (Bool-cases (ltb (length items) q.max_num_elems)) [
  | inl room ↦
      let h' = written-Holds q items x h fit.0 (ltb→lt _ _ room) in
      let later = run_refines ops (written x q) (items ++ x ∷ []) h' fit.1 in
      ground (arith, write-write_one q x h.size fit.0, write_one_lem q items x h, room, later)
  | inr full ↦ ground (arith, write-write_one q x h.size fit.0, write_one_lem q items x h, full)
]
run_refines (gets ∷ ops) q [] h fit = ground (arith, h.elems, read-read_one q h.size)
run_refines (gets ∷ ops) q (x ∷ items) h fit =
    let later = run_refines ops (taken_from q) items (taken_from-Holds q x items h) fit.1 in
    ground (arith, h.elems, read-read_one q h.size, oldest q x items h, later)
