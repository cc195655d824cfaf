-- ===== src/Queue/Threads/Invariant.antt =====
-- What holds of a queue between a writer and a reader, at every step of either.
use native.Mathlib.Nat.{zero-mod, zero-mul}
use capio_v.Prelude.{
  ℕ, suc, ◌+◌, ◌*◌, ◌%◌, ◌<◌, ◌≡◌, refl, sym, ap, ◌∙◌, List, [], ◌∷◌, ◌++◌, length, arith,
}
use capio_v.Queue.{Memory, advance, new_queue}
use capio_v.Queue.Slots.{slot, slot-advance, Stored}
use capio_v.Queue.Threads.{Writer, resting, granted, copied, advanced, Reader, Pair, fresh}

-- elements that the writer has room for and that are not in the queue yet
abbrev pub in_flight : Writer → List (List ℕ)
in_flight resting = []
in_flight (granted x) = x ∷ []
in_flight (copied x) = x ∷ []
in_flight advanced = []

-- 1 where the last element is not posted yet
abbrev pub unposted : Writer → ℕ
unposted advanced = 1
unposted _ = 0

-- 1 where the first element is the reader's
abbrev pub held : Reader → ℕ
held resting = 0
held granted = 1
held (copied x) = 1
held advanced = 0

-- 1 where the reader has left an element that it has not posted yet
abbrev pub left_behind : Reader → ℕ
left_behind advanced = 1
left_behind _ = 0

abbrev pub InSlot : Memory → ℕ → ℕ → ℕ → Writer → Type 0
InSlot m max e k (granted x) = length x ≡ e
InSlot m max e k (copied x) = (length x ≡ e) × (slot m e (k % max) ≡ x)
InSlot m max e k _ = Unit

abbrev pub IsFirst : Reader → List (List ℕ) → Type 0
IsFirst (copied x) [] = ⊥
IsFirst (copied x) (y ∷ items) = x ≡ y
IsFirst _ items = Unit

pub record Inv (s : Pair) : Type 0 where
  pub slots : 0 < s.queue.max_num_elems
  pub size : 0 < s.queue.elem_size
  pub bytes : s.queue.buff_size ≡ s.queue.max_num_elems * s.queue.elem_size
  pub taken : ℕ
  pub items : List (List ℕ)
  pub first : s.queue.first_elem ≡ taken % s.queue.max_num_elems * s.queue.elem_size
  pub last : s.queue.last_elem ≡ (taken + length items) % s.queue.max_num_elems * s.queue.elem_size
  pub elems : s.queue.num_elems + unposted s.writer + held s.reader ≡ length items
  pub empty :
      s.queue.num_empty + length (in_flight s.writer) + length items + left_behind s.reader
      ≡ s.queue.max_num_elems
  pub stored : Stored s.queue.shm s.queue.max_num_elems s.queue.elem_size taken items
  pub in_slot :
      InSlot s.queue.shm s.queue.max_num_elems s.queue.elem_size (taken + length items) s.writer
  pub is_first : IsFirst s.reader items
  pub history : s.received ++ (items ++ in_flight s.writer) ≡ s.sent

pub fresh-Inv : (m : Memory) (max size : ℕ) → 0 < max → 0 < size → Inv (fresh m max size)
unfolding new_queue
fresh-Inv m max size hm hs = record {
  slots = hm;
  size = hs;
  bytes = refl;
  taken = 0;
  items = [];
  first = at_start;
  last = at_start;
  elems = omega arith;
  empty = omega arith;
  stored = tt;
  in_slot = tt;
  is_first = tt;
  history = refl;
}
  where
    at_start : 0 ≡ 0 % max * size
    at_start = sym (ap (λ t. t * size) (zero-mod max) ∙ zero-mul size)

-- The offset goes from one element to the next.
pub on_advance :
    {s : Pair} (inv : Inv s) (k offset : ℕ)
    → offset ≡ k % s.queue.max_num_elems * s.queue.elem_size
    → advance s.queue offset ≡ suc k % s.queue.max_num_elems * s.queue.elem_size
unfolding advance
on_advance {s} inv k offset e =
    ap (λ b. (offset + s.queue.elem_size) % b) inv.bytes
    ∙ ap (λ o. (o + s.queue.elem_size) % (s.queue.max_num_elems * s.queue.elem_size)) e
    ∙ slot-advance s.queue.max_num_elems s.queue.elem_size k inv.slots inv.size
