-- ===== src/Queue/Slots.antt =====
-- The elements of a circular buffer as slots, and the arithmetic of going round.
use native.Mathlib.Nat.{
  mod-add-mod, mod-eq_of_lt, mod-eq-sub-mod, mod-lt, mod_self, suc-mod, zero-mul, mul-le-mul_right,
  mul-lt-mul_of_pos_right,
}
use mathlib.Core.Path.{ap₂, subst}
use native.Mathlib.Decide.{dec_lt}
use capio_v.Prelude.{
  ℕ, zero, suc, ◌+◌, ◌-◌, ◌*◌, ◌%◌, ◌≤◌, ◌<◌, ◌≡◌, refl, sym, ap, ◌∙◌, ◌≢◌, ◌↔◌, ◌⊎◌, inl, inr,
  List, [], ◌∷◌, ◌++◌, length, get_or, arith,
}
use capio_v.Queue.{Memory, copy_in, copy_out}

-- The k-th element of the buffer.
abbrev pub slot : Memory → ℕ → ℕ → List ℕ
slot m e k = copy_out m (k * e) e

-- Fewer than `max` steps round the buffer do not come back to the start.
pub mod-add-ne : (max k d : ℕ) → 0 < d → d < max → k % max ≢ (k + d) % max
mod-add-ne max k d hd hm = λ e. away (e ∙ sym (mod-add-mod k max d))
  where
    h : ℕ
    h = k % max

    small : h < max
    small = mod-lt k (omega arith)

    away : h ≢ (h + d) % max
    away = elim (dec_lt (h + d) max) [
      | yes p ↦ λ e. omega (arith, mod-eq_of_lt p)
      | no p ↦ λ e. omega (
        arith,
        small,
        mod-eq-sub-mod {n = h + d} {m = max} (omega arith),
        mod-eq_of_lt {n = h + d - max} {m = max} (omega (arith, small)),
      )
    ]

-- Going one element on from a slot leads to the next slot.
pub slot-advance : (max e k : ℕ) → 0 < max → 0 < e → (k % max * e + e) % (max * e) ≡ suc k % max * e
slot-advance max e k hm he = elim (dec_lt (suc h) max) [
  | yes p ↦
      mod-eq_of_lt (omega (arith, mul-lt-mul_of_pos_right {k = e} p he, times_suc))
      ∙ sym times_suc
      ∙ ap (λ t. t * e) (sym (mod-eq_of_lt p) ∙ sym (suc-mod k max))
  | no p ↦
      ap (λ t. t % (max * e)) (sym times_suc ∙ ap (λ t. t * e) (full p))
      ∙ mod_self (max * e)
      ∙ sym (zero-mul e)
      ∙ ap (λ t. t * e)
          (sym (mod_self max) ∙ ap (λ t. t % max) (sym (full p)) ∙ sym (suc-mod k max))
]
  where
    h : ℕ
    h = k % max

    times_suc : suc h * e ≡ h * e + e
    times_suc = omega arith

    full : ¬ (suc h < max) → suc h ≡ max
    full p = omega (arith, mod-lt k {m = max} hm)

-- Slots are inside the buffer.
pub slot-in : (max e k : ℕ) → 0 < max → k % max * e + e ≤ max * e
slot-in max e k hm = omega (arith, mul-le-mul_right e (mod-lt k {m = max} hm))

copy_in_inside :
    (m : Memory) (a : ℕ) (text : List ℕ) (i : ℕ)
    → i < length text
    → copy_in m a text (a + i) ≡ get_or text i 0
unfolding copy_in
copy_in_inside m a text i p = ground (arith, ap (λ k. get_or text k 0) (shift a i))
  where
    shift : (a i : ℕ) → a + i - a ≡ i
    shift a i = omega arith

copy_in_outside :
    (m : Memory) (a : ℕ) (text : List ℕ) (b : ℕ)
    → (a + length text ≤ b) ⊎ (b < a)
    → copy_in m a text b ≡ m b
unfolding copy_in
copy_in_outside m a text b h = ground arith

copy_out_pointwise :
    (m : Memory) (b : ℕ) (text : List ℕ)
    → ((i : ℕ) → i < length text → m (b + i) ≡ get_or text i 0)
    → copy_out m b (length text) ≡ text
unfolding copy_out
copy_out_pointwise m b [] h = refl
copy_out_pointwise m b (x ∷ text) h =
    ap₂ ◌∷◌ (ap m (omega arith) ∙ h 0 (omega arith))
      (copy_out_pointwise m (suc b) text (λ i p. ap m (omega arith) ∙ h (suc i) (omega arith)))

-- A copy is read back where it was made.
pub copy_out-copy_in :
    (m : Memory) (a : ℕ) (text : List ℕ) → copy_out (copy_in m a text) a (length text) ≡ text
copy_out-copy_in m a text = copy_out_pointwise (copy_in m a text) a text (λ i p. inside i p)
  where
    inside : (i : ℕ) → i < length text → copy_in m a text (a + i) ≡ get_or text i 0
    inside i p = copy_in_inside m a text i p

-- A copy leaves what lies outside of it.
pub copy_out-apart :
    (m : Memory) (a b n : ℕ) (text : List ℕ)
    → (a + length text ≤ b) ⊎ (b + n ≤ a)
    → copy_out (copy_in m a text) b n ≡ copy_out m b n
unfolding copy_out
copy_out-apart m a b zero text h = refl
copy_out-apart m a b (suc n) text h = ap₂ ◌∷◌ (copy_in_outside m a text b (omega arith)) (
    copy_out-apart m a (suc b) n text
      (elim h [ inl p ↦ inl (omega arith) | inr p ↦ inr (omega arith) ]))

pub slots_apart : (i j e : ℕ) → i ≢ j → (j * e + e ≤ i * e) ⊎ (i * e + e ≤ j * e)
slots_apart i j e ne = elim (dec_lt i j) [
  | yes p ↦ inr (omega (arith, mul-le-mul_right {m = suc i} {n = j} e (omega arith)))
  | no p ↦ inl (omega (arith, mul-le-mul_right {m = suc j} {n = i} e (omega arith)))
]

-- Filling one slot leaves the others.
pub slot-other :
    (m : Memory) (e i j : ℕ) (text : List ℕ)
    → length text ≡ e
    → i ≢ j
    → slot (copy_in m (j * e) text) e i ≡ slot m e i
slot-other m e i j text h ne =
    copy_out-apart m (j * e) (i * e) e text
      (elim (slots_apart i j e ne) [ inl p ↦ inl (omega arith) | inr p ↦ inr p ])

pub slot_same :
    (m : Memory) (e j : ℕ) (text : List ℕ)
    → length text ≡ e
    → slot (copy_in m (j * e) text) e j ≡ text
slot_same m e j text h =
    subst (λ n. copy_out (copy_in m (j * e) text) (j * e) n ≡ text) h
      (copy_out-copy_in m (j * e) text)

-- The slots from the r-th on, round the buffer, hold these elements.
abbrev pub Stored : Memory → ℕ → ℕ → ℕ → List (List ℕ) → Type 0
Stored m max e r [] = Unit
Stored m max e r (x ∷ xs) = (slot m e (r % max) ≡ x) × Stored m max e (suc r) xs

-- Where there is room, filling the slot behind them adds an element at the end.
pub Stored-put :
    (m : Memory) (max e r k : ℕ) (items : List (List ℕ)) (x : List ℕ)
    → length x ≡ e
    → length items < max
    → k ≡ r + length items
    → Stored m max e r items
    → Stored (copy_in m (k % max * e) x) max e r (items ++ x ∷ [])
Stored-put m max e r k [] x h room at_end st = (
  subst (λ t. slot (copy_in m (k % max * e) x) e (t % max) ≡ x) (omega arith)
      (slot_same m e (k % max) x h),
  tt,
)
Stored-put m max e r k (y ∷ items) x h room at_end st = (
  slot-other m e (r % max) (k % max) x h (
        subst (λ t. r % max ≢ t % max) (sym at_end)
          (mod-add-ne max r (suc (length items)) (omega arith) (omega arith)))
      ∙ st.0,
  Stored-put m max e (suc r) k items x h (omega arith) (omega arith) st.1,
)

-- Filling the slot leaves the elements where they are, with the new one behind them.
pub Stored-append :
    (m : Memory) (max e r : ℕ) (items : List (List ℕ)) (x : List ℕ)
    → Stored m max e r (items ++ x ∷ [])
      ↔ (Stored m max e r items × (slot m e ((r + length items) % max) ≡ x))
Stored-append m max e r [] x = (
  λ h. (tt, ap (λ k. slot m e (k % max)) (omega arith) ∙ h.0),
  λ h. (ap (λ k. slot m e (k % max)) (omega arith) ∙ h.1, tt),
)
Stored-append m max e r (y ∷ items) x =
    let ih = Stored-append m max e (suc r) items x in
    let shift : r + suc (length items) ≡ suc r + length items = omega arith in
    (
      λ h. let (st, e') = ih.0 h.1 in ((h.0, st), ap (λ k. slot m e (k % max)) shift ∙ e'),
      λ h. (h.0.0, ih.1 (h.0.1, ap (λ k. slot m e (k % max)) (sym shift) ∙ h.1)),
    )
