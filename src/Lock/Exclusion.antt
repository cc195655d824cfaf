-- ===== src/Lock/Exclusion.antt =====
-- At most one server holds the lock of src/server/utils/distributed_semaphore.hpp.
use capio_v.Prelude.{
  ℕ, ◌≡◌, refl, sym, ap, ◌∙◌, Bool, true, false, Option, none, some, [], arith, inl, inr,
  Bool-cases, nat_beq, nat_beq_iff,
}
use capio_v.Prelude.Eq.{Text}
use capio_v.Lock.{
  Pc, outside, spinning, opened, locked, stopped, System, move_to, Step, constructs, fails_to_open,
  opens, writes_name, fails_to_write, unlocks, Reach, begins, steps,
}

-- The server has created the file and not removed it.
abbrev pub owns : Pc → Bool
owns outside = false
owns spinning = false
owns opened = true
owns locked = true
owns stopped = true

abbrev pub is_there : Option Text → Bool
is_there none = false
is_there (some text) = true

record Inv (s : System) : Type 0 where
  there : (i : ℕ) → owns (s.pc i) ≡ true → is_there s.file ≡ true
  only : (i j : ℕ) → owns (s.pc i) ≡ true → owns (s.pc j) ≡ true → i ≡ j

-- A server that moves between places where it owns the same keeps everything.
stays-Inv :
    (s : System) (i : ℕ) (p : Pc) (file : Option Text)
    → Inv s
    → owns p ≡ owns (s.pc i)
    → (is_there s.file ≡ true → is_there file ≡ true)
    → Inv (record { file = file; pc = move_to i p s.pc })
stays-Inv s i p file inv same keeps = record {
  there = λ j h. keeps (inv.there j (before j h));
  only = λ j k hj hk. inv.only j k (before j hj) (before k hk);
}
  where
    before : (j : ℕ) → owns (move_to i p s.pc j) ≡ true → owns (s.pc j) ≡ true
    before j h = elim (Bool-cases (nat_beq i j)) [
      | inl e ↦
          ap (λ k. owns (s.pc k)) (sym ((nat_beq_iff i j).0 e)) ∙ (sym same ∙ ground (arith, h, e))
      | inr e ↦ ground (arith, h, e)
    ]

opens-Inv :
    (s : System) (i : ℕ)
    → Inv s
    → s.file ≡ none
    → Inv (record { file = some []; pc = move_to i Pc.opened s.pc })
opens-Inv s i inv free = record {
  there = λ j h. refl;
  only = λ j k hj hk. sym (mover j hj) ∙ mover k hk;
}
  where
    mover : (j : ℕ) → owns (move_to i Pc.opened s.pc j) ≡ true → i ≡ j
    mover j h = elim (Bool-cases (nat_beq i j)) [
      | inl e ↦ (nat_beq_iff i j).0 e
      | inr e ↦ absurd (ground (arith, free, inv.there j (ground (arith, h, e))))
    ]

unlocks-Inv :
    (s : System) (i : ℕ)
    → Inv s
    → s.pc i ≡ Pc.locked
    → Inv (record { file = none; pc = move_to i Pc.outside s.pc })
unlocks-Inv s i inv here = record {
  there = λ j h. absurd (nobody_else j h);
  only = λ j k hj hk. absurd (nobody_else j hj);
}
  where
    nobody_else : (j : ℕ) → owns (move_to i Pc.outside s.pc j) ≡ true → ⊥
    nobody_else j h = elim (Bool-cases (nat_beq i j)) [
      | inl e ↦ ground (arith, h, e)
      | inr e ↦ differ e (inv.only i j (ap owns here) (ground (arith, h, e)))
    ]
      where
        differ : nat_beq i j ≡ false → i ≡ j → ⊥
        differ e same = ground (arith, e, same)

Step-Inv : {s t : System} → Step s t → Inv s → Inv t
Step-Inv {s} (constructs i e) inv = stays-Inv s i Pc.spinning s.file inv (sym (ap owns e)) (λ h. h)
Step-Inv (fails_to_open i text e e') inv = inv
Step-Inv {s} (opens i e e') inv = opens-Inv s i inv e'
Step-Inv {s} (writes_name i name e) inv =
    stays-Inv s i Pc.locked (some name) inv (sym (ap owns e)) (λ h. refl)
Step-Inv {s} (fails_to_write i e) inv =
    stays-Inv s i Pc.stopped s.file inv (sym (ap owns e)) (λ h. h)
Step-Inv {s} (unlocks i e) inv = unlocks-Inv s i inv e

Reach-Inv : {s : System} → Reach s → Inv s
Reach-Inv begins = record { there = λ i h. absurd (cc); only = λ i j h. absurd (cc) }
Reach-Inv (steps r st) = Step-Inv st (Reach-Inv r)

-- Servers that lock and unlock in any order exclude each other: at most one of them has the lock or
-- is between creating the file and having it; and while one has it, or has stopped because its name
-- could not be written, the lock file is there.
pub mutual_exclusion :
    {s : System} (i j : ℕ)
    → Reach s
    → (owns (s.pc i) ≡ true → owns (s.pc j) ≡ true → i ≡ j)
      × (owns (s.pc i) ≡ true → (text : Text) × (s.file ≡ some text))
mutual_exclusion {s} i j r =
    let inv = Reach-Inv r in (inv.only i j, λ h. found s.file (inv.there i h))
  where
    found : (o : Option Text) → is_there o ≡ true → (text : Text) × (o ≡ some text)
    found none h = absurd (cc)
    found (some text) h = (text, refl)
