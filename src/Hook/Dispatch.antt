-- ===== src/Hook/Dispatch.antt =====
-- Which handler a system call reaches, through the hook of src/posix/libcapio_posix.cpp.
use capio_v.Prelude.{
  ℕ, ◌+◌, ◌≤◌, ◌≡◌, ◌≢◌, refl, sym, ap, ◌∙◌, ◌⊎◌, Bool, true, false, not, Option, none, some, List,
  [], ◌∷◌, All, nat_beq, nat_beq_iff, ltb, lt→ltb, Bool-cases, Option-cases, inl, inr,
  if◌then◌else◌, arith,
}
use capio_v.Prelude.Eq.{Text, codes, text_eq, text_beq, text_beq_iff, ◌==◌, contains}
use capio_v.Hook.{
  Handler, not_handled_handler, captured, assignments, largest, capio_nr_syscalls, is_number,
  assigned, syscall_table, to_kernel, calls, hook,
}

-- the last handler that the assignments give a name
unfoldable pub last_of : Text → List (Text × Handler) → Handler → Handler
last_of name [] h = h
last_of name ((k, g) ∷ rest) h = last_of name rest (if k == name then g else h)

module _ (number : Text → Option ℕ) where
  -- Different names have different numbers.
  abbrev pub IsInjective : Type 0
  IsInjective = (a b : Text) (n : ℕ) → number a ≡ some n → number b ≡ some n → a ≡ b

  number-name :
      (k name : Text) (n : ℕ)
      → IsInjective
      → number name ≡ some n
      → is_number (number k) n ≡ (k == name)
  number-name k name n inj h = elim (Bool-cases (k == name)) [
    | inl same ↦ rw same (ground (arith, ap number ((text_beq_iff k name).0 same), h))
    | inr other ↦ elim (Option-cases (number k)) [
      | inl e ↦ ground (arith, e, other)
      | inr (m, e) ↦ elim (Bool-cases (nat_beq m n)) [
        | inl eq ↦ absurd (
            ground (
              arith,
              other,
              text_beq_iff k name,
              inj k name n (e ∙ ap some ((nat_beq_iff m n).0 eq)) h,
            ))
        | inr ne ↦ ground (arith, e, other, ne)
      ]
    ]
  ]

  assigned-last_of :
      (name : Text) (n : ℕ) (list : List (Text × Handler)) (h : Handler)
      → IsInjective
      → number name ≡ some n
      → assigned number n list h ≡ last_of name list h
  unfolding assigned last_of
  assigned-last_of name n [] h inj e = refl
  assigned-last_of name n ((k, g) ∷ rest) h inj e =
      ap (λ b. assigned number n rest (if b then g else h)) (number-name k name n inj e)
      ∙ assigned-last_of name n rest _ inj e

  largest_bounds :
      (name : Text) (n : ℕ) (names : List Text)
      → contains name names ≡ true
      → number name ≡ some n
      → n ≤ largest number names
  unfolding largest contains
  largest_bounds name n [] h e = absurd (cc)
  largest_bounds name n (k ∷ names) h e = elim (Bool-cases (k == name)) [
    | inl same ↦ ground (arith, ap number ((text_beq_iff k name).0 same), e)
    | inr other ↦
        let ih = largest_bounds name n names (ground (arith, h, other)) e in ground (arith, ih)
  ]

  untouched :
      (n : ℕ) (list : List (Text × Handler)) (h : Handler)
      → All (λ a. number a.0 ≢ some n) list
      → assigned number n list h ≡ h
  unfolding assigned
  untouched n [] h none_is = refl
  untouched n ((k, g) ∷ rest) h none_is =
      ap (λ b. assigned number n rest (if b then g else h)) (not_number (number k) none_is.0)
      ∙ untouched n rest h none_is.1
    where
      not_number : (o : Option ℕ) → o ≢ some n → is_number o n ≡ false
      not_number none ne = refl
      not_number (some m) ne = elim (Bool-cases (nat_beq m n)) [
        | inl eq ↦ absurd (ne (ap some ((nat_beq_iff m n).0 eq)))
        | inr other ↦ other
      ]

not_futex : contains (codes "futex") captured ≡ false
unfolding contains text_beq
not_futex = refl

decided :
    (futex below : Bool) {h : Handler}
    → h ≡ not_handled_handler
    → ((if futex
          then to_kernel
          else if false
          then to_kernel
          else if not below
          then to_kernel
          else calls h)
        ≡ to_kernel)
      ⊎ ((if futex
            then to_kernel
            else if false
            then to_kernel
            else if not below
            then to_kernel
            else calls h)
          ≡ calls not_handled_handler)
decided true below e = inl refl
decided false true e = inr (ap calls e)
decided false false e = inl refl

not_listed : (name : Text) → contains name captured ≡ true → (codes "futex" == name) ≡ false
not_listed name h = elim (Bool-cases (codes "futex" == name)) [
  | inr other ↦ other
  | inl same ↦ absurd (
      differ (
        sym not_futex
        ∙ ap (λ t. contains t captured) ((text_beq_iff (codes "futex") name).0 same)
        ∙ h))
]
  where
    differ : false ≡ true → ⊥
    differ h = cc

-- Whatever numbers the platform gives the system calls, if no two names have the same: with
-- CAPIO_DIR set and outside of the client's own code, a system call that bounds the table and that
-- the platform defines reaches the last handler that the table's assignments give its name; and a
-- number that is of no name of the assignments reaches the kernel, or the handler that passes it on.
pub hook-last_of :
    (number : Text → Option ℕ) (dir : Text)
    → IsInjective number
    → ((name : Text) (n : ℕ)
        → contains name captured ≡ true
        → number name ≡ some n
        → hook number false (some dir) n ≡ calls (last_of name assignments not_handled_handler))
      × ((n : ℕ)
          → All (λ a. number a.0 ≢ some n) assignments
          → (hook number false (some dir) n ≡ to_kernel)
            ⊎ (hook number false (some dir) n ≡ calls not_handled_handler))
unfolding hook syscall_table capio_nr_syscalls
hook-last_of number dir inj = (named, unnamed)
  where
    other_than_futex :
        (name : Text) (n : ℕ)
        → contains name captured ≡ true
        → number name ≡ some n
        → is_number (number (codes "futex")) n ≡ false
    other_than_futex name n h e =
        number-name number (codes "futex") name n inj e ∙ not_listed name h

    named :
        (name : Text) (n : ℕ)
        → contains name captured ≡ true
        → number name ≡ some n
        → hook number false (some dir) n ≡ calls (last_of name assignments not_handled_handler)
    named name n h e =
        let bound =
          lt→ltb n (1 + largest number captured)
            (omega (arith, largest_bounds number name n captured h e)) in
        rw (other_than_futex name n h e, bound)
          (ap (calls) (assigned-last_of number name n assignments not_handled_handler inj e))

    unnamed :
        (n : ℕ)
        → All (λ a. number a.0 ≢ some n) assignments
        → (hook number false (some dir) n ≡ to_kernel)
          ⊎ (hook number false (some dir) n ≡ calls not_handled_handler)
    unnamed n none_is =
        decided (is_number (number (codes "futex")) n) (ltb n (1 + largest number captured))
          (untouched number n assignments not_handled_handler none_is)
