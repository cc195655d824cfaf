-- ===== src/FdTable/Sets.antt =====
-- The sets of descriptors and the cells of src/posix/utils/filesystem.hpp.
use capio_v.Prelude.{
  ℕ, zero, suc, ◌<◌, ◌≡◌, refl, true, false, some, List, [], ◌∷◌, ◌++◌, length, arith,
  if◌then◌else◌, nat_beq, Bool, not, ◌&&◌,
}
use capio_v.Prelude.Int.{ℤ, int_beq_iff}
use capio_v.Prelude.Eq.{int_eq, ◌==◌, contains}
use capio_v.FdTable.{insert_fd, erase_fd, store, load}

pub contains-insert_fd :
    (fd j : ℤ) (fds : List ℤ)
    → contains j (insert_fd fd fds) ≡ (if fd == j then true else contains j fds)
unfolding insert_fd contains
contains-insert_fd fd j fds = ground (arith, int_beq_iff fd j)

pub contains-erase_fd :
    (fd j : ℤ) (fds : List ℤ)
    → contains j (erase_fd fd fds) ≡ (if fd == j then false else contains j fds)
unfolding erase_fd contains
contains-erase_fd fd j [] = ground arith
contains-erase_fd fd j (x ∷ fds) =
    ground (arith, contains-erase_fd fd j fds, int_beq_iff fd j, int_beq_iff x fd, int_beq_iff x j)

-- No descriptor is twice in the list.
unfoldable pub distinct : List ℤ → Bool
distinct [] = true
distinct (fd ∷ fds) = not (contains fd fds) && distinct fds

pub distinct-insert_fd :
    (fd : ℤ) (fds : List ℤ) → distinct fds ≡ true → distinct (insert_fd fd fds) ≡ true
unfolding insert_fd distinct
distinct-insert_fd fd fds h = ground (arith, h)

pub distinct-erase_fd :
    (fd : ℤ) (fds : List ℤ) → distinct fds ≡ true → distinct (erase_fd fd fds) ≡ true
unfolding erase_fd distinct
distinct-erase_fd fd [] h = refl
distinct-erase_fd fd (x ∷ fds) h =
    ground (arith, h, distinct-erase_fd fd fds, contains-erase_fd fd x fds)

pub load-store :
    (cell k offset : ℕ) (os : List ℕ)
    → cell < length os
    → load k (store cell offset os) ≡ (if nat_beq cell k then some offset else load k os)
unfolding load store
load-store cell k offset [] h = absurd (omega arith)
load-store zero zero offset (o ∷ os) h = refl
load-store zero (suc k) offset (o ∷ os) h = ground arith
load-store (suc cell) zero offset (o ∷ os) h = ground arith
load-store (suc cell) (suc k) offset (o ∷ os) h =
    ground (arith, load-store cell k offset os (omega arith))

pub load-append :
    (os : List ℕ) (offset k : ℕ)
    → load k (os ++ offset ∷ []) ≡ (if nat_beq k (length os) then some offset else load k os)
unfolding load
load-append [] offset zero = refl
load-append [] offset (suc k) = ground arith
load-append (o ∷ os) offset zero = ground arith
load-append (o ∷ os) offset (suc k) = ground (arith, load-append os offset k)

pub length-store : (cell offset : ℕ) (os : List ℕ) → length (store cell offset os) ≡ length os
unfolding store
length-store cell offset [] = refl
length-store zero offset (o ∷ os) = refl
length-store (suc cell) offset (o ∷ os) = omega (arith, length-store cell offset os)

pub load-some : (cell : ℕ) (os : List ℕ) → cell < length os → (o : ℕ) × (load cell os ≡ some o)
unfolding load
load-some cell [] h = absurd (omega arith)
load-some zero (o ∷ os) h = (o, refl)
load-some (suc cell) (o ∷ os) h = load-some cell os (omega arith)
