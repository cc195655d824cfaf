-- ===== src/FdTable/Held.antt =====
-- The sets of descriptors in the table of paths of src/posix/utils/filesystem.hpp.
use capio_v.Prelude.{
  ◌≡◌, Bool, true, false, none, some, List, [], arith, inl, inr, Option-cases, if◌then◌else◌,
}
use capio_v.Prelude.Int.{ℤ}
use capio_v.Prelude.Eq.{Text, text_eq, int_eq, ◌==◌, contains, text_beq_iff}
use capio_v.Prelude.Assoc.{
  Assoc, find, has, emplace, update, erase, has-find, find-emplace, find-update, find-erase,
}
use capio_v.FdTable.{insert_fd, erase_fd}
use capio_v.FdTable.Sets.{contains-insert_fd, contains-erase_fd, distinct, distinct-insert_fd}

-- The path's set holds the descriptor.
unfoldable pub holds : Text → ℤ → Assoc Text (List ℤ) → Bool
holds path fd paths = elim (find path paths) [ none ↦ false | some fds ↦ contains fd fds ]

-- the sets of the paths have no descriptor twice
abbrev pub SetsOf : Assoc Text (List ℤ) → Type 0
SetsOf paths = (path : Text) (fds : List ℤ) → find path paths ≡ some fds → distinct fds ≡ true

pub SetsOf-emplace_empty :
    (p : Text) (paths : Assoc Text (List ℤ)) → SetsOf paths → SetsOf (emplace p [] paths)
unfolding distinct
SetsOf-emplace_empty p paths h q fds e = elim (Option-cases (find q paths)) [
  | inl a ↦ ground (arith, e, a, find-emplace p q [] paths)
  | inr (old, a) ↦
      ground (arith, e, a, find-emplace p q [] paths, h q old, has-find p paths, text_beq_iff p q)
]

-- an operation on the set of one path that keeps a set a set
pub SetsOf-update :
    (p : Text) (f : List ℤ → List ℤ) (paths : Assoc Text (List ℤ))
    → ((fds : List ℤ) → distinct fds ≡ true → distinct (f fds) ≡ true)
    → SetsOf paths
    → SetsOf (update p f paths)
SetsOf-update p f paths keeps h q fds e = elim (Option-cases (find q paths)) [
  | inl a ↦ ground (arith, e, a, find-update p q f paths)
  | inr (old, a) ↦ ground (arith, e, a, find-update p q f paths, h q old, keeps old)
]

pub SetsOf-insert_fd :
    (p : Text) (fd : ℤ) (paths : Assoc Text (List ℤ))
    → SetsOf paths
    → SetsOf (update p (insert_fd fd) paths)
SetsOf-insert_fd p fd paths = SetsOf-update p (insert_fd fd) paths (distinct-insert_fd fd)

pub SetsOf-erase : (p : Text) (paths : Assoc Text (List ℤ)) → SetsOf paths → SetsOf (erase p paths)
SetsOf-erase p paths h q fds e = ground (arith, e, find-erase p q paths, h q fds)

pub holds-emplace_empty :
    (p q : Text) (fd : ℤ) (paths : Assoc Text (List ℤ))
    → holds q fd (emplace p [] paths) ≡ holds q fd paths
unfolding holds contains
holds-emplace_empty p q fd paths =
    ground (arith, find-emplace p q [] paths, has-find p paths, text_beq_iff p q)

pub holds-insert_fd :
    (p q : Text) (fd j : ℤ) (paths : Assoc Text (List ℤ))
    → has p paths ≡ true
    → holds q j (update p (insert_fd fd) paths)
      ≡ (if p == q then (if fd == j then true else holds q j paths) else holds q j paths)
unfolding holds
holds-insert_fd p q fd j paths h = elim (Option-cases (find q paths)) [
  | inl e ↦
      ground (arith, e, find-update p q (insert_fd fd) paths, has-find p paths, text_beq_iff p q)
  | inr (fds, e) ↦
      ground (arith, e, find-update p q (insert_fd fd) paths, contains-insert_fd fd j fds)
]

pub holds-erase_fd :
    (p q : Text) (fd j : ℤ) (paths : Assoc Text (List ℤ))
    → holds q j (update p (erase_fd fd) paths)
      ≡ (if p == q then (if fd == j then false else holds q j paths) else holds q j paths)
unfolding holds
holds-erase_fd p q fd j paths = elim (Option-cases (find q paths)) [
  | inl e ↦ ground (arith, e, find-update p q (erase_fd fd) paths)
  | inr (fds, e) ↦
      ground (arith, e, find-update p q (erase_fd fd) paths, contains-erase_fd fd j fds)
]

pub has_path :
    (p : Text) (fd : ℤ) (paths : Assoc Text (List ℤ)) → holds p fd paths ≡ true → has p paths ≡ true
unfolding holds
has_path p fd paths h = ground (arith, has-find p paths)

pub held :
    (old : Text) (j : ℤ) (entry : List ℤ) (paths : Assoc Text (List ℤ))
    → find old paths ≡ some entry
    → contains j entry ≡ holds old j paths
unfolding holds
held old j entry paths e = ground (arith, e)

pub tracked_there :
    (p : Text) (paths : Assoc Text (List ℤ))
    → has p paths ≡ true
    → (fds : List ℤ) × (find p paths ≡ some fds)
tracked_there p paths h = elim (Option-cases (find p paths)) [
  | inl e ↦ absurd (ground (arith, has-find p paths))
  | inr found ↦ found
]
