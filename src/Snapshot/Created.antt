-- ===== src/Snapshot/Created.antt =====
-- The segments that a snapshot makes, src/posix/utils/snapshot.hpp.
use mathlib.Core.Path.{subst}
use capio_v.Prelude.{◌≡◌, refl, ◌∙◌, true, false, some, List, [], ◌∷◌, arith, inl, inr, Bool-cases}
use capio_v.Prelude.Int.{ℤ, int_beq_iff}
use capio_v.Prelude.Eq.{Text, int_eq, text_eq, ◌==◌, contains}
use capio_v.Prelude.Assoc.{Assoc, find, has}
use capio_v.Prelude.Result.{ok}
use capio_v.FdTable.{Tables}
use capio_v.FdTable.Consistent.{Consistent}
use capio_v.Snapshot.{Info, create_segments}
use capio_v.Snapshot.Says.{Says, tracked-Says}

-- The segments have what the tables say of these descriptors.
abbrev pub Recorded : List ℤ → Assoc ℤ Info → Assoc ℤ Text → Tables → Type 0
Recorded fds infos paths t =
    (fd : ℤ)
    → contains fd fds ≡ true
    → (path : Text) × (info : Info) × (find fd paths ≡ some path)
      × (find fd infos ≡ some info)
      × Says fd path info t

abbrev pub Within : List ℤ → Tables → Type 0
Within fds t = (fd : ℤ) → contains fd fds ≡ true → has fd t.files ≡ true

pub contains_tail : (j fd : ℤ) (fds : List ℤ) → contains j fds ≡ true → contains j (fd ∷ fds) ≡ true
unfolding contains
contains_tail j fd fds h = ground (arith, h)

pub none_in : {A : Type 0} (j : ℤ) → contains j [] ≡ true → A
unfolding contains
none_in j h = absurd (cc)

-- A descriptor of the list that is not its first is in its tail.
pub in_tail :
    (j fd : ℤ) (fds : List ℤ)
    → contains j (fd ∷ fds) ≡ true
    → (fd == j) ≡ false
    → contains j fds ≡ true
unfolding contains
in_tail j fd fds h other = ground (arith, h, other)

pub not_in_tail : (j fd : ℤ) (fds : List ℤ) → contains j (fd ∷ fds) ≡ false → contains j fds ≡ false
unfolding contains
not_in_tail j fd fds h = ground (arith, h)

pub not_first : (j fd : ℤ) (fds : List ℤ) → contains j (fd ∷ fds) ≡ false → (fd == j) ≡ false
unfolding contains
not_first j fd fds h = ground (arith, h)

pub contains_head : (fd : ℤ) (fds : List ℤ) → contains fd (fd ∷ fds) ≡ true
unfolding contains
contains_head fd fds = ground (arith, int_beq_iff fd fd)

pub find_first :
    {V : Type 0} (fd j : ℤ) (m : Assoc ℤ V) (v : V)
    → (fd == j) ≡ true
    → find j ((fd, v) ∷ m) ≡ some v
unfolding find
find_first fd j m v same = ground (arith, same)

pub find_later :
    {V : Type 0} (fd j : ℤ) (m : Assoc ℤ V) (v : V)
    → (fd == j) ≡ false
    → find j ((fd, v) ∷ m) ≡ find j m
unfolding find
find_later fd j m v other = ground (arith, other)

pub created :
    (fds : List ℤ) (t : Tables)
    → Consistent t
    → Within fds t
    → (infos : Assoc ℤ Info) × (paths : Assoc ℤ Text) × (create_segments fds t ≡ ok (infos, paths))
      × Recorded fds infos paths t
unfolding create_segments
created [] t c w = ([], [], refl, λ fd h. none_in _ h)
created (fd ∷ fds) t c w =
    let (path, info, says) = tracked-Says fd t c (w fd (contains_head fd fds)) in
    let (infos, paths, e, rec) = created fds t c (λ j h. w j (contains_tail j fd fds h)) in
    (
      (fd, info) ∷ infos,
      (fd, path) ∷ paths,
      ground (arith, says.says_offset, says.says_cloexec, says.says_path, e),
      recorded infos paths path info says rec,
    )
  where
    recorded :
        (infos : Assoc ℤ Info) (paths : Assoc ℤ Text) (path : Text) (info : Info)
        → Says fd path info t
        → Recorded fds infos paths t
        → Recorded (fd ∷ fds) ((fd, info) ∷ infos) ((fd, path) ∷ paths) t
    recorded infos paths path info says rec j h = elim (Bool-cases (fd == j)) [
      | inl same ↦ (
        path,
        info,
        find_first fd j paths path same,
        find_first fd j infos info same,
        subst (λ k. Says k path info t) ((int_beq_iff fd j).0 same) says,
      )
      | inr other ↦
          let (path', info', p, i, says') = rec j (in_tail j fd fds h other) in
          (
            path',
            info',
            find_later fd j paths path other ∙ p,
            find_later fd j infos info other ∙ i,
            says',
          )
    ]
