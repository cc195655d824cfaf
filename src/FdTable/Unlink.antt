-- ===== src/FdTable/Unlink.antt =====
-- delete_capio_path of src/posix/utils/filesystem.hpp.
use capio_v.Prelude.{
  ◌≡◌, ◌≢◌, refl, ap, sym, ◌∙◌, ◌↔◌, true, false, some, List, [], ◌∷◌, arith, inl, inr,
  if◌then◌else◌, Bool-cases,
}
use capio_v.Prelude.Int.{ℤ, int_beq_iff}
use capio_v.Prelude.Eq.{Text, text_eq, int_eq, ◌==◌, contains, text_beq_iff, ==_refl}
use capio_v.Prelude.Assoc.{Assoc, find, has, erase, has-find, has-erase, find-erase}
use capio_v.Prelude.Result.{ok}
use capio_v.FdTable.{Tables, delete_capio_fds, delete_capio_path}
use capio_v.FdTable.Sets.{distinct}
use capio_v.FdTable.Consistent.{Consistent, delete_capio_fd-Consistent}
use capio_v.FdTable.Held.{SetsOf-erase, holds, held, tracked_there}

-- the descriptor keeps its path and its file
abbrev Unchanged : ℤ → Tables → Tables → Type 0
Unchanged j t t' =
    (find j t'.descriptors ≡ find j t.descriptors) × (find j t'.files ≡ find j t.files)

Unchanged-trans :
    (j : ℤ) (t t₁ t₂ : Tables) → Unchanged j t t₁ → Unchanged j t₁ t₂ → Unchanged j t t₂
Unchanged-trans j t t₁ t₂ (a, b) (a', b') = (a' ∙ a, b' ∙ b)

-- Deleting descriptors that have files and are not repeated succeeds and keeps the agreement: these
-- are closed, every other one keeps its path.
delete_capio_fds-Consistent :
    (fds : List ℤ) (t : Tables)
    → Consistent t
    → distinct fds ≡ true
    → ((j : ℤ) → contains j fds ≡ true → has j t.files ≡ true)
    → (t' : Tables) × (delete_capio_fds fds t ≡ ok t')
      × Consistent t'
      × ((j : ℤ) → contains j fds ≡ true → has j t'.files ≡ false)
      × ((j : ℤ) → contains j fds ≡ false → Unchanged j t t')
unfolding delete_capio_fds distinct contains
delete_capio_fds-Consistent [] t c d there =
    (t, refl, c, (λ j h. absurd (ground (arith, h))), λ j h. (refl, refl))
delete_capio_fds-Consistent (fd ∷ fds) t c d there =
    let (t₁, e, c₁, closed, kept) =
      delete_capio_fd-Consistent fd t c (there fd (ground (arith, ==_refl fd))) in
    let fresh : contains fd fds ≡ false = ground (arith, d) in
    let (t₂, r, c₂, closed₂, kept₂) =
      delete_capio_fds-Consistent fds t₁ c₁ (ground (arith, d)) (λ j h.
        let other : fd ≢ j = λ same. absurd (ground (arith, same, h, fresh)) in
        ground (arith, there j, h, (kept j other).1, has-find j t.files, has-find j t₁.files)) in
    (
      t₂,
      rw e r,
      c₂,
      (λ j h. elim (Bool-cases (contains j fds)) [
        | inl a ↦ closed₂ j a
        | inr a ↦
            let same : fd ≡ j = ground (arith, h, a, int_beq_iff fd j) in
            ground (arith, same, closed, (kept₂ j a).1, has-find j t₁.files, has-find j t₂.files)
      ]),
      λ j h.
          let other : fd ≢ j = λ same. absurd (ground (arith, same, h, int_beq_iff fd j)) in
          let a : contains j fds ≡ false = ground (arith, h) in
          Unchanged-trans j t t₁ t₂ (kept j other) (kept₂ j a),
    )

holds-erase :
    (p q : Text) (j : ℤ) (paths : Assoc Text (List ℤ))
    → holds q j (erase p paths) ≡ (if p == q then false else holds q j paths)
unfolding holds
holds-erase p q j paths = ground (arith, find-erase p q paths)

in_set :
    (path : Text) (fds : List ℤ) (t : Tables)
    → Consistent t
    → find path t.paths ≡ some fds
    → (j : ℤ) → (contains j fds ≡ true) ↔ (find j t.descriptors ≡ some path)
in_set path fds t c e j = (
  λ h. (c.linked j path).1 (sym (held path j fds t.paths e) ∙ h),
  λ h. held path j fds t.paths e ∙ (c.linked j path).0 h,
)

-- after the descriptors of a path are deleted, no descriptor has the path
none_left :
    (path : Text) (fds : List ℤ) (t t' : Tables)
    → Consistent t
    → Consistent t'
    → find path t.paths ≡ some fds
    → ((j : ℤ) → contains j fds ≡ true → has j t'.files ≡ false)
    → ((j : ℤ) → contains j fds ≡ false → Unchanged j t t')
    → (j : ℤ) → find j t'.descriptors ≢ some path
none_left path fds t t' c c' e closed kept j h = elim (Bool-cases (contains j fds)) [
  | inl a ↦ absurd (ground (arith, h, closed j a, c'.opened j, has-find j t'.descriptors))
  | inr a ↦ absurd (ground (arith, a, (in_set path fds t c e j).1 (sym (kept j a).0 ∙ h)))
]

linked-erase :
    (path : Text) (t : Tables)
    → Consistent t
    → ((j : ℤ) → find j t.descriptors ≢ some path)
    → (j : ℤ) (q : Text) → (find j t.descriptors ≡ some q) ↔ (holds q j (erase path t.paths) ≡ true)
linked-erase path t c gone j q = (
  λ h.
      let other : path ≢ q = λ same. gone j (h ∙ ap some (sym same)) in
      ground (arith, (c.linked j q).0 h, holds-erase path q j t.paths, text_beq_iff path q, other),
  λ h. (c.linked j q).1 (ground (arith, h, holds-erase path q j t.paths)),
)

delete_run :
    (path : Text) (fds : List ℤ) (t t' : Tables)
    → find path t.paths ≡ some fds
    → delete_capio_fds fds t ≡ ok t'
    → delete_capio_path path t ≡ ok (record t' { paths = erase path t'.paths })
unfolding delete_capio_path
delete_run path fds t t' e run = rw (e, delete_capio_path) (rw run refl)

-- Deleting a tracked path succeeds and keeps the agreement: the path and all its descriptors are
-- gone, and a descriptor of another path keeps its path and its file.
pub delete_capio_path-Consistent :
    (path : Text) (t : Tables)
    → Consistent t
    → has path t.paths ≡ true
    → (t' : Tables) × (delete_capio_path path t ≡ ok t')
      × Consistent t'
      × (has path t'.paths ≡ false)
      × ((j : ℤ) → find j t.descriptors ≡ some path → has j t'.files ≡ false)
      × ((j : ℤ) → find j t.descriptors ≢ some path → Unchanged j t t')
delete_capio_path-Consistent path t c tracked =
    let (fds, e) = tracked_there path t.paths tracked in
    let of_path = in_set path fds t c e in
    let (t', run, c', closed, kept) =
      delete_capio_fds-Consistent fds t c (c.sets path fds e)
        (λ j h. ground (arith, of_path j, h, c.opened j, has-find j t.descriptors)) in
    (
      record t' { paths = erase path t'.paths },
      delete_run path fds t t' e run,
      record {
        linked = linked-erase path t' c' (none_left path fds t t' c c' e closed kept);
        opened = c'.opened;
        stored = c'.stored;
        sets = SetsOf-erase path t'.paths c'.sets;
      },
      ground (arith, has-erase path path t'.paths, ==_refl path),
      (λ j h. closed j ((of_path j).1 h)),
      λ j h. kept j (ground (arith, of_path j, h)),
    )
