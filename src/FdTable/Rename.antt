-- ===== src/FdTable/Rename.antt =====
-- rename_capio_path of src/posix/utils/filesystem.hpp.
use capio_v.Prelude.{
  ◌≡◌, refl, sym, ◌∙◌, ◌↔◌, true, false, some, List, [], ◌∷◌, arith, inl, inr, Option-cases,
  if◌then◌else◌,
}
use capio_v.Prelude.Int.{ℤ, int_beq_iff}
use capio_v.Prelude.Eq.{Text, text_eq, int_eq, ◌==◌, contains, text_beq_iff, ==_refl}
use capio_v.Prelude.Assoc.{
  Assoc, find, has, emplace, update, erase, has-find, find-emplace, find-update, find-erase,
  has-erase, has-update,
}
use capio_v.Prelude.Result.{ok}
use capio_v.FdTable.{Tables, rename_capio_path, assign_all}
use capio_v.FdTable.Consistent.{Consistent}
use capio_v.FdTable.Held.{held, tracked_there, SetsOf, holds, has_path}

-- Assigning a path to descriptors that all are there succeeds and changes just these.
assign_all_lem :
    (fds : List ℤ) (newpath : Text) (d : Assoc ℤ Text)
    → ((j : ℤ) → contains j fds ≡ true → has j d ≡ true)
    → (d' : Assoc ℤ Text) × (assign_all fds newpath d ≡ ok d')
      × ((j : ℤ) → find j d' ≡ (if contains j fds then some newpath else find j d))
      × ((j : ℤ) → has j d' ≡ has j d)
unfolding assign_all contains
assign_all_lem [] newpath d there = (d, refl, (λ j. refl), λ j. refl)
assign_all_lem (fd ∷ fds) newpath d there =
    let d₁ = update fd (λ _. newpath) d in
    let (d', run, lookup, same) =
      assign_all_lem fds newpath d₁
        (λ j h. has-update fd j (λ _. newpath) d ∙ there j (ground arith)) in
    elim (Option-cases (find fd d)) [
      | inl e ↦ absurd (ground (arith, there fd, has-find fd d, ==_refl fd))
      | inr (old, e) ↦ (
        d',
        rw (e, assign_all) run,
        λ j. lookup j ∙ ground (arith, find-update fd j (λ _. newpath) d, e, int_beq_iff fd j),
        λ j. same j ∙ has-update fd j (λ _. newpath) d,
      )
    ]

holds-renamed :
    (old new q : Text) (j : ℤ) (entry : List ℤ) (paths : Assoc Text (List ℤ))
    → has new paths ≡ false
    → holds q j (emplace new entry (erase old paths))
      ≡ (if new == q then contains j entry else if old == q then false else holds q j paths)
unfolding holds
holds-renamed old new q j entry paths free = ground (
  arith,
  find-emplace new q entry (erase old paths),
  find-erase old q paths,
  has-erase old new paths,
)

find-moved :
    (old new : Text) (entry : List ℤ) (paths : Assoc Text (List ℤ))
    → has new paths ≡ false
    → find new (emplace new entry (erase old paths)) ≡ some entry
find-moved old new entry paths free =
    ground
      (arith, find-emplace new new entry (erase old paths), has-erase old new paths, ==_refl new)

SetsOf-renamed :
    (old new : Text) (entry : List ℤ) (paths : Assoc Text (List ℤ))
    → find old paths ≡ some entry
    → has new paths ≡ false
    → SetsOf paths
    → SetsOf (emplace new entry (erase old paths))
SetsOf-renamed old new entry paths e free h q fds found = ground (
  arith,
  found,
  find-emplace new q entry (erase old paths),
  find-erase old q paths,
  has-erase old new paths,
  h q fds,
  h old entry e,
)

linked-renamed :
    (old new : Text) (entry : List ℤ) (t : Tables) (d' : Assoc ℤ Text)
    → Consistent t
    → find old t.paths ≡ some entry
    → has new t.paths ≡ false
    → ((j : ℤ) → find j d' ≡ (if contains j entry then some new else find j t.descriptors))
    → (j : ℤ) (q : Text)
    → (find j d' ≡ some q) ↔ (holds q j (emplace new entry (erase old t.paths)) ≡ true)
linked-renamed old new entry t d' c e free lookup j q = (
  λ h. ground (
    arith,
    lookup j,
    holds-renamed old new q j entry t.paths free,
    held old j entry t.paths e,
    (c.linked j q).0,
    has_path q j t.paths,
    text_beq_iff new q,
    text_beq_iff old q,
  ),
  λ h. ground (
    arith,
    lookup j,
    holds-renamed old new q j entry t.paths free,
    held old j entry t.paths e,
    (c.linked j q).1,
    (c.linked j old).1,
    text_beq_iff new q,
    text_beq_iff old q,
  ),
)

rename_run :
    (old new : Text) (entry : List ℤ) (t : Tables) (d' : Assoc ℤ Text)
    → find old t.paths ≡ some entry
    → has new t.paths ≡ false
    → assign_all entry new t.descriptors ≡ ok d'
    → rename_capio_path old new t
      ≡ ok (record t { paths = emplace new entry (erase old t.paths); descriptors = d' })
unfolding rename_capio_path
rename_run old new entry t d' e free run =
    rw (e, rename_capio_path) (rw (find-moved old new entry t.paths free) (rw run refl))

-- Renaming a path to one that is not tracked keeps the agreement: the descriptors of the old path
-- have the new one, the others keep theirs.
pub rename_capio_path-Consistent :
    (old new : Text) (t : Tables)
    → Consistent t
    → has old t.paths ≡ true
    → has new t.paths ≡ false
    → (t' : Tables) × (rename_capio_path old new t ≡ ok t')
      × Consistent t'
      × ((j : ℤ) (q : Text)
          → find j t.descriptors ≡ some q
          → find j t'.descriptors ≡ some (if q == old then new else q))
rename_capio_path-Consistent old new t c tracked free =
    let (entry, e) = tracked_there old t.paths tracked in
    let (d', run, lookup, same) = assign_all_lem entry new t.descriptors (λ j h.
      ground (arith, held old j entry t.paths e, (c.linked j old).1, has-find j t.descriptors)) in
    (
      record t { paths = emplace new entry (erase old t.paths); descriptors = d' },
      rename_run old new entry t d' e free run,
      record {
        linked = linked-renamed old new entry t d' c e free lookup;
        opened = λ j. c.opened j ∙ sym (same j);
        stored = c.stored;
        sets = SetsOf-renamed old new entry t.paths e free c.sets;
      },
      λ j q h. ground (
        arith,
        lookup j,
        held old j entry t.paths e,
        (c.linked j old).0,
        (c.linked j old).1,
        text_beq_iff q old,
      ),
    )
