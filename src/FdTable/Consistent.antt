-- ===== src/FdTable/Consistent.antt =====
-- The agreement of the three tables of src/posix/utils/filesystem.hpp, under adding and deleting a
-- descriptor.
use capio_v.Prelude.{
  ℕ, suc, ◌<◌, ◌≡◌, ◌≢◌, refl, ◌↔◌, Bool, true, false, some, List, [], ◌∷◌, ◌++◌, length, arith,
  inl, inr, Option-cases, length-append,
}
use capio_v.Prelude.Int.{ℤ, int_beq_iff}
use capio_v.Prelude.Eq.{Text, text_eq, int_eq, text_beq_iff, ==_refl}
use capio_v.Prelude.Assoc.{
  find, has, emplace, update, erase, has-find, find-emplace, find-erase, has-emplace, has-erase,
}
use capio_v.Prelude.Result.{ok}
use capio_v.FdTable.{
  Tables, File, insert_fd, erase_fd, add_capio_path, add_capio_fd, delete_capio_fd, init_filesystem,
}
use capio_v.FdTable.Sets.{distinct-erase_fd}
use capio_v.FdTable.Held.{
  holds, SetsOf, SetsOf-emplace_empty, SetsOf-update, SetsOf-insert_fd, holds-emplace_empty,
  holds-insert_fd, holds-erase_fd, has_path,
}

-- A descriptor has a path exactly if the set of that path holds it; it has a file exactly if it
-- has a path; its offset is a cell that is there; no set has a descriptor twice.
pub record Consistent (t : Tables) : Type 0 where
  pub linked :
      (fd : ℤ) (path : Text) → (find fd t.descriptors ≡ some path) ↔ (holds path fd t.paths ≡ true)
  pub opened : (fd : ℤ) → has fd t.files ≡ has fd t.descriptors
  pub stored : (fd : ℤ) (f : File) → find fd t.files ≡ some f → f.cell < length t.offsets
  pub sets : SetsOf t.paths

-- what one descriptor and its path look like, after a new descriptor is linked to a path
pub linked-add :
    (p : Text) (fd : ℤ) (t : Tables)
    → Consistent t
    → has fd t.files ≡ false
    → has p t.paths ≡ true
    → (j : ℤ) (q : Text)
    → (find j (emplace fd p t.descriptors) ≡ some q)
      ↔ (holds q j (update p (insert_fd fd) t.paths) ≡ true)
linked-add p fd t c free known j q = (
  λ h. ground (
    arith,
    holds-insert_fd p q fd j t.paths known,
    find-emplace fd j p t.descriptors,
    c.opened fd,
    (c.linked j q).0,
    int_beq_iff fd j,
    text_beq_iff p q,
    has-find fd t.descriptors,
  ),
  λ h. ground (
    arith,
    holds-insert_fd p q fd j t.paths known,
    find-emplace fd j p t.descriptors,
    c.opened fd,
    (c.linked j q).1,
    int_beq_iff fd j,
    text_beq_iff p q,
    has-find fd t.descriptors,
  ),
)

linked-delete :
    (p : Text) (fd : ℤ) (t : Tables)
    → Consistent t
    → find fd t.descriptors ≡ some p
    → (j : ℤ) (q : Text)
    → (find j (erase fd t.descriptors) ≡ some q)
      ↔ (holds q j (update p (erase_fd fd) t.paths) ≡ true)
linked-delete p fd t c here j q = (
  λ h. ground (
    arith,
    holds-erase_fd p q fd j t.paths,
    find-erase fd j t.descriptors,
    (c.linked j q).0,
    (c.linked j p).0,
    int_beq_iff fd j,
    text_beq_iff p q,
  ),
  λ h. ground (
    arith,
    holds-erase_fd p q fd j t.paths,
    find-erase fd j t.descriptors,
    (c.linked j q).1,
    (c.linked j p).1,
    int_beq_iff fd j,
    text_beq_iff p q,
  ),
)

-- The tables of a process that starts agree.
pub init_filesystem-Consistent : (cwd : Text) → Consistent (init_filesystem cwd)
unfolding init_filesystem holds find has
init_filesystem-Consistent cwd = record {
  linked = λ fd path. (λ h. cc, λ h. cc);
  opened = λ fd. refl;
  stored = λ fd f h. absurd (cc);
  sets = λ path fds h. absurd (cc);
}

stored-emplace :
    (fd : ℤ) (new : File) (offset : ℕ) (t : Tables)
    → Consistent t
    → new.cell < suc (length t.offsets)
    → (j : ℤ) (f : File) → find j (emplace fd new t.files) ≡ some f
    → f.cell < length (t.offsets ++ offset ∷ [])
stored-emplace fd new offset t c fits j f h =
    let longer = length-append t.offsets (offset ∷ []) in
    elim (Option-cases (find j t.files)) [
      | inl e ↦ ground (arith, find-emplace fd j new t.files, has-find fd t.files)
      | inr (g, e) ↦
          ground
            (arith, find-emplace fd j new t.files, has-find fd t.files, c.stored j f, c.stored j g)
    ]

add_path-Consistent : (path : Text) (t : Tables) → Consistent t → Consistent (add_capio_path path t)
unfolding add_capio_path
add_path-Consistent path t c = record {
  linked = λ fd q. rw (holds-emplace_empty path q fd t.paths) (c.linked fd q);
  opened = c.opened;
  stored = c.stored;
  sets = SetsOf-emplace_empty path t.paths c.sets;
}

-- Adding a descriptor that has no file keeps the agreement, and gives the descriptor the path.
pub add_capio_fd-Consistent :
    (path : Text) (fd : ℤ) (offset : ℕ) (is_cloexec : Bool) (t : Tables)
    → Consistent t
    → has fd t.files ≡ false
    → Consistent (add_capio_fd path fd offset is_cloexec t)
      × (find fd (add_capio_fd path fd offset is_cloexec t).descriptors ≡ some path)
unfolding add_capio_fd add_capio_path
add_capio_fd-Consistent path fd offset is_cloexec t c free =
    let t₁ = add_capio_path path t in
    let c₁ = add_path-Consistent path t c in
    (
      record {
        linked =
            linked-add path fd t₁ c₁ free
              (ground (arith, has-emplace path path [] t.paths, ==_refl path));
        opened = λ j. ground (
          arith,
          c.opened j,
          has-emplace fd j (record { cell = length t.offsets; cloexec = is_cloexec }) t.files,
          has-emplace fd j path t.descriptors,
        );
        stored = λ j f h.
            stored-emplace fd (record { cell = length t.offsets; cloexec = is_cloexec }) offset t c
              (omega arith) j f h;
        sets = SetsOf-insert_fd path fd t₁.paths c₁.sets;
      },
      ground (arith, c.opened fd, find-emplace fd fd path t.descriptors, ==_refl fd),
    )

pub descriptor_there :
    (fd : ℤ) (t : Tables)
    → Consistent t
    → has fd t.files ≡ true
    → (p : Text) × (find fd t.descriptors ≡ some p)
descriptor_there fd t c here = elim (Option-cases (find fd t.descriptors)) [
  | inl e ↦ absurd (ground (arith, c.opened fd, has-find fd t.descriptors))
  | inr found ↦ found
]

pub set_there :
    (p : Text) (fd : ℤ) (t : Tables)
    → Consistent t
    → find fd t.descriptors ≡ some p
    → (fds : List ℤ) × (find p t.paths ≡ some fds)
set_there p fd t c d = elim (Option-cases (find p t.paths)) [
  | inl e ↦ absurd (ground (arith, has_path p fd t.paths ((c.linked fd p).0 d), has-find p t.paths))
  | inr found ↦ found
]

pub file_there :
    (fd : ℤ) (t : Tables) → has fd t.files ≡ true → (f : File) × (find fd t.files ≡ some f)
file_there fd t here = elim (Option-cases (find fd t.files)) [
  | inl e ↦ absurd (ground (arith, has-find fd t.files))
  | inr found ↦ found
]

-- Deleting an open descriptor succeeds and keeps the agreement: the descriptor is closed, and every
-- other one keeps its path and its file.
pub delete_capio_fd-Consistent :
    (fd : ℤ) (t : Tables)
    → Consistent t
    → has fd t.files ≡ true
    → (t' : Tables) × (delete_capio_fd fd t ≡ ok t')
      × Consistent t'
      × (has fd t'.files ≡ false)
      × ((j : ℤ)
          → fd ≢ j
          → (find j t'.descriptors ≡ find j t.descriptors) × (find j t'.files ≡ find j t.files))
unfolding delete_capio_fd
delete_capio_fd-Consistent fd t c here =
    let (path, d) = descriptor_there fd t c here in
    let (fds, e) = set_there path fd t c d in
    (
      record t {
        paths = update path (erase_fd fd) t.paths;
        descriptors = erase fd t.descriptors;
        files = erase fd t.files;
      },
      rw (d, e),
      record {
        linked = linked-delete path fd t c d;
        opened =
            λ j. ground (arith, c.opened j, has-erase fd j t.files, has-erase fd j t.descriptors);
        stored = λ j f h. ground (arith, find-erase fd j t.files, c.stored j f);
        sets = SetsOf-update path (erase_fd fd) t.paths (distinct-erase_fd fd) c.sets;
      },
      ground (arith, has-erase fd fd t.files, ==_refl fd),
      λ j ne. (
        ground (arith, find-erase fd j t.descriptors, int_beq_iff fd j),
        ground (arith, find-erase fd j t.files, int_beq_iff fd j),
      ),
    )
