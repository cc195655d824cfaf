-- ===== src/Snapshot/Says.antt =====
-- The tables of open files and what they say of a descriptor, src/posix/utils/snapshot.hpp.
use capio_v.Prelude.{
  ◌≡◌, sym, ◌∙◌, true, false, List, [], ◌∷◌, length, arith, inl, inr, Option-cases,
}
use capio_v.Prelude.Int.{ℤ, int_beq_iff}
use capio_v.Prelude.Eq.{Text, int_eq, text_eq, ◌==◌, contains}
use capio_v.Prelude.Assoc.{find, has, has-find, find-emplace}
use capio_v.Prelude.Result.{ok}
use capio_v.FdTable.{
  Tables, File, get_capio_fd_offset, get_capio_fd_cloexec, get_capio_fd_path, add_capio_fd,
  add_capio_path,
}
use capio_v.FdTable.Consistent.{Consistent, descriptor_there}
use capio_v.FdTable.Offsets.{offset_there}
use capio_v.FdTable.Sets.{load-append}
use capio_v.Snapshot.{Info}

-- no descriptor twice, as in the keys of an unordered_map
abbrev pub Distinct : List ℤ → Type 0
Distinct [] = Unit
Distinct (fd ∷ fds) = (contains fd fds ≡ false) × Distinct fds

-- The tables say the same of a descriptor.
pub record Same (fd : ℤ) (t t' : Tables) : Type 0 where
  pub path : get_capio_fd_path fd t' ≡ get_capio_fd_path fd t
  pub offset : get_capio_fd_offset fd t' ≡ get_capio_fd_offset fd t
  pub cloexec : get_capio_fd_cloexec fd t' ≡ get_capio_fd_cloexec fd t

-- The tables say this of a descriptor.
pub record Says (fd : ℤ) (path : Text) (info : Info) (t : Tables) : Type 0 where
  pub says_path : get_capio_fd_path fd t ≡ ok path
  pub says_offset : get_capio_fd_offset fd t ≡ ok info.offset
  pub says_cloexec : get_capio_fd_cloexec fd t ≡ ok info.cloexec

pub Same-trans : {fd : ℤ} {a b c : Tables} → Same fd a b → Same fd b c → Same fd a c
Same-trans ab bc = record {
  path = bc.path ∙ ab.path;
  offset = bc.offset ∙ ab.offset;
  cloexec = bc.cloexec ∙ ab.cloexec;
}

pub Says-Same :
    {fd : ℤ} {path : Text} {info : Info} {a b : Tables}
    → Says fd path info a
    → Says fd path info b
    → Same fd a b
Says-Same sa sb = record {
  path = sb.says_path ∙ sym sa.says_path;
  offset = sb.says_offset ∙ sym sa.says_offset;
  cloexec = sb.says_cloexec ∙ sym sa.says_cloexec;
}

-- A tracked descriptor of tables that agree has a path, an offset and a flag.
pub tracked-Says :
    (fd : ℤ) (t : Tables)
    → Consistent t
    → has fd t.files ≡ true
    → (path : Text) × (info : Info) × Says fd path info t
unfolding get_capio_fd_path get_capio_fd_cloexec
tracked-Says fd t c h =
    let (path, e) = descriptor_there fd t c h in
    let (offset, e') = offset_there fd t c h in
    elim (Option-cases (find fd t.files)) [
      | inl absent ↦ absurd (ground (arith, absent, has-find fd t.files))
      | inr (f, e'') ↦ (
        path,
        record { offset = offset; cloexec = f.cloexec },
        record {
          says_path = ground (arith, e);
          says_offset = e';
          says_cloexec = ground (arith, e'');
        },
      )
    ]

pub added-Says :
    (fd : ℤ) (path : Text) (info : Info) (t : Tables)
    → Consistent t
    → has fd t.files ≡ false
    → Says fd path info (add_capio_fd path fd info.offset info.cloexec t)
unfolding add_capio_fd add_capio_path get_capio_fd_path get_capio_fd_cloexec get_capio_fd_offset
added-Says fd path info t c free = record {
  says_path = ground (arith, free, c.opened fd, find-emplace fd fd path t.descriptors);
  says_offset = ground (
    arith,
    free,
    find-emplace fd fd new t.files,
    load-append t.offsets info.offset (length t.offsets),
    int_beq_iff fd fd,
  );
  says_cloexec = ground (arith, free, find-emplace fd fd new t.files, int_beq_iff fd fd);
}
  where
    new : File
    new = record { cell = length t.offsets; cloexec = info.cloexec }

pub others-Same :
    (fd j : ℤ) (path : Text) (info : Info) (t : Tables)
    → Consistent t
    → (fd == j) ≡ false
    → Same j t (add_capio_fd path fd info.offset info.cloexec t)
unfolding add_capio_fd add_capio_path get_capio_fd_path get_capio_fd_cloexec get_capio_fd_offset
others-Same fd j path info t c other = record {
  path = ground (arith, other, find-emplace fd j path t.descriptors);
  offset = elim (Option-cases (find j t.files)) [
    | inl e ↦ ground (arith, e, other, find-emplace fd j new t.files)
    | inr (f, e) ↦ ground (
      arith,
      e,
      other,
      find-emplace fd j new t.files,
      load-append t.offsets info.offset f.cell,
      c.stored j f e,
    )
  ];
  cloexec = ground (arith, other, find-emplace fd j new t.files);
}
  where
    new : File
    new = record { cell = length t.offsets; cloexec = info.cloexec }
