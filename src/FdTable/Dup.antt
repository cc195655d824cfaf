-- ===== src/FdTable/Dup.antt =====
-- dup_capio_fd of src/posix/utils/filesystem.hpp.
use capio_v.Prelude.{◌<◌, ◌≡◌, ◌≢◌, Bool, true, false, some, length, arith, if◌then◌else◌}
use capio_v.Prelude.Int.{ℤ, int_beq_iff}
use capio_v.Prelude.Eq.{Text, text_eq, int_eq, ◌==◌, ==_refl}
use capio_v.Prelude.Assoc.{
  Assoc, find, has, emplace, update, has-find, find-emplace, find-update, has-emplace, has-update,
}
use capio_v.Prelude.Result.{ok}
use capio_v.FdTable.{Tables, File, insert_fd, dup_capio_fd, set_capio_fd_cloexec}
use capio_v.FdTable.Consistent.{Consistent, linked-add, descriptor_there, set_there, file_there}
use capio_v.FdTable.Held.{SetsOf-insert_fd, holds-insert_fd}

-- the files, with that of `newfd` added and marked
abbrev marked : ℤ → Bool → File → Assoc ℤ File → Assoc ℤ File
marked newfd is_cloexec file files =
    update newfd (λ g. record g { cloexec = is_cloexec }) (emplace newfd file files)

find-marked :
    (newfd j : ℤ) (is_cloexec : Bool) (file : File) (files : Assoc ℤ File)
    → has newfd files ≡ false
    → find j (marked newfd is_cloexec file files)
      ≡ (if newfd == j then some (record file { cloexec = is_cloexec }) else find j files)
find-marked newfd j is_cloexec file files free = ground (
  arith,
  find-update newfd j (λ g. record g { cloexec = is_cloexec }) (emplace newfd file files),
  find-emplace newfd j file files,
  int_beq_iff newfd j,
)

stored-marked :
    (newfd : ℤ) (is_cloexec : Bool) (file : File) (t : Tables)
    → Consistent t
    → file.cell < length t.offsets
    → has newfd t.files ≡ false
    → (j : ℤ) (f : File) → find j (marked newfd is_cloexec file t.files) ≡ some f
    → f.cell < length t.offsets
stored-marked newfd is_cloexec file t c fits free j f h =
    ground (arith, find-marked newfd j is_cloexec file t.files free, c.stored j f)

same_cell :
    (oldfd newfd : ℤ) (is_cloexec : Bool) (file f g : File) (files : Assoc ℤ File)
    → find oldfd files ≡ some file
    → has newfd files ≡ false
    → find oldfd files ≡ some f
    → find newfd (marked newfd is_cloexec file files) ≡ some g
    → g.cell ≡ f.cell
same_cell oldfd newfd is_cloexec file f g files k free kf kg =
    ground (arith, find-marked newfd newfd is_cloexec file files free, ==_refl newfd)

-- Duplicating an open descriptor to one that is free succeeds and keeps the agreement: the two have
-- one path and one offset cell.
pub dup_capio_fd-Consistent :
    (oldfd newfd : ℤ) (is_cloexec : Bool) (t : Tables)
    → Consistent t
    → has oldfd t.files ≡ true
    → has newfd t.files ≡ false
    → (t' : Tables) × (dup_capio_fd oldfd newfd is_cloexec t ≡ ok t')
      × Consistent t'
      × (find newfd t'.descriptors ≡ find oldfd t.descriptors)
      × ((f g : File)
          → find oldfd t.files ≡ some f
          → find newfd t'.files ≡ some g
          → g.cell ≡ f.cell)
unfolding dup_capio_fd set_capio_fd_cloexec
dup_capio_fd-Consistent oldfd newfd is_cloexec t c here free =
    let (path, d) = descriptor_there oldfd t c here in
    let (fds, e) = set_there path oldfd t c d in
    let (file, k) = file_there oldfd t here in
    (
      record t {
        paths = update path (insert_fd newfd) t.paths;
        descriptors = emplace newfd path t.descriptors;
        files = update newfd (λ g. record g { cloexec = is_cloexec }) (emplace newfd file t.files);
      },
      rw (d, e, k) (ground (arith, find-emplace newfd newfd file t.files, ==_refl newfd)),
      record {
        linked = linked-add path newfd t c free (ground (arith, has-find path t.paths));
        opened = λ j. ground (
          arith,
          c.opened j,
          has-update newfd j (λ g. record g { cloexec = is_cloexec }) (emplace newfd file t.files),
          has-emplace newfd j file t.files,
          has-emplace newfd j path t.descriptors,
        );
        stored =
            λ j f h. stored-marked newfd is_cloexec file t c (c.stored oldfd file k) free j f h;
        sets = SetsOf-insert_fd path newfd t.paths c.sets;
      },
      ground (arith, d, c.opened newfd, find-emplace newfd newfd path t.descriptors, ==_refl newfd),
      λ f g kf kg. same_cell oldfd newfd is_cloexec file f g t.files k free kf kg,
    )

-- Duplicating a tracked descriptor to one that is tracked on another path, in tables that agree,
-- succeeds, keeps the old path of that descriptor and the offset cell of its old file, whose
-- close-on-exec flag it sets, and leaves tables that do not agree.
pub dup_onto_open_breaks :
    (oldfd newfd : ℤ) (is_cloexec : Bool) (t : Tables) (path other : Text)
    → Consistent t
    → find oldfd t.descriptors ≡ some path
    → find newfd t.descriptors ≡ some other
    → path ≢ other
    → (t' : Tables) × (dup_capio_fd oldfd newfd is_cloexec t ≡ ok t')
      × (find newfd t'.descriptors ≡ some other)
      × (f : File) × (find newfd t.files ≡ some f)
      × (find newfd t'.files ≡ some (record f { cloexec = is_cloexec }))
      × ¬ Consistent t'
unfolding dup_capio_fd set_capio_fd_cloexec
dup_onto_open_breaks oldfd newfd is_cloexec t path other c old new differ =
    let (fds, e) = set_there path oldfd t c old in
    let (file, k) =
      file_there oldfd t (ground (arith, c.opened oldfd, has-find oldfd t.descriptors)) in
    let (taken, l) =
      file_there newfd t (ground (arith, c.opened newfd, has-find newfd t.descriptors)) in
    let kept : find newfd (emplace newfd path t.descriptors) ≡ some other =
      ground (arith, find-emplace newfd newfd path t.descriptors, has-find newfd t.descriptors) in
    (
      record t {
        paths = update path (insert_fd newfd) t.paths;
        descriptors = emplace newfd path t.descriptors;
        files = marked newfd is_cloexec file t.files;
      },
      rw (old, e, k)
          (ground (arith, find-emplace newfd newfd file t.files, has-find newfd t.files)),
      kept,
      taken,
      l,
      ground (
        arith,
        l,
        find-update newfd newfd (λ g. record g { cloexec = is_cloexec })
            (emplace newfd file t.files),
        find-emplace newfd newfd file t.files,
        has-find newfd t.files,
        ==_refl newfd,
      ),
      λ c'. absurd (
          ground (
            arith,
            (c'.linked newfd path).1,
            holds-insert_fd path path newfd newfd t.paths (ground (arith, has-find path t.paths)),
            ==_refl newfd,
            ==_refl path,
          )),
    )
