-- ===== src/FdTable/Offsets.antt =====
-- get_capio_fd_offset and set_capio_fd_offset of src/posix/utils/filesystem.hpp.
use capio_v.Prelude.{ℕ, ◌<◌, ◌≡◌, true, some, arith, length}
use capio_v.Prelude.Int.{ℤ}
use capio_v.Prelude.Eq.{int_eq}
use capio_v.Prelude.Assoc.{find, has}
use capio_v.Prelude.Result.{ok}
use capio_v.FdTable.{Tables, File, get_capio_fd_offset, set_capio_fd_offset, store}
use capio_v.FdTable.Sets.{length-store, load-store, load-some}
use capio_v.FdTable.Consistent.{Consistent, file_there}

pub offset_there :
    (fd : ℤ) (t : Tables)
    → Consistent t
    → has fd t.files ≡ true
    → (offset : ℕ) × (get_capio_fd_offset fd t ≡ ok offset)
unfolding get_capio_fd_offset
offset_there fd t c there =
    let (f, e) = file_there fd t there in
    let (o, l) = load-some f.cell t.offsets (c.stored fd f e) in (o, rw (e, l))

load_shared :
    (j : ℤ) (offset : ℕ) (t : Tables) (f g : File)
    → find j t.files ≡ some g
    → g.cell ≡ f.cell
    → f.cell < length t.offsets
    → get_capio_fd_offset j (record t { offsets = store f.cell offset t.offsets }) ≡ ok offset
unfolding get_capio_fd_offset
load_shared j offset t f g h same fits =
    rw h (ground (arith, load-store f.cell g.cell offset t.offsets fits))

same_file :
    (fd : ℤ) (t : Tables) (f f' g : File)
    → find fd t.files ≡ some f
    → find fd t.files ≡ some f'
    → g.cell ≡ f'.cell
    → g.cell ≡ f.cell
same_file fd t f f' g e k same = ground (arith, e, k, same)

-- Setting the offset of an open descriptor succeeds and keeps the agreement; every descriptor that
-- shares its cell then has that offset.
pub set_capio_fd_offset-Consistent :
    (fd : ℤ) (offset : ℕ) (t : Tables)
    → Consistent t
    → has fd t.files ≡ true
    → (t' : Tables) × (set_capio_fd_offset fd offset t ≡ ok t')
      × Consistent t'
      × ((j : ℤ) (f g : File)
          → find fd t.files ≡ some f
          → find j t.files ≡ some g
          → g.cell ≡ f.cell
          → get_capio_fd_offset j t' ≡ ok offset)
unfolding set_capio_fd_offset
set_capio_fd_offset-Consistent fd offset t c there =
    let (f, e) = file_there fd t there in
    (
      record t { offsets = store f.cell offset t.offsets },
      rw e,
      record {
        linked = c.linked;
        opened = c.opened;
        stored = λ j g h. rw (length-store f.cell offset t.offsets) (c.stored j g h);
        sets = c.sets;
      },
      λ j f' g k h same.
          load_shared j offset t f g h (same_file fd t f f' g e k same) (c.stored fd f e),
    )
