-- ===== src/Snapshot.antt =====
-- src/posix/utils/snapshot.hpp: the tables of open files travel through shared memory from a
-- process to the program that it executes. One segment lists the descriptors; for each descriptor
-- one segment has its offset and flag, another its path. A thread's segments are a record; a
-- segment that is not there ends the process.
pub mod Says
pub mod Created
pub mod RoundTrip
use capio_v.Prelude.{ℕ, Bool, true, false, Option, none, some, List, [], ◌∷◌, ◌++◌}
use capio_v.Prelude.Int.{ℤ, negsuc, int_beq}
use capio_v.Prelude.Eq.{Text, int_eq}
use capio_v.Prelude.Assoc.{Assoc, find}
use capio_v.Prelude.Result.{Result, ok, err, err_exit, out_of_range, bad_address, ◌>>=◌, or_fault}
use capio_v.FdTable.{
  Tables, get_capio_fds, get_capio_fd_offset, get_capio_fd_cloexec, get_capio_fd_path, add_capio_fd,
}

-- p_shm[1] and p_shm[2]
pub record Info : Type 0 where
  pub offset : ℕ
  pub cloexec : Bool

-- the segments capio_snapshot_<tid>, capio_snapshot_<tid>_<fd> and capio_snapshot_path_<tid>_<fd>
pub record Segments : Type 0 where
  pub fd_shm : List ℤ
  pub infos : Assoc ℤ Info
  pub paths : Assoc ℤ Text

-- the -1 behind the descriptors
abbrev pub last_fd : ℤ
last_fd = negsuc 0

-- the loop of create_snapshot: the segments of these descriptors
unfoldable pub create_segments : List ℤ → Tables → Result (Assoc ℤ Info × Assoc ℤ Text)
create_segments [] t = ok ([], [])
create_segments (fd ∷ fds) t = do
  offset ← get_capio_fd_offset fd t
  cloexec ← get_capio_fd_cloexec fd t
  path ← get_capio_fd_path fd t
  rest ← create_segments fds t
  ok ((fd, record { offset = offset; cloexec = cloexec }) ∷ rest.0, (fd, path) ∷ rest.1)

-- the segments of these descriptors, if there are any
unfoldable pub create_for : List ℤ → Tables → Result (Option Segments)
create_for [] t = ok none
create_for (fd ∷ fds) t = do
  out ← create_segments (fd ∷ fds) t
  ok (some (record { fd_shm = (fd ∷ fds) ++ last_fd ∷ []; infos = out.0; paths = out.1 }))

unfoldable pub create_snapshot : Tables → Result (Option Segments)
create_snapshot t = create_for (get_capio_fds t) t

-- what the process reads at the address of a path after munmap, where the segment of the offset and
-- the flag may have been mapped in its place; none: the process is killed
abbrev pub Stale : Type 0
Stale = Text → Info → Option Text

-- The loop of initialize_from_snapshot, up to the -1: the segment of the path is unmapped before the
-- path is read.
unfoldable pub initialize_fds : Stale → List ℤ → Segments → Tables → Result Tables
initialize_fds stale [] s t = err out_of_range
initialize_fds stale (fd ∷ fds) s t = elim (int_beq fd last_fd) [
  | true ↦ ok t
  | false ↦ do
    path ← or_fault err_exit (find fd s.paths)
    info ← or_fault err_exit (find fd s.infos)
    path_shm ← or_fault bad_address (stale path info)
    initialize_fds stale fds s (add_capio_fd path_shm fd info.offset info.cloexec t)
]

unfoldable pub initialize_from_snapshot : Stale → Segments → Tables → Result Tables
initialize_from_snapshot stale s t = initialize_fds stale s.fd_shm s t

-- get_fd_snapshot and what `init` of src/posix/libcapio_posix.cpp makes of it
unfoldable pub resume : Stale → Option Segments → Tables → Result Tables
resume stale none t = ok t
resume stale (some s) t = initialize_from_snapshot stale s t
