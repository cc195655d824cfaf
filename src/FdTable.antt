-- ===== src/FdTable.antt =====
-- The client's tables of the files that are open under the CAPIO directory:
-- src/posix/utils/filesystem.hpp and the set of descriptors of src/posix/utils/types.hpp. A
-- descriptor's offset is a cell that descriptors made by dup share: the cells are a list, a shared
-- pointer is an index into it. The two fields of a file that are always 0 are left out.
pub mod Sets
pub mod Held
pub mod Consistent
pub mod Dup
pub mod Rename
pub mod Unlink
pub mod Offsets
use capio_v.Prelude.{
  ℕ, zero, suc, Bool, true, false, Option, none, some, List, [], ◌∷◌, ◌++◌, length, if◌then◌else◌,
}
use capio_v.Prelude.Int.{ℤ}
use capio_v.Prelude.Eq.{Text, text_eq, int_eq, ◌==◌, contains}
use capio_v.Prelude.Assoc.{Assoc, find, has, emplace, update, erase, keys}
use capio_v.Prelude.Result.{Result, ok, err, out_of_range, or_fault, ◌>>=◌}

pub record File : Type 0 where
  pub cell : ℕ
  pub cloexec : Bool

pub record Tables : Type 0 where
  pub current_dir : Text
  pub descriptors : Assoc ℤ Text
  pub paths : Assoc Text (List ℤ)
  pub files : Assoc ℤ File
  pub offsets : List ℕ

-- std::unordered_set<int>
unfoldable pub insert_fd : ℤ → List ℤ → List ℤ
insert_fd fd fds = if contains fd fds then fds else fd ∷ fds

unfoldable pub erase_fd : ℤ → List ℤ → List ℤ
erase_fd fd [] = []
erase_fd fd (x ∷ fds) = let rest = erase_fd fd fds in if x == fd then rest else x ∷ rest

-- *cell = offset
unfoldable pub store : ℕ → ℕ → List ℕ → List ℕ
store cell offset [] = []
store zero offset (o ∷ os) = offset ∷ os
store (suc cell) offset (o ∷ os) = o ∷ store cell offset os

unfoldable pub load : ℕ → List ℕ → Option ℕ
load cell [] = none
load zero (o ∷ os) = some o
load (suc cell) (o ∷ os) = load cell os

-- init_filesystem, in the directory that getcwd gives
unfoldable pub init_filesystem : Text → Tables
init_filesystem cwd = record {
  current_dir = cwd;
  descriptors = [];
  paths = [];
  files = [];
  offsets = [];
}

unfoldable pub set_current_dir : Text → Tables → Tables
set_current_dir cwd t = record t { current_dir = cwd }

unfoldable pub set_capio_fd_cloexec : ℤ → Bool → Tables → Result Tables
set_capio_fd_cloexec fd is_cloexec t = elim (find fd t.files) [
  | none ↦ err out_of_range
  | some f ↦ ok (record t { files = update fd (λ g. record g { cloexec = is_cloexec }) t.files })
]

unfoldable pub add_capio_path : Text → Tables → Tables
add_capio_path path t = record t { paths = emplace path [] t.paths }

unfoldable pub add_capio_fd : Text → ℤ → ℕ → Bool → Tables → Tables
unfolding insert_fd add_capio_path
add_capio_fd path fd offset is_cloexec t =
    let t' = add_capio_path path t in
    record t' {
      paths = update path (insert_fd fd) t'.paths;
      descriptors = emplace fd path t'.descriptors;
      files = emplace fd (record { cell = length t'.offsets; cloexec = is_cloexec }) t'.files;
      offsets = t'.offsets ++ offset ∷ [];
    }

unfoldable pub delete_capio_fd : ℤ → Tables → Result Tables
unfolding erase_fd
delete_capio_fd fd t = do
  path ← or_fault out_of_range (find fd t.descriptors)
  fds ← or_fault out_of_range (find path t.paths)
  ok (record t {
    paths = update path (erase_fd fd) t.paths;
    descriptors = erase fd t.descriptors;
    files = erase fd t.files;
  })

unfoldable pub delete_capio_fds : List ℤ → Tables → Result Tables
delete_capio_fds [] t = ok t
delete_capio_fds (fd ∷ fds) t = do t' ← delete_capio_fd fd t; delete_capio_fds fds t'

unfoldable pub delete_capio_path : Text → Tables → Result Tables
delete_capio_path path t = elim (find path t.paths) [
  | none ↦ ok t
  | some fds ↦ do t' ← delete_capio_fds fds t; ok (record t' { paths = erase path t'.paths })
]

-- insert does nothing on a key that is there, so an open `newfd` keeps its file and its path.
unfoldable pub dup_capio_fd : ℤ → ℤ → Bool → Tables → Result Tables
unfolding insert_fd
dup_capio_fd oldfd newfd is_cloexec t = do
  path ← or_fault out_of_range (find oldfd t.descriptors)
  fds ← or_fault out_of_range (find path t.paths)
  file ← or_fault out_of_range (find oldfd t.files)
  t' ← set_capio_fd_cloexec newfd is_cloexec (record t {
    paths = update path (insert_fd newfd) t.paths;
    files = emplace newfd file t.files;
  })
  ok (record t' { descriptors = emplace newfd path t'.descriptors })

unfoldable pub exists_capio_fd : ℤ → Tables → Bool
exists_capio_fd fd t = has fd t.files

unfoldable pub get_capio_fd_cloexec : ℤ → Tables → Result Bool
get_capio_fd_cloexec fd t = do f ← or_fault out_of_range (find fd t.files); ok f.cloexec

unfoldable pub get_capio_fd_path : ℤ → Tables → Result Text
get_capio_fd_path fd t = or_fault out_of_range (find fd t.descriptors)

unfoldable pub get_capio_fd_offset : ℤ → Tables → Result ℕ
get_capio_fd_offset fd t = do
  f ← or_fault out_of_range (find fd t.files)
  or_fault out_of_range (load f.cell t.offsets)

unfoldable pub set_capio_fd_offset : ℤ → ℕ → Tables → Result Tables
set_capio_fd_offset fd offset t = do
  f ← or_fault out_of_range (find fd t.files)
  ok (record t { offsets = store f.cell offset t.offsets })

unfoldable pub get_capio_fds : Tables → List ℤ
get_capio_fds t = keys t.files

-- `link` is what readlink says of /proc/self/fd.
unfoldable pub get_dir_path : (ℤ → Text) → ℤ → Tables → Text
get_dir_path link dirfd t = elim (find dirfd t.descriptors) [ some path ↦ path | none ↦ link dirfd ]

unfoldable pub assign_all : List ℤ → Text → Assoc ℤ Text → Result (Assoc ℤ Text)
assign_all [] newpath descriptors = ok descriptors
assign_all (fd ∷ fds) newpath descriptors = elim (find fd descriptors) [
  | none ↦ err out_of_range
  | some _ ↦ assign_all fds newpath (update fd (λ _. newpath) descriptors)
]

-- A node that is extracted is inserted again only if its new key is free; else it is dropped.
unfoldable pub rename_capio_path : Text → Text → Tables → Result Tables
unfolding assign_all
rename_capio_path oldpath newpath t = elim (find oldpath t.paths) [
  | none ↦ ok t
  | some entry ↦ do
    let moved = emplace newpath entry (erase oldpath t.paths)
    fds ← or_fault out_of_range (find newpath moved)
    descriptors ← assign_all fds newpath t.descriptors
    ok (record t { paths = moved; descriptors = descriptors })
]
