-- ===== src/Disk.antt =====
-- The file system as the server sees it while it serves one request: the applications write to it,
-- the server only looks. A parameter of every definition that looks. Also get_file_size_if_exists
-- and getAndCreateMetadataPath of src/server/file-manager/file_manager_impl.hpp.
use capio_v.Prelude.{
  ℕ, suc, ◌-◌, Bool, true, false, ◌&&◌, Option, none, some, List, [], ◌∷◌, ◌++◌, length, drop, ltb,
  if◌then◌else◌,
}
use capio_v.Prelude.Int.{ℤ, pos}
use capio_v.Prelude.Eq.{Text, codes, text_eq, ◌==◌}
use capio_v.Prelude.Result.{Result, ok, err, out_of_range}
use capio_v.Path.{starts_with, ◌/path◌}

-- a file with its size, or a directory with the names in it
pub data Node : Type 0 where
  file : ℕ → Node
  directory : List Text → Node

-- get_capio_dir(), get_capio_metadata_path(), the file system; `fuel` bounds the recursion of
-- isCommitted in the model.
pub record Env : Type 0 where
  pub capio_dir : Text
  pub metadata_dir : Text
  pub node : Text → Option Node
  pub fuel : ℕ

unfoldable pub exists : Env → Text → Bool
exists env path = elim (env.node path) [ none ↦ false | some _ ↦ true ]

unfoldable pub is_directory : Env → Text → Bool
is_directory env path = elim (env.node path) [
  | none ↦ false
  | some n ↦ elim n [ file _ ↦ false | directory _ ↦ true ]
]

-- std::filesystem::file_size raises an exception on a directory.
unfoldable pub get_file_size_if_exists : Env → Text → Result ℕ
get_file_size_if_exists env path = elim (env.node path) [
  | none ↦ ok 0
  | some n ↦ elim n [ file size ↦ ok size | directory _ ↦ err out_of_range ]
]

abbrev pub token_extension : Text
token_extension = codes ".capio"

-- path().extension() == ".capio", of a file name: a name that is the extension alone has none
unfoldable pub has_token_extension : Text → Bool
has_token_extension name = let n = length name in ltb 6 n && drop (n - 6) name == token_extension

unfoldable pub count_files : List Text → ℕ
unfolding has_token_extension
count_files [] = 0
count_files (name ∷ names) =
    let rest = count_files names in if has_token_extension name then rest else suc rest

-- the loop over directory_iterator
unfoldable pub directory_count : Env → Text → ℤ
unfolding count_files
directory_count env path = elim (env.node path) [
  | none ↦ pos 0
  | some n ↦ elim n [ file _ ↦ pos 0 | directory names ↦ pos (count_files names) ]
]

-- path.substr(path.find(capio_dir) + 1): all of it where capio_dir does not occur
unfoldable pub after_find : Text → Text → Option Text
after_find needle [] = none
after_find needle (c ∷ s) =
    let rest = after_find needle s in if starts_with (c ∷ s) needle then some s else rest

unfoldable pub relative_token : Text → Text → Text
unfolding after_find
relative_token capio_dir path = elim (after_find capio_dir path) [
  | none ↦ path ++ token_extension
  | some s ↦ s ++ token_extension
]

-- The path of the token of a file. That its parent directories are created is not modelled.
unfoldable pub metadata_path : Env → Text → Text
unfolding relative_token
metadata_path env path = env.metadata_dir /path relative_token env.capio_dir path
