-- ===== src/Environment.antt =====
-- src/common/capio/env.hpp: what the environment variables set. getenv and realpath, like strtoull and from_chars, are the
-- library's. A function that keeps its answer in a static variable is its first call.
pub mod Directory
pub mod Caching
use capio_v.Prelude.{ℕ, Bool, Option, none, some, List, [], if◌then◌else◌}
use capio_v.Prelude.Eq.{Text, codes}
use capio_v.Prelude.Result.{Result, ok, err, err_exit, ◌>>=◌, or_fault}
use capio_v.Constants.{capio_default_workflow_name, capio_cache_line_size_default}
use capio_v.Prelude.Int.{ℤ, pos}
use capio_v.Cache.{WriteCache, new_write_cache}
use capio_v.Path.{◌/path◌}
use capio_v.Posix.Asking.{is_forbidden_path}

pub record Variables : Type 0 where
  pub getenv : Text → Option Text
  pub realpath : Text → Option Text
  pub strtoull : Text → ℕ
  pub from_chars : Text → Option ℤ

-- the loop over CAPIO_DIR_FORBIDDEN_PATHS
unfoldable pub allowed : Text → Result Text
allowed dir = if is_forbidden_path dir then err err_exit else ok dir

unfoldable pub get_capio_dir : Variables → Result Text
get_capio_dir v = do
  val ← or_fault err_exit (v.getenv (codes "CAPIO_DIR"))
  dir ← or_fault err_exit (v.realpath val)
  allowed dir

-- Where the variable is set, the path is never assigned.
unfoldable pub get_capio_metadata_path : Variables → Result Text
get_capio_metadata_path v = elim (v.getenv (codes "CAPIO_METADATA_DIR")) [
  | none ↦ do dir ← get_capio_dir v; ok (dir /path codes ".capio_metadata")
  | some val ↦ ok []
]

unfoldable pub get_capio_workflow_name : Variables → Text
get_capio_workflow_name v = elim (v.getenv (codes "CAPIO_WORKFLOW_NAME")) [
  | none ↦ capio_default_workflow_name
  | some tmp ↦ tmp
]

-- The level stays the one of the start if the text is no number, and is then set to 0.
unfoldable pub get_capio_log_level : Variables → ℤ
get_capio_log_level v = elim (v.getenv (codes "CAPIO_LOG_LEVEL")) [
  | none ↦ pos 0
  | some text ↦ elim (v.from_chars text) [ none ↦ pos 0 | some level ↦ level ]
]

unfoldable pub get_capio_write_cache_size : Variables → ℕ
get_capio_write_cache_size v = elim (v.getenv (codes "CAPIO_WRITER_CACHE_SIZE")) [
  | none ↦ capio_cache_line_size_default
  | some text ↦ v.strtoull text
]

-- the constructor of WriteRequestCache in src/posix/utils/cache.hpp
abbrev pub start_write_cache : Variables → WriteCache
start_write_cache v = new_write_cache (get_capio_write_cache_size v)
