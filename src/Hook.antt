-- ===== src/Hook.antt =====
-- src/posix/libcapio_posix.cpp: the table of the handlers and the hook that every system call of the
-- application goes through. The numbers of the system calls are the platform's: `number` gives the
-- one of a name, none where the platform does not define the name.
pub mod Dispatch
use capio_v.Prelude.{
  ℕ, suc, ◌+◌, Bool, true, false, not, Option, none, some, List, [], ◌∷◌, nat_beq, ltb,
  if◌then◌else◌,
}
use capio_v.Wire.{negative}
use capio_v.Posix.{Outcome, skip, done}
use capio_v.Prelude.Eq.{Text, codes, text_eq, ◌==◌}

-- the functions that the table names
pub data Handler : Type 0 where
  not_handled_handler access_handler chdir_handler fchmod_handler fchown_handler close_handler
        creat_handler dup_handler dup2_handler dup3_handler execve_handler exit_handler
        faccessat_handler fcntl_handler fgetxattr_handler not_implemented_handler fork_handler
        fstat_handler fstatfs_handler getcwd_handler getdents_handler getdents64_handler
        ioctl_handler lseek_handler lstat_handler mkdir_handler mkdirat_handler fstatat_handler
        open_handler openat_handler read_handler readv_handler rename_handler rmdir_handler
        stat_handler statx_handler unlink_handler unlinkat_handler write_handler writev_handler :
      Handler

-- the system calls whose numbers bound the table
abbrev pub captured : List Text
captured =
    codes "access"
    ∷ codes "chdir"
    ∷ codes "chmod"
    ∷ codes "chown"
    ∷ codes "close"
    ∷ codes "creat"
    ∷ codes "dup"
    ∷ codes "dup2"
    ∷ codes "dup3"
    ∷ codes "execve"
    ∷ codes "exit"
    ∷ codes "exit_group"
    ∷ codes "faccessat"
    ∷ codes "faccessat2"
    ∷ codes "fcntl"
    ∷ codes "fgetxattr"
    ∷ codes "flistxattr"
    ∷ codes "fork"
    ∷ codes "fstat"
    ∷ codes "fstatfs"
    ∷ codes "getcwd"
    ∷ codes "getdents"
    ∷ codes "getdents64"
    ∷ codes "getxattr"
    ∷ codes "ioctl"
    ∷ codes "lgetxattr"
    ∷ codes "lseek"
    ∷ codes "lstat"
    ∷ codes "mkdir"
    ∷ codes "mkdirat"
    ∷ codes "newfstatat"
    ∷ codes "open"
    ∷ codes "openat"
    ∷ codes "read"
    ∷ codes "readv"
    ∷ codes "rename"
    ∷ codes "rmdir"
    ∷ codes "stat"
    ∷ codes "statx"
    ∷ codes "unlink"
    ∷ codes "unlinkat"
    ∷ codes "write"
    ∷ codes "writev"
    ∷ []

-- the assignments of build_syscall_table, in their order
abbrev pub assignments : List (Text × Handler)
assignments =
    (codes "access", access_handler)
    ∷ (codes "chdir", chdir_handler)
    ∷ (codes "chmod", fchmod_handler)
    ∷ (codes "fchmod", fchmod_handler)
    ∷ (codes "fchmodat", fchmod_handler)
    ∷ (codes "chown", fchown_handler)
    ∷ (codes "fchown", fchown_handler)
    ∷ (codes "fchownat", fchown_handler)
    ∷ (codes "close", close_handler)
    ∷ (codes "creat", creat_handler)
    ∷ (codes "dup", dup_handler)
    ∷ (codes "dup2", dup2_handler)
    ∷ (codes "dup3", dup3_handler)
    ∷ (codes "execve", execve_handler)
    ∷ (codes "exit", exit_handler)
    ∷ (codes "exit_group", exit_handler)
    ∷ (codes "faccessat", faccessat_handler)
    ∷ (codes "faccessat2", faccessat_handler)
    ∷ (codes "fcntl", fcntl_handler)
    ∷ (codes "fgetxattr", fgetxattr_handler)
    ∷ (codes "flistxattr", not_implemented_handler)
    ∷ (codes "fork", fork_handler)
    ∷ (codes "fstat", fstat_handler)
    ∷ (codes "fstatfs", fstatfs_handler)
    ∷ (codes "getcwd", getcwd_handler)
    ∷ (codes "getdents", getdents_handler)
    ∷ (codes "getdents64", getdents64_handler)
    ∷ (codes "getxattr", not_implemented_handler)
    ∷ (codes "ioctl", ioctl_handler)
    ∷ (codes "lgetxattr", not_implemented_handler)
    ∷ (codes "lseek", lseek_handler)
    ∷ (codes "lstat", lstat_handler)
    ∷ (codes "mkdir", mkdir_handler)
    ∷ (codes "mkdirat", mkdirat_handler)
    ∷ (codes "newfstatat", fstatat_handler)
    ∷ (codes "open", open_handler)
    ∷ (codes "openat", openat_handler)
    ∷ (codes "read", read_handler)
    ∷ (codes "readv", readv_handler)
    ∷ (codes "rename", rename_handler)
    ∷ (codes "rmdir", rmdir_handler)
    ∷ (codes "stat", stat_handler)
    ∷ (codes "statx", statx_handler)
    ∷ (codes "unlink", unlink_handler)
    ∷ (codes "unlinkat", unlinkat_handler)
    ∷ (codes "write", write_handler)
    ∷ (codes "writev", writev_handler)
    ∷ []

abbrev pub enotsup : ℕ
enotsup = 95

-- not_handled_handler and not_implemented_handler
unfoldable pub not_handled : Outcome
not_handled = skip

unfoldable pub not_implemented : Outcome
not_implemented = done (negative enotsup)

-- the larger of two numbers
abbrev pub max : ℕ → ℕ → ℕ
max a b = if ltb a b then b else a

abbrev pub or_zero : Option ℕ → ℕ
or_zero none = 0
or_zero (some n) = n

-- whether a system call, if it is defined, has this number
abbrev pub is_number : Option ℕ → ℕ → Bool
is_number none n = false
is_number (some k) n = nat_beq k n

-- The call goes to the kernel, or to a handler.
pub data Hooked : Type 0 where
  to_kernel : Hooked
  calls : Handler → Hooked

module _ (number : Text → Option ℕ) where
  unfoldable pub largest : List Text → ℕ
  largest [] = 0
  largest (name ∷ names) = max (or_zero (number name)) (largest names)

  unfoldable pub capio_nr_syscalls : ℕ
  capio_nr_syscalls = 1 + largest captured

  -- the entry of a number after these assignments, over the entry before them
  unfoldable pub assigned : ℕ → List (Text × Handler) → Handler → Handler
  assigned n [] h = h
  assigned n ((name, g) ∷ rest) h = assigned n rest (if is_number (number name) n then g else h)

  unfoldable pub syscall_table : ℕ → Handler
  syscall_table n = assigned n assignments not_handled_handler

  -- `no_intercept` is syscall_no_intercept_flag, `capio_dir` the variable CAPIO_DIR
  unfoldable pub hook : Bool → Option Text → ℕ → Hooked
  hook no_intercept capio_dir n =
      if is_number (number (codes "futex")) n
      then to_kernel
      else if no_intercept
      then to_kernel
      else if not (ltb n capio_nr_syscalls)
      then to_kernel
      else elim capio_dir [ none ↦ to_kernel | some dir ↦ calls (syscall_table n) ]
