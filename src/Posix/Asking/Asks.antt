-- ===== src/Posix/Asking/Asks.antt =====
-- The calls of src/posix/handlers that ask the server for its consent.
use capio_v.Prelude.{ℕ, ◌≡◌, true, some}
use capio_v.Prelude.Int.{ℤ, negsuc}
use capio_v.Prelude.Eq.{Text, text_eq, int_eq}
use capio_v.Prelude.Assoc.{find}
use capio_v.Prelude.Result.{ok}
use capio_v.Requests.{create_request, consent_to_proceed_request}
use capio_v.Posix.{Client, Paths, Step, is_capio_path, request}
use capio_v.Posix.Asking.{
  access, faccessat, chdir, fchmod, fchown, fcntl, fgetxattr, getdents, ioctl, fstatfs, fstat, stat,
  fstatat, statx, mkdir, mkdirat, rmdir, getcwd,
}

-- a call of the process that changes no table
pub data Ask : Type 0 where
  accesses chdirs stats statxs mkdirs rmdirs : Text → Ask
  accesses_at mkdirs_at : ℤ → Text → Ask
  stats_at : ℤ → Text → ℕ → Ask
  chmods chowns controls xattrs lists ioctls statfses fstats : ℤ → Ask
  getcwds : Ask

abbrev pub ask : Paths → Ask → Client → Step
ask p (accesses path) c = access p path c
ask p (accesses_at dirfd path) c = faccessat p dirfd path c
ask p (chdirs path) c = chdir p path c
ask p (stats path) c = stat p path c
ask p (stats_at dirfd path flags) c = fstatat p dirfd path flags c
ask p (statxs path) c = statx p path c
ask p (mkdirs path) c = ok (mkdir p path c)
ask p (mkdirs_at dirfd path) c = ok (mkdirat p dirfd path c)
ask p (rmdirs path) c = ok (rmdir path c)
ask p (chmods fd) c = fchmod fd c
ask p (chowns fd) c = fchown fd c
ask p (controls fd) c = fcntl fd c
ask p (xattrs fd) c = fgetxattr fd c
ask p (lists fd) c = getdents fd c
ask p (ioctls fd) c = ioctl fd c
ask p (statfses fd) c = fstatfs fd c
ask p (fstats fd) c = fstat fd c
ask p getcwds c = ok (getcwd c)

-- access, faccessat and chdir ask for any path.
abbrev pub Unguarded : Ask → Type 0
Unguarded (accesses path) = Unit
Unguarded (accesses_at dirfd path) = Unit
Unguarded (chdirs path) = Unit
Unguarded _ = ⊥

-- the client behind a request of consent
abbrev pub asked : Text → Text → Client → Client
asked path name c = request (consent_to_proceed_request path c.tid name) c

-- what a call sends to the server
pub data Sent (p : Paths) (c : Client) (x : Ask) : Client → Type 0 where
  nothing : Sent p c x c
  inside : (path name : Text) → is_capio_path p path ≡ true → Sent p c x (asked path name c)
  tracked :
      (path name : Text) (fd : ℤ)
      → find fd c.tables.descriptors ≡ some path
      → Sent p c x (asked path name c)
  anywhere : (path name : Text) → Unguarded x → Sent p c x (asked path name c)
  creates :
      (path : Text)
      → is_capio_path p path ≡ true
      → Sent p c x (request (create_request (negsuc 0) path c.tid) c)
