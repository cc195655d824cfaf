-- ===== src/Posix/Asking/Forbidden.antt =====
-- Paths below /proc/ and /sys/ in the handlers of src/posix/handlers.
use capio_v.Prelude.{◌≡◌, refl, true, Option, none, some, arith}
use capio_v.Prelude.Eq.{Text}
use capio_v.Prelude.Result.{ok}
use capio_v.Posix.{Client, Paths, skip}
use capio_v.Posix.Asking.{
  is_forbidden_path, posix_return_value, access, faccessat, chdir, capio_lstat_wrapper,
  capio_fstatat, capio_statx, capio_mkdirat, stat, fstatat, statx, mkdir, mkdirat, rmdir,
}
use capio_v.Posix.Asking.Asks.{
  accesses, chdirs, stats, statxs, mkdirs, rmdirs, accesses_at, mkdirs_at, chmods, chowns, controls,
  xattrs, lists, ioctls, statfses, fstats,
}
use capio_v.Posix.Asking.Asks.{Ask, stats_at, getcwds, ask}

-- the path that a call names
abbrev pub pathname : Ask → Option Text
pathname (accesses path) = some path
pathname (chdirs path) = some path
pathname (stats path) = some path
pathname (statxs path) = some path
pathname (mkdirs path) = some path
pathname (rmdirs path) = some path
pathname (accesses_at dirfd path) = some path
pathname (mkdirs_at dirfd path) = some path
pathname (stats_at dirfd path flags) = some path
pathname _ = none

-- A call that names a path below /proc/ or /sys/ goes to the kernel, and the server is not asked:
-- access, faccessat, chdir, stat, lstat, fstatat, statx, mkdir, mkdirat and rmdir.
pub forbidden_skips :
    (p : Paths) (x : Ask) (path : Text) (c : Client)
    → pathname x ≡ some path
    → is_forbidden_path path ≡ true
    → ask p x c ≡ ok (c, skip)
unfolding access faccessat chdir stat fstatat statx mkdir mkdirat rmdir posix_return_value
    capio_lstat_wrapper capio_fstatat capio_statx capio_mkdirat
forbidden_skips p (accesses t) path c e f = ground (arith, e, f)
forbidden_skips p (chdirs t) path c e f = ground (arith, e, f)
forbidden_skips p (stats t) path c e f = ground (arith, e, f)
forbidden_skips p (statxs t) path c e f = ground (arith, e, f)
forbidden_skips p (mkdirs t) path c e f = ground (arith, e, f)
forbidden_skips p (rmdirs t) path c e f = refl
forbidden_skips p (accesses_at dirfd t) path c e f = ground (arith, e, f)
forbidden_skips p (mkdirs_at dirfd t) path c e f = ground (arith, e, f)
forbidden_skips p (stats_at dirfd t flags) path c e f = ground (arith, e, f)
forbidden_skips p (chmods fd) path c e f = absurd (cc)
forbidden_skips p (chowns fd) path c e f = absurd (cc)
forbidden_skips p (controls fd) path c e f = absurd (cc)
forbidden_skips p (xattrs fd) path c e f = absurd (cc)
forbidden_skips p (lists fd) path c e f = absurd (cc)
forbidden_skips p (ioctls fd) path c e f = absurd (cc)
forbidden_skips p (statfses fd) path c e f = absurd (cc)
forbidden_skips p (fstats fd) path c e f = absurd (cc)
forbidden_skips p getcwds path c e f = absurd (cc)
