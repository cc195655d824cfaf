-- ===== src/Posix/Asking.antt =====
-- The handlers of src/posix/handlers that only ask the server whether a call may proceed: access,
-- chdir, mkdir, the stat family, and the calls on a descriptor. A handler that returns any code but
-- 0 gives the call to the kernel. The request of consent waits for the server's answer; the wait
-- is not modelled, the look-up of the thread's buffer for responses is.
pub mod Asks
pub mod Consent
pub mod Forbidden
use capio_v.Prelude.{
  ℕ, nat_beq, ◌/◌, ◌%◌, Bool, true, false, not, ◌&&◌, ◌||◌, Option, none, some, List, [], ◌∷◌, ◌++◌,
  if◌then◌else◌,
}
use capio_v.Prelude.Int.{ℤ, pos, negsuc, int_beq}
use capio_v.Prelude.Eq.{Text, codes, text_eq, ◌==◌}
use capio_v.Prelude.Result.{Result, ok, ◌>>=◌}
use capio_v.Constants.{capio_dir_forbidden_paths}
use capio_v.Path.{◌/path◌, is_absolute, starts_with}
use capio_v.Requests.{consent_to_proceed_request, create_request}
use capio_v.FdTable.{get_capio_fd_path, get_dir_path, exists_capio_fd}
use capio_v.Wire.{negative}
use capio_v.Posix.{
  Client, Paths, Outcome, skip, done, Step, is_capio_path, capio_posix_realpath, is_directory,
  request, await, at_fdcwd, has_flag,
}

abbrev pub starts_with_any : Text → List Text → Bool
starts_with_any path [] = false
starts_with_any path (t ∷ ts) = starts_with path t || starts_with_any path ts

unfoldable pub is_forbidden_path : Text → Bool
is_forbidden_path path = starts_with_any path capio_dir_forbidden_paths

unfoldable pub consent : Text → Text → Client → Result Client
consent path source_func c = await (request (consent_to_proceed_request path c.tid source_func) c)

-- what the functions behind a handler return, with errno
pub data Verdict : Type 0 where
  request_skip : Verdict
  errno : ℕ → Verdict

-- `posix_return_value`
unfoldable pub posix_return_value : Verdict → Outcome
posix_return_value request_skip = skip
posix_return_value (errno e) = done (negative e)

-- the rest of a path below the directory that the descriptor is of; none: the call is left alone
unfoldable pub below_dirfd : Paths → Client → ℤ → Text → Option Text
below_dirfd p c dirfd path =
    let dir_path = get_dir_path p.readlink dirfd c.tables in
    if not (is_directory p dirfd)
    then none
    else if dir_path == []
    then none
    else some (p.lexically_normal (dir_path /path path))

-- `path`, resolved if it is relative
unfoldable pub resolved : Paths → Client → Text → Text
resolved p c path = if is_absolute path then path else capio_posix_realpath p c.tables path

unfoldable pub access : Paths → Text → Client → Step
access p pathname c =
    if is_forbidden_path pathname
    then ok (c, skip)
    else do c' ← consent (resolved p c pathname) (codes "access_handler") c; ok (c', skip)

-- the request of consent, where there is a path
unfoldable pub consent_to : Text → Client → Option Text → Result Client
consent_to name c none = ok c
consent_to name c (some path) = consent path name c

unfoldable pub faccessat : Paths → ℤ → Text → Client → Step
faccessat p dirfd pathname c =
    let name = codes "faccessat_handler" in
    let path = capio_posix_realpath p c.tables pathname in
    let target =
      if is_absolute pathname
      then some pathname
      else if int_beq dirfd at_fdcwd
      then (if path == [] then none else some path)
      else below_dirfd p c dirfd pathname in
    if is_forbidden_path pathname
    then ok (c, skip)
    else do c' ← consent_to name c target; ok (c', skip)

unfoldable pub chdir : Paths → Text → Client → Step
chdir p pathname c =
    if is_forbidden_path pathname
    then ok (c, skip)
    else do c' ← consent (resolved p c pathname) (codes "chdir_handler") c; ok (c', skip)

-- A call on a tracked descriptor asks for its path.
unfoldable pub on_descriptor : Text → ℤ → Client → Result Client
on_descriptor name fd c =
    if not (exists_capio_fd fd c.tables)
    then ok c
    else do path ← get_capio_fd_path fd c.tables; consent path name c

unfoldable pub fchmod : ℤ → Client → Step
fchmod fd c = do c' ← on_descriptor (codes "fchmod_handler") fd c; ok (c', skip)

unfoldable pub fchown : ℤ → Client → Step
fchown fd c = do c' ← on_descriptor (codes "fchown_handler") fd c; ok (c', skip)

unfoldable pub fcntl : ℤ → Client → Step
fcntl fd c = do c' ← on_descriptor (codes "fcntl_handler") fd c; ok (c', skip)

unfoldable pub fgetxattr : ℤ → Client → Step
fgetxattr fd c = do c' ← on_descriptor (codes "fgetxattr_handler") fd c; ok (c', skip)

unfoldable pub getdents : ℤ → Client → Step
getdents fd c = do c' ← on_descriptor (codes "getdents_handler_impl") fd c; ok (c', skip)

unfoldable pub ioctl : ℤ → Client → Step
ioctl fd c = do c' ← on_descriptor (codes "ioctl_handler") fd c; ok (c', skip)

unfoldable pub fstatfs : ℤ → Client → Step
fstatfs fd c = do c' ← on_descriptor (codes "fstatfs_handler") fd c; ok (c', skip)

unfoldable pub capio_fstat : ℤ → Client → Result (Client × Verdict)
capio_fstat fd c = do c' ← on_descriptor (codes "capio_fstat") fd c; ok (c', request_skip)

unfoldable pub capio_lstat : Paths → Text → Client → Result (Client × Verdict)
capio_lstat p pathname c = if is_forbidden_path pathname then ok (c, request_skip) else do
  c' ← if is_capio_path p pathname then consent pathname (codes "capio_lstat") c else ok c
  ok (c', request_skip)

abbrev pub enoent : ℕ
enoent = 2

abbrev pub enotdir : ℕ
enotdir = 20

unfoldable pub capio_lstat_wrapper : Paths → Text → Client → Result (Client × Verdict)
capio_lstat_wrapper p pathname c =
    let absolute_path = capio_posix_realpath p c.tables pathname in
    if is_forbidden_path pathname
    then ok (c, request_skip)
    else if absolute_path == []
    then ok (c, errno enoent)
    else capio_lstat p absolute_path c

abbrev pub at_empty_path : ℕ
at_empty_path = 4096

unfoldable pub capio_fstatat : Paths → ℤ → Text → ℕ → Client → Result (Client × Verdict)
capio_fstatat p dirfd pathname flags c =
    let dir_path = get_dir_path p.readlink dirfd c.tables in
    if is_forbidden_path pathname
    then ok (c, request_skip)
    else if (pathname == []) && has_flag at_empty_path flags
    then (if int_beq dirfd at_fdcwd
        then capio_lstat p c.tables.current_dir c
        else capio_fstat dirfd c)
    else if is_absolute pathname
    then capio_lstat p pathname c
    else if int_beq dirfd at_fdcwd
    then capio_lstat_wrapper p pathname c
    else if not (is_directory p dirfd)
    then ok (c, errno enotdir)
    else if dir_path == []
    then ok (c, request_skip)
    else capio_lstat p (p.lexically_normal (dir_path /path pathname)) c

-- the mask and the flags of statx, and its directory, are not used
unfoldable pub capio_statx : Paths → Text → Client → Result (Client × Verdict)
capio_statx p pathname c = if is_forbidden_path pathname then ok (c, request_skip) else do
  c' ← if is_capio_path p pathname then consent pathname (codes "capio_statx") c else ok c
  ok (c', request_skip)

-- the request to create, where there is a path and it is in the CAPIO directory
unfoldable pub create_in : Paths → Client → Option Text → Client
create_in p c none = c
create_in p c (some path) =
    if is_capio_path p path then request (create_request (negsuc 0) path c.tid) c else c

unfoldable pub capio_mkdirat : Paths → ℤ → Text → Client → Client × Verdict
capio_mkdirat p dirfd pathname c =
    let real = capio_posix_realpath p c.tables pathname in
    let path =
      if is_absolute pathname
      then some pathname
      else if int_beq dirfd at_fdcwd
      then (if real == [] then none else some real)
      else below_dirfd p c dirfd pathname in
    if is_forbidden_path pathname then (c, request_skip) else (create_in p c path, request_skip)

abbrev pub returned : Client × Verdict → Client × Outcome
returned (c, v) = (c, posix_return_value v)

-- fstat_handler, stat_handler and lstat_handler, fstatat_handler, statx_handler
unfoldable pub fstat : ℤ → Client → Step
fstat fd c = do out ← capio_fstat fd c; ok (returned out)

unfoldable pub stat : Paths → Text → Client → Step
stat p pathname c = do out ← capio_lstat_wrapper p pathname c; ok (returned out)

unfoldable pub fstatat : Paths → ℤ → Text → ℕ → Client → Step
fstatat p dirfd pathname flags c = do
  out ← capio_fstatat p dirfd pathname flags c
  ok (returned out)

unfoldable pub statx : Paths → Text → Client → Step
statx p pathname c = do out ← capio_statx p pathname c; ok (returned out)

unfoldable pub mkdir : Paths → Text → Client → Client × Outcome
mkdir p pathname c = returned (capio_mkdirat p at_fdcwd pathname c)

unfoldable pub mkdirat : Paths → ℤ → Text → Client → Client × Outcome
mkdirat p dirfd pathname c = returned (capio_mkdirat p dirfd pathname c)

-- rmdir_handler
unfoldable pub rmdir : Text → Client → Client × Outcome
rmdir pathname c = (c, posix_return_value request_skip)

-- getcwd_handler
unfoldable pub getcwd : Client → Client × Outcome
getcwd c = (c, skip)
