-- ===== src/Posix/Asking/Consent.antt =====
-- What the handlers of src/posix/handlers that only ask the server leave behind.
use capio_v.Prelude.{
  ℕ, ◌≡◌, refl, Bool, true, false, not, ◌&&◌, Option, none, some, [], Bool-cases, inl, inr,
  if◌then◌else◌, arith,
}
use capio_v.Prelude.Int.{ℤ, int_beq}
use capio_v.Prelude.Eq.{Text, codes, text_eq, int_eq, ◌==◌}
use capio_v.Prelude.Assoc.{has}
use capio_v.Prelude.Result.{Result, ok, ◌>>=◌}
use capio_v.Path.{◌/path◌, is_absolute}
use capio_v.FdTable.{exists_capio_fd, get_capio_fd_path, get_dir_path}
use capio_v.FdTable.Consistent.{Consistent, descriptor_there}
use capio_v.Posix.{
  Client, Paths, Outcome, skip, request, await, is_capio_path, capio_posix_realpath, is_directory,
  at_fdcwd, has_flag,
}
use capio_v.Posix.Asking.{
  is_forbidden_path, consent, Verdict, request_skip, errno, posix_return_value, below_dirfd,
  resolved, consent_to, create_in, access, faccessat, chdir, on_descriptor, fchmod, fchown, fcntl,
  fgetxattr, getdents, ioctl, fstatfs, capio_fstat, capio_lstat, capio_lstat_wrapper, capio_fstatat,
  capio_statx, capio_mkdirat, returned, fstat, stat, fstatat, statx, mkdir, mkdirat, rmdir, getcwd,
  enotdir, at_empty_path,
}
use capio_v.Posix.Fine.{IsListening, Sound}
use capio_v.Posix.Asking.Asks.{
  asked, Ask, ask, Unguarded, Sent, accesses, chdirs, stats, statxs, mkdirs, rmdirs, accesses_at,
  mkdirs_at, stats_at, chmods, chowns, controls, xattrs, lists, ioctls, statfses, fstats, getcwds,
  nothing, inside, tracked, anywhere, creates,
}

consent-asked :
    (path name : Text) (c : Client) → IsListening c → consent path name c ≡ ok (asked path name c)
unfolding consent await request
consent-asked path name c l = rw l

module _ (p : Paths) (x : Ask) where
  -- The call returns, and what it sends is one of the above.
  abbrev Answers : {B : Type 0} → Client → Result (Client × B) → Type 0
  Answers {B} c r = (out : Client × B) × (r ≡ ok out) × Sent p c x out.0

  Answers-if :
      {B : Type 0} (c : Client) (b : Bool) (r r' : Result (Client × B))
      → (b ≡ true → Answers c r)
      → (b ≡ false → Answers c r')
      → Answers c (if b then r else r')
  Answers-if c true r r' h h' = h refl
  Answers-if c false r r' h h' = h' refl

  Answers-ok : {B : Type 0} (c : Client) (out : Client × B) → Sent p c x out.0 → Answers c (ok out)
  Answers-ok c out h = (out, refl, h)

  -- a client, behind which the handler returns b
  Answers-bind :
      {B : Type 0} (c c' : Client) (b : B) (r : Result Client)
      → r ≡ ok c'
      → Sent p c x c'
      → Answers c (r >>= λ d. ok (d, b))
  Answers-bind c c' b r e sent = ((c', b), rw e refl, sent)

  consent_if-Answers :
      {B : Type 0} (path name : Text) (b : B) (c : Client)
      → IsListening c
      → Answers c
          ((if is_capio_path p path then consent path name c else ok c) >>= λ c'. ok (c', b))
  consent_if-Answers path name b c l = elim (Bool-cases (is_capio_path p path)) [
    | inl y ↦
        Answers-bind c (asked path name c) b _ (rw y (consent-asked path name c l))
          (inside path name y)
    | inr n ↦ Answers-bind c c b _ (rw n refl) nothing
  ]

  capio_lstat-Answers :
      (path : Text) (c : Client) → IsListening c → Answers c (capio_lstat p path c)
  unfolding capio_lstat
  capio_lstat-Answers path c l =
      Answers-if c (is_forbidden_path path) _ _ (λ _. Answers-ok c _ nothing)
        (λ _. consent_if-Answers path (codes "capio_lstat") request_skip c l)

  capio_statx-Answers :
      (path : Text) (c : Client) → IsListening c → Answers c (capio_statx p path c)
  unfolding capio_statx
  capio_statx-Answers path c l =
      Answers-if c (is_forbidden_path path) _ _ (λ _. Answers-ok c _ nothing)
        (λ _. consent_if-Answers path (codes "capio_statx") request_skip c l)

  capio_lstat_wrapper-Answers :
      (path : Text) (c : Client) → IsListening c → Answers c (capio_lstat_wrapper p path c)
  unfolding capio_lstat_wrapper
  capio_lstat_wrapper-Answers path c l =
      Answers-if c (is_forbidden_path path) _ _ (λ _. Answers-ok c _ nothing)
        (λ _.
          Answers-if c (capio_posix_realpath p c.tables path == []) _ _
            (λ _. Answers-ok c _ nothing)
            (λ _. capio_lstat-Answers (capio_posix_realpath p c.tables path) c l))

  Sent-if :
      (c : Client) (b : Bool) (a a' : Client)
      → (b ≡ true → Sent p c x a)
      → (b ≡ false → Sent p c x a')
      → Sent p c x (if b then a else a')
  Sent-if c true a a' h h' = h refl
  Sent-if c false a a' h h' = h' refl

  Sent-if_out :
      {B : Type 0} (c : Client) (b : Bool) (a a' : Client × B)
      → (b ≡ true → Sent p c x a.0)
      → (b ≡ false → Sent p c x a'.0)
      → Sent p c x (if b then a else a').0
  Sent-if_out c true a a' h h' = h refl
  Sent-if_out c false a a' h h' = h' refl

  capio_mkdirat-Sent :
      (dirfd : ℤ) (path : Text) (c : Client) → Sent p c x (capio_mkdirat p dirfd path c).0
  unfolding capio_mkdirat create_in
  capio_mkdirat-Sent dirfd path c =
      Sent-if_out c (is_forbidden_path path) _ _ (λ _. nothing) (λ _. made target)
    where
      real : Text
      real = capio_posix_realpath p c.tables path

      target : Option Text
      target =
          if is_absolute path
          then some path
          else if int_beq dirfd at_fdcwd
          then (if real == [] then none else some real)
          else below_dirfd p c dirfd path

      made : (o : Option Text) → Sent p c x (create_in p c o)
      made none = nothing
      made (some t) = Sent-if c (is_capio_path p t) _ _ (creates t) (λ _. nothing)

  anywhere-Answers :
      {B : Type 0} (path name : Text) (b : B) (c : Client)
      → IsListening c
      → Unguarded x
      → Answers c (consent path name c >>= λ c'. ok (c', b))
  anywhere-Answers path name b c l free =
      Answers-bind c (asked path name c) b _ (consent-asked path name c l) (anywhere path name free)

  faccessat-Answers :
      (dirfd : ℤ) (path : Text) (c : Client)
      → IsListening c
      → Unguarded x
      → Answers c (faccessat p dirfd path c)
  unfolding faccessat consent_to
  faccessat-Answers dirfd path c l free =
      Answers-if c (is_forbidden_path path) _ _ (λ _. Answers-ok c _ nothing) (λ _. to target)
    where
      real : Text
      real = capio_posix_realpath p c.tables path

      target : Option Text
      target =
          if is_absolute path
          then some path
          else if int_beq dirfd at_fdcwd
          then (if real == [] then none else some real)
          else below_dirfd p c dirfd path

      name : Text
      name = codes "faccessat_handler"

      to : (o : Option Text) → Answers c (consent_to name c o >>= λ c'. ok (c', skip))
      to none = Answers-ok c _ nothing
      to (some t) = anywhere-Answers t name skip c l free

  access-Answers :
      (path : Text) (c : Client) → IsListening c → Unguarded x → Answers c (access p path c)
  unfolding access
  access-Answers path c l free =
      Answers-if c (is_forbidden_path path) _ _ (λ _. Answers-ok c _ nothing)
        (λ _. anywhere-Answers (resolved p c path) (codes "access_handler") skip c l free)

  chdir-Answers :
      (path : Text) (c : Client) → IsListening c → Unguarded x → Answers c (chdir p path c)
  unfolding chdir
  chdir-Answers path c l free =
      Answers-if c (is_forbidden_path path) _ _ (λ _. Answers-ok c _ nothing)
        (λ _. anywhere-Answers (resolved p c path) (codes "chdir_handler") skip c l free)

  on_descriptor-Answers :
      {B : Type 0} (name : Text) (fd : ℤ) (b : B) (c : Client)
      → Sound c
      → Answers c (on_descriptor name fd c >>= λ c'. ok (c', b))
  unfolding on_descriptor exists_capio_fd get_capio_fd_path
  on_descriptor-Answers name fd b c (h, l) = elim (Bool-cases (has fd c.tables.files)) [
    | inl there ↦
        let (path, e) = descriptor_there fd c.tables h there in
        Answers-bind c (asked path name c) b _
          (ground (arith, there, e, consent-asked path name c l)) (tracked path name fd e)
    | inr absent ↦ Answers-bind c c b _ (ground (arith, absent)) nothing
  ]

  fstatat-Answers :
      (dirfd : ℤ) (path : Text) (flags : ℕ) (c : Client)
      → Sound c
      → Answers c (capio_fstatat p dirfd path flags c)
  unfolding capio_fstatat capio_fstat
  fstatat-Answers dirfd path flags c h =
      Answers-if c (is_forbidden_path path) _ _ (λ _. Answers-ok c _ nothing)
        (λ _.
          Answers-if c ((path == []) && has_flag at_empty_path flags) _ _
            (λ _.
              Answers-if c (int_beq dirfd at_fdcwd) _ _
                (λ _. capio_lstat-Answers c.tables.current_dir c h.1)
                (λ _. on_descriptor-Answers (codes "capio_fstat") dirfd request_skip c h))
            (λ _. named))
    where
      below : Text
      below = p.lexically_normal (get_dir_path p.readlink dirfd c.tables /path path)

      named : Answers c (
          if is_absolute path
          then capio_lstat p path c
          else if int_beq dirfd at_fdcwd
          then capio_lstat_wrapper p path c
          else if not (is_directory p dirfd)
          then ok (c, errno enotdir)
          else if get_dir_path p.readlink dirfd c.tables == []
          then ok (c, request_skip)
          else capio_lstat p below c)
      named =
          Answers-if c (is_absolute path) _ _ (λ _. capio_lstat-Answers path c h.1)
            (λ _.
              Answers-if c (int_beq dirfd at_fdcwd) _ _
                (λ _. capio_lstat_wrapper-Answers path c h.1)
                (λ _.
                  Answers-if c (not (is_directory p dirfd)) _ _ (λ _. Answers-ok c _ nothing)
                    (λ _.
                      Answers-if c (get_dir_path p.readlink dirfd c.tables == []) _ _
                        (λ _. Answers-ok c _ nothing) (λ _. capio_lstat-Answers below c h.1))))

  returned-Answers :
      (c : Client) (r : Result (Client × Verdict))
      → Answers c r
      → Answers c (r >>= λ out. ok (returned out))
  returned-Answers c r (out, e, sent) = (returned out, rw e refl, sent)

-- Every call of the process that CAPIO only watches returns without an exception where the tables
-- of open files agree and the thread has a buffer for responses, leaves the tables and the caches as they are, and sends the server at most
-- one request: to create a path in the CAPIO directory, or to consent to a path that is in the
-- CAPIO directory or is that of a tracked descriptor. Only access, faccessat and chdir ask for
-- consent to other paths.
pub ask-Answers :
    (p : Paths) (x : Ask) (c : Client)
    → Consistent c.tables
    → IsListening c
    → (out : Client × Outcome) × (ask p x c ≡ ok out) × Sent p c x out.0
unfolding stat fstatat statx mkdir mkdirat rmdir getcwd fstat fchmod fchown fcntl fgetxattr getdents
    ioctl fstatfs capio_fstat posix_return_value
ask-Answers p (accesses path) c h l = access-Answers p (accesses path) path c l tt
ask-Answers p (accesses_at dirfd path) c h l =
    faccessat-Answers p (accesses_at dirfd path) dirfd path c l tt
ask-Answers p (chdirs path) c h l = chdir-Answers p (chdirs path) path c l tt
ask-Answers p (stats path) c h l =
    returned-Answers p (stats path) c _ (capio_lstat_wrapper-Answers p (stats path) path c l)
ask-Answers p (stats_at dirfd path flags) c h l =
    returned-Answers p (stats_at dirfd path flags) c _
      (fstatat-Answers p (stats_at dirfd path flags) dirfd path flags c (h, l))
ask-Answers p (statxs path) c h l =
    returned-Answers p (statxs path) c _ (capio_statx-Answers p (statxs path) path c l)
ask-Answers p (mkdirs path) c h l =
    Answers-ok p (mkdirs path) c _ (capio_mkdirat-Sent p (mkdirs path) at_fdcwd path c)
ask-Answers p (mkdirs_at dirfd path) c h l =
    Answers-ok p (mkdirs_at dirfd path) c _
      (capio_mkdirat-Sent p (mkdirs_at dirfd path) dirfd path c)
ask-Answers p (rmdirs path) c h l = ((c, skip), refl, nothing)
ask-Answers p (chmods fd) c h l =
    on_descriptor-Answers p (chmods fd) (codes "fchmod_handler") fd skip c (h, l)
ask-Answers p (chowns fd) c h l =
    on_descriptor-Answers p (chowns fd) (codes "fchown_handler") fd skip c (h, l)
ask-Answers p (controls fd) c h l =
    on_descriptor-Answers p (controls fd) (codes "fcntl_handler") fd skip c (h, l)
ask-Answers p (xattrs fd) c h l =
    on_descriptor-Answers p (xattrs fd) (codes "fgetxattr_handler") fd skip c (h, l)
ask-Answers p (lists fd) c h l =
    on_descriptor-Answers p (lists fd) (codes "getdents_handler_impl") fd skip c (h, l)
ask-Answers p (ioctls fd) c h l =
    on_descriptor-Answers p (ioctls fd) (codes "ioctl_handler") fd skip c (h, l)
ask-Answers p (statfses fd) c h l =
    on_descriptor-Answers p (statfses fd) (codes "fstatfs_handler") fd skip c (h, l)
ask-Answers p (fstats fd) c h l =
    returned-Answers p (fstats fd) c _
      (on_descriptor-Answers p (fstats fd) (codes "capio_fstat") fd request_skip c (h, l))
ask-Answers p getcwds c h l = ((c, skip), refl, nothing)
