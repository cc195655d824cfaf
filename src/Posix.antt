-- ===== src/Posix.antt =====
-- The client's handlers of system calls in src/posix/handlers that work on the tables of open
-- files: close, dup, open, lseek, read, write, rename, unlink. What the kernel answers is an
-- argument; `Outcome` is what the handler tells the interception library to do. The request of open waits for the server's
-- answer; the wait is not modelled, the look-up of the thread's buffer for responses is.
pub mod Laws
pub mod Fine
pub mod PathCalls
pub mod Calls
pub mod Runs
pub mod Asking
use mathlib.Core.List.{map}
use capio_v.Prelude.{
  ℕ, nat_beq, ◌/◌, ◌+◌, ◌%◌, ◌*◌, ◌^◌, Bool, true, false, not, ◌&&◌, ◌||◌, Option, none, some, List,
  [], ◌∷◌, ◌++◌, if◌then◌else◌,
}
use capio_v.Prelude.Int.{ℤ, pos, negsuc, int_beq, leb_ℤ}
use capio_v.Prelude.Eq.{Text, codes, text_eq, int_eq, ◌==◌, contains}
use capio_v.Prelude.Result.{Result, ok, err, out_of_range, ◌>>=◌}
use capio_v.Wire.{negative}
use capio_v.Path.{◌/path◌, is_absolute, starts_with, same_path}
use capio_v.Requests.{close_request, create_request, open_request, rename_request}
use capio_v.FdTable.{
  Tables, get_dir_path, add_capio_fd, delete_capio_fd, delete_capio_path, dup_capio_fd,
  exists_capio_fd, get_capio_fd_path, get_capio_fd_offset, set_capio_fd_offset, rename_capio_path,
}
use capio_v.Cache.{WriteCache, ReadCache, cache_write, cache_read, flush, write_text, read_text}

-- the call goes on to the kernel; or it is over with this result
pub data Outcome : Type 0 where
  skip : Outcome
  done : ℤ → Outcome

-- the process: its thread, its tables and caches, the threads with a buffer for responses, and the requests that it has sent, oldest first
pub record Client : Type 0 where
  pub tid : ℤ
  pub tables : Tables
  pub writes : WriteCache
  pub reads : ReadCache
  pub listeners : List ℤ
  pub requests : List Text

-- get_capio_dir(), what the C library and std::filesystem say of paths: realpath, fstat and
-- readlink of a descriptor (no answer: an error; readlink gives the empty path then)
pub record Paths : Type 0 where
  pub capio_dir : Text
  pub lexically_relative : Text → Text → Text
  pub lexically_normal : Text → Text
  pub realpath : Text → Option Text
  pub fstat : ℤ → Option Bool
  pub readlink : ℤ → Text

-- what a system call returns, and errno
pub record Kernel : Type 0 where
  pub result : ℤ
  pub errno : ℕ

abbrev pub Step : Type 0
Step = Result (Client × Outcome)

unfoldable pub is_prefix : Paths → Text → Text → Bool
is_prefix p path_1 path_2 =
    let relpath = p.lexically_relative path_2 path_1 in
    not (relpath == []) && not (starts_with relpath (codes ".."))

unfoldable pub is_capio_path : Paths → Text → Bool
is_capio_path p = is_prefix p p.capio_dir

abbrev pub with_tables : Client → Tables → Client
with_tables c t = record c { tables = t }

unfoldable pub request : Text → Client → Client
request text c = record c { requests = c.requests ++ text ∷ [] }

-- bufs_response->at(tid)->read(&res)
unfoldable pub await : Client → Result Client
await c = if contains c.tid c.listeners then ok c else err out_of_range

-- buf_requests->write of the calls that a cache has made; `sent` holds them during one operation
unfoldable pub drain : WriteCache → Client → Client
drain w c = record c {
  writes = record w { sent = [] };
  requests = c.requests ++ map write_text w.sent;
}

unfoldable pub drain_reads : ReadCache → Client → Client
drain_reads r c = record c {
  reads = record r { sent = [] };
  requests = c.requests ++ map read_text r.sent;
}

-- write_request_cache->flush(tid), before a close and an open request
unfoldable pub flush_writes : Client → Client
unfolding drain
flush_writes c = drain (flush c.tid c.writes) c

-- is_directory(int): the -1 that it returns when fstat fails is true as a bool
unfoldable pub is_directory : Paths → ℤ → Bool
is_directory p dirfd = elim (p.fstat dirfd) [ none ↦ true | some d ↦ d ]

unfoldable pub capio_posix_realpath : Paths → Tables → Text → Text
capio_posix_realpath p t pathname = elim (p.realpath pathname) [
  | some real ↦ real
  | none ↦
      let new_path = p.lexically_normal (t.current_dir /path pathname) in
      if is_absolute pathname then pathname else if is_capio_path p new_path then new_path else []
]

unfoldable pub capio_absolute : Paths → Tables → Text → Text
capio_absolute p t path = if is_absolute path then path else capio_posix_realpath p t path

abbrev pub at_fdcwd : ℤ
at_fdcwd = negsuc 99

unfoldable pub compute_abs_path : Paths → Tables → Text → ℤ → Text
compute_abs_path p t pathname dirfd =
    let dir_path = get_dir_path p.readlink dirfd t in
    if is_absolute pathname
    then pathname
    else if int_beq dirfd at_fdcwd
    then capio_posix_realpath p t pathname
    else if not (is_directory p dirfd)
    then []
    else if dir_path == []
    then []
    else p.lexically_normal (dir_path /path pathname)

-- the bit of a flag of open, O_CREAT or O_CLOEXEC
unfoldable pub has_flag : ℕ → ℕ → Bool
has_flag flag flags = nat_beq (flags / flag % 2) 1

abbrev pub o_creat : ℕ
o_creat = 64

abbrev pub o_cloexec : ℕ
o_cloexec = 524288

unfoldable pub close : ℤ → Client → Step
close fd c = if not (exists_capio_fd fd c.tables) then ok (c, skip) else do
  path ← get_capio_fd_path fd c.tables
  tables ← delete_capio_fd fd c.tables
  ok (with_tables (request (close_request path c.tid) (flush_writes c)) tables, skip)

unfoldable pub fail : Kernel → Outcome
fail k = done (negative k.errno)

unfoldable pub dup : Kernel → ℤ → Client → Step
dup k fd c =
    if not (exists_capio_fd fd c.tables)
    then ok (c, skip)
    else if int_beq k.result (negsuc 0)
    then ok (c, fail k)
    else do
      tables ← dup_capio_fd fd k.result false c.tables
      ok (with_tables c tables, done k.result)

unfoldable pub dup2 : Kernel → ℤ → ℤ → Client → Step
dup2 k fd fd2 c =
    if not (exists_capio_fd fd c.tables)
    then ok (c, skip)
    else if int_beq k.result (negsuc 0)
    then ok (c, fail k)
    else if int_beq fd k.result
    then ok (c, done k.result)
    else do
      tables ← dup_capio_fd fd k.result false c.tables
      ok (with_tables c tables, done k.result)

abbrev pub einval : ℕ
einval = 22

unfoldable pub dup3 : Kernel → ℤ → ℤ → ℕ → Client → Step
dup3 k fd fd2 flags c =
    if not (exists_capio_fd fd c.tables)
    then ok (c, skip)
    else if int_beq fd fd2
    then ok (c, done (negative einval))
    else if int_beq k.result (negsuc 0)
    then ok (c, fail k)
    else do
      tables ← dup_capio_fd fd k.result (has_flag o_cloexec flags) c.tables
      ok (with_tables c tables, done k.result)

-- the request that open sends before the kernel's call
unfoldable pub announce : Paths → Text → ℕ → Client → Result Client
announce p path flags c =
    if not (is_capio_path p path)
    then ok c
    else if has_flag o_creat flags
    then ok (request (create_request (negsuc 0) path c.tid) c)
    else await (request (open_request (negsuc 0) path c.tid) (flush_writes c))

-- what open does with the descriptor that the kernel returns
unfoldable pub track : Paths → Text → ℕ → ℤ → Client → Client
track p path flags fd c =
    if is_capio_path p path && leb_ℤ (pos 0) fd
    then with_tables c (add_capio_fd path fd 0 (has_flag o_cloexec flags) c.tables)
    else c

unfoldable pub openat : Paths → Kernel → ℤ → Text → ℕ → Client → Step
openat p k dirfd pathname flags c = do
  let path = compute_abs_path p c.tables pathname dirfd
  c' ← announce p path flags c
  ok (track p path flags k.result c', done k.result)

-- open hands over -1 where openat has its directory
unfoldable pub open_file : Paths → Kernel → Text → ℕ → Client → Step
open_file p k pathname flags c = openat p k (negsuc 0) pathname flags c

-- O_CREAT | O_WRONLY | O_TRUNC
unfoldable pub creat : Paths → Kernel → Text → Client → Step
creat p k pathname c = openat p k (negsuc 0) pathname 577 c

abbrev pub seek_cur : ℕ
seek_cur = 1

-- offsets are 64-bit words; the kernel makes the seek
unfoldable pub lseek : ℤ → ℕ → ℕ → Client → Step
lseek fd offset whence c = if not (exists_capio_fd fd c.tables) then ok (c, skip) else do
  current ← get_capio_fd_offset fd c.tables
  tables ←
      set_capio_fd_offset fd
        (if nat_beq whence seek_cur then (current + offset) % 2 ^ 64 else offset) c.tables
  ok (with_tables c tables, skip)

-- `response` is the server's answer, if it is asked
unfoldable pub read : (Text → Text) → ℕ → ℤ → ℕ → Client → Step
read moved response fd count c = if not (exists_capio_fd fd c.tables) then ok (c, skip) else do
  current ← get_capio_fd_offset fd c.tables
  path ← get_capio_fd_path fd c.tables
  let computed_offset = (current + count) % 2 ^ 64
  tables ← set_capio_fd_offset fd computed_offset c.tables
  reads ← cache_read moved response c.listeners path computed_offset c.tid fd c.reads
  ok (drain_reads reads (with_tables c tables), skip)

-- readv counts the entries of the vector, 16 bytes each, not the bytes that they ask for
unfoldable pub readv : (Text → Text) → ℕ → ℤ → ℕ → Client → Step
readv moved response fd iovcnt c = read moved response fd (iovcnt * 16) c

unfoldable pub write : ℤ → ℕ → Client → Step
write fd count c = if not (exists_capio_fd fd c.tables) then ok (c, skip) else do
  path ← get_capio_fd_path fd c.tables
  ok (drain (cache_write path c.tid fd count c.writes) c, skip)

-- writev reports the number of entries
unfoldable pub writev : ℤ → ℕ → Client → Step
writev fd iovcnt c = write fd iovcnt c

unfoldable pub rename : Paths → Text → Text → Client → Step
rename p oldpath newpath c =
    let old = capio_absolute p c.tables oldpath in
    let new = capio_absolute p c.tables newpath in
    let asks = is_capio_path p old || is_capio_path p new in
    if is_prefix p old new then ok (c, done (negative einval)) else do
      tables ← if is_capio_path p old then rename_capio_path old new c.tables else ok c.tables
      let c' = with_tables c tables
      ok (if asks then request (rename_request old new c.tid) c' else c', skip)

unfoldable pub unlink : Paths → Text → Client → Step
unlink p pathname c =
    if not (is_capio_path p pathname)
    then ok (c, skip)
    else do tables ← delete_capio_path pathname c.tables; ok (with_tables c tables, skip)

unfoldable pub unlinkat : Paths → Text → Client → Step
unlinkat p pathname c = unlink p (capio_posix_realpath p c.tables pathname) c
