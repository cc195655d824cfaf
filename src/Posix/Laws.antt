-- ===== src/Posix/Laws.antt =====
-- What the client's handlers of src/posix/handlers do to the tables.
use capio_v.Prelude.{ℕ, ◌≡◌, refl, true, false, none, some, [], ◌∷◌, ◌++◌, arith}
use capio_v.Prelude.Int.{ℤ, negsuc}
use capio_v.Prelude.Eq.{Text, text_eq, int_eq, contains, ==_refl}
use capio_v.Prelude.Assoc.{find, has}
use capio_v.Prelude.Result.{ok}
use capio_v.Path.{is_absolute}
use capio_v.FdTable.{Tables, get_dir_path, exists_capio_fd, get_capio_fd_path}
use capio_v.FdTable.Consistent.{Consistent, descriptor_there, delete_capio_fd-Consistent}
use capio_v.Requests.{close_request}
use mathlib.Core.List.{map}
use capio_v.Cache.{flush, write_text}
use capio_v.Cache.Writes.{flushed}
use capio_v.Posix.{
  flush_writes, drain, skip, done, Client, Paths, Kernel, is_prefix, is_capio_path, is_directory,
  compute_abs_path, announce, track, openat, open_file, request, with_tables, close,
}

no_path :
    (p : Paths) (t : Tables) (pathname : Text)
    → is_absolute pathname ≡ false
    → p.fstat (negsuc 0) ≡ none
    → p.readlink (negsuc 0) ≡ []
    → find (negsuc 0) t.descriptors ≡ none
    → compute_abs_path p t pathname (negsuc 0) ≡ []
unfolding compute_abs_path is_directory get_dir_path
no_path p t pathname relative no_stat no_link untracked =
    ground (arith, relative, no_stat, no_link, untracked, ==_refl {A = Text} [])

empty_is_no_capio_path :
    (p : Paths) → p.lexically_relative [] p.capio_dir ≡ [] → is_capio_path p [] ≡ false
unfolding is_capio_path is_prefix
empty_is_no_capio_path p nowhere = rw nowhere (ground (arith, ==_refl {A = Text} []))

-- When fstat and readlink fail on the descriptor -1, as they do, and the empty path lies nowhere
-- relative to the CAPIO directory, then open on a relative path tracks nothing and sends nothing,
-- wherever the process stands.
pub open_relative :
    (p : Paths) (k : Kernel) (pathname : Text) (flags : ℕ) (c : Client)
    → is_absolute pathname ≡ false
    → p.fstat (negsuc 0) ≡ none
    → p.readlink (negsuc 0) ≡ []
    → find (negsuc 0) c.tables.descriptors ≡ none
    → p.lexically_relative [] p.capio_dir ≡ []
    → open_file p k pathname flags c ≡ ok (c, done k.result)
unfolding open_file openat announce track
open_relative p k pathname flags c relative no_stat no_link untracked nowhere =
    rw (no_path p c.tables pathname relative no_stat no_link untracked)
      (ground (arith, empty_is_no_capio_path p nowhere))

-- Closing a tracked descriptor of tables that agree succeeds, sends what the write cache holds back
-- and then the close request of its path, and leaves tables that agree, without the descriptor; the
-- buffers for responses stay, and the kernel then closes the descriptor.
pub close-Consistent :
    (fd : ℤ) (c : Client)
    → Consistent c.tables
    → has fd c.tables.files ≡ true
    → (path : Text) × (c' : Client) × (find fd c.tables.descriptors ≡ some path)
      × (close fd c ≡ ok (c', skip))
      × (c'.requests
          ≡ (c.requests ++ map write_text (flush c.tid c.writes).sent)
            ++ close_request path c.tid ∷ [])
      × (c'.writes.current_size ≡ 0)
      × Consistent c'.tables
      × (has fd c'.tables.files ≡ false)
      × (contains c.tid c.listeners ≡ contains c'.tid c'.listeners)
unfolding close request flush_writes drain exists_capio_fd get_capio_fd_path
close-Consistent fd c consistent tracked =
    let (path, d) = descriptor_there fd c.tables consistent tracked in
    let (t', run, consistent', gone, _) =
      delete_capio_fd-Consistent fd c.tables consistent tracked in
    (
      path,
      with_tables (request (close_request path c.tid) (flush_writes c)) t',
      d,
      rw (tracked, d, run),
      refl,
      flushed c.tid c.writes,
      consistent',
      gone,
      refl,
    )
