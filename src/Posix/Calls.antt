-- ===== src/Posix/Calls.antt =====
-- The calls of a process, through the handlers of src/posix/handlers, on tables that agree.
use capio_v.Prelude.{
  nat_beq, ltb, if◌then◌else◌, sym, ◌∙◌, ℕ, ◌+◌, ◌%◌, ◌^◌, ◌≡◌, ◌⊎◌, Bool, true, false, not, arith,
  Bool-cases, inl, inr,
}
use capio_v.Prelude.Int.{ℤ, negsuc, int_beq}
use capio_v.Prelude.Eq.{Text, text_eq, int_eq, contains}
use capio_v.Prelude.Assoc.{has}
use capio_v.Prelude.Result.{ok, err, out_of_range, ◌>>=◌}
use capio_v.FdTable
use capio_v.FdTable.{
  Tables, File, store, load, exists_capio_fd, get_capio_fd_path, get_capio_fd_offset,
  set_capio_fd_offset, rename_capio_path, delete_capio_path,
}
use capio_v.FdTable.Consistent.{Consistent, descriptor_there}
use capio_v.FdTable.Dup.{dup_capio_fd-Consistent}
use capio_v.FdTable.Offsets.{offset_there, set_capio_fd_offset-Consistent}
use capio_v.Posix.{
  drain, drain_reads, Outcome, skip, done, Client, Paths, Kernel, Step, capio_absolute, openat,
  with_tables, close, dup, dup2, lseek, read, write, rename, unlink, unlinkat, fail,
}
use capio_v.Posix.Laws.{close-Consistent}
use capio_v.Cache.{ReadCache, cache_read, ask_server, answered, look_up, changed}
use capio_v.Constants.{ullong_max}
use capio_v.Posix.Fine.{IsListening, Sound, Fine, Fine-if, Fine-ok, Fine-bind}
use capio_v.Posix.PathCalls.{open-Fine, rename-Fine, unlink-Fine, unlinkat-Fine}

-- a call of the process, with what the kernel or the server answers
pub data Call : Type 0 where
  closes : ℤ → Call
  dups : Kernel → ℤ → Call
  dups_to : Kernel → ℤ → ℤ → Call
  opens : Kernel → ℤ → Text → ℕ → Call
  seeks : ℤ → ℕ → ℕ → Call
  reads : ℕ → ℤ → ℕ → Call
  writes : ℤ → ℕ → Call
  renames : Text → Text → Call
  unlinks unlinks_at : Text → Call

module _ (p : Paths) (moved : Text → Text) where
  abbrev pub call : Call → Client → Step
  call (closes fd) c = close fd c
  call (dups k fd) c = dup k fd c
  call (dups_to k fd fd2) c = dup2 k fd fd2 c
  call (opens k dirfd pathname flags) c = openat p k dirfd pathname flags c
  call (seeks fd offset whence) c = lseek fd offset whence c
  call (reads response fd count) c = read moved response fd count c
  call (writes fd count) c = write fd count c
  call (renames old new) c = rename p old new c
  call (unlinks pathname) c = unlink p pathname c
  call (unlinks_at pathname) c = unlinkat p pathname c

  -- A new descriptor of the kernel is not in the tables; a file is renamed to a path that is not
  -- tracked.
  abbrev pub Fits : Call → Client → Type 0
  Fits (dups k fd) c = has k.result c.tables.files ≡ false
  Fits (dups_to k fd fd2) c = (int_beq fd k.result ≡ true) ⊎ (has k.result c.tables.files ≡ false)
  Fits (opens k dirfd pathname flags) c = has k.result c.tables.files ≡ false
  Fits (renames old new) c = has (capio_absolute p c.tables new) c.tables.paths ≡ false
  Fits _ c = Unit

  dup-Fine :
      (fd new : ℤ) (is_cloexec : Bool) (o : Outcome) (c : Client)
      → Sound c
      → has fd c.tables.files ≡ true
      → has new c.tables.files ≡ false
      → Fine (
          FdTable.dup_capio_fd fd new is_cloexec c.tables >>= λ tables.
          ok (with_tables c tables, o))
  dup-Fine fd new is_cloexec o c h there free =
      let (t', run, h', _, _) = dup_capio_fd-Consistent fd new is_cloexec c.tables h.0 there free in
      Fine-bind (FdTable.dup_capio_fd fd new is_cloexec c.tables) _ t' run
        (Fine-ok (with_tables c t') o (h', h.1))

  seek-Fine :
      (fd : ℤ) (offset : ℕ) (c : Client)
      → Sound c
      → has fd c.tables.files ≡ true
      → Fine (set_capio_fd_offset fd offset c.tables >>= λ tables. ok (with_tables c tables, skip))
  seek-Fine fd offset c h there =
      let (t', run, h', _) = set_capio_fd_offset-Consistent fd offset c.tables h.0 there in
      Fine-bind (set_capio_fd_offset fd offset c.tables) _ t' run
        (Fine-ok (with_tables c t') skip (h', h.1))

  lseek-Fine : (fd : ℤ) (offset whence : ℕ) (c : Client) → Sound c → Fine (lseek fd offset whence c)
  unfolding lseek exists_capio_fd
  lseek-Fine fd offset whence c h =
      Fine-if (not (has fd c.tables.files)) _ _ (λ _. Fine-ok c skip h)
        λ tracked.
          let there : has fd c.tables.files ≡ true = ground (arith, tracked) in
          let (o, e) = offset_there fd c.tables h.0 there in
          Fine-bind (get_capio_fd_offset fd c.tables) _ o e (seek-Fine fd _ c h there)

  path_there :
      (fd : ℤ) (t : Tables)
      → Consistent t
      → has fd t.files ≡ true
      → (path : Text) × (get_capio_fd_path fd t ≡ ok path)
  unfolding get_capio_fd_path
  path_there fd t h there = let (path, d) = descriptor_there fd t h there in (path, rw d)

  cached :
      (response : ℕ) (path : Text) (end_of_read : ℕ) (fd : ℤ) (c : Client)
      → IsListening c
      → (r : ReadCache) × (cache_read moved response c.listeners path end_of_read c.tid fd c.reads
          ≡ ok r)
  unfolding cache_read ask_server
  cached response path end_of_read fd c l = elim (Bool-cases (changed path fd c.reads)) [
    | inl y ↦ rw y (answers (look_up path fd c.reads) (moved path))
    | inr n ↦ rw n (answers c.reads path)
  ]
    where
      answers :
          (known : ReadCache) (key : Text)
          → (r : ReadCache) × ((if nat_beq known.max_read ullong_max
                then ok known
                else if ltb known.max_read end_of_read
                then (if contains c.tid c.listeners
                    then ok (answered response key end_of_read c.tid fd known)
                    else err out_of_range)
                else ok known)
              ≡ ok r)
      answers known key = elim (Bool-cases (nat_beq known.max_read ullong_max)) [
        | inl y ↦ (known, rw y)
        | inr n ↦ elim (Bool-cases (ltb known.max_read end_of_read)) [
          | inl y' ↦ (answered response key end_of_read c.tid fd known, rw (n, y', l))
          | inr n' ↦ (known, rw (n, n'))
        ]
      ]

  read-Fine :
      (response : ℕ) (fd : ℤ) (count : ℕ) (c : Client)
      → Sound c
      → Fine (read moved response fd count c)
  unfolding read drain_reads exists_capio_fd
  read-Fine response fd count c h =
      Fine-if (not (has fd c.tables.files)) _ _ (λ _. Fine-ok c skip h)
        λ tracked.
          let there : has fd c.tables.files ≡ true = ground (arith, tracked) in
          let (o, e) = offset_there fd c.tables h.0 there in
          let (path, d) = path_there fd c.tables h.0 there in
          let end = (o + count) % 2 ^ 64 in
          let (t', run, h', _) = set_capio_fd_offset-Consistent fd end c.tables h.0 there in
          let (r, e') = cached response path end fd c h.1 in
          Fine-bind (get_capio_fd_offset fd c.tables) _ o e (
            Fine-bind (get_capio_fd_path fd c.tables) _ path d (
              Fine-bind (set_capio_fd_offset fd end c.tables) _ t' run (
                Fine-bind (cache_read moved response c.listeners path end c.tid fd c.reads) _ r e'
                  (Fine-ok _ skip (h', h.1)))))

  write-Fine : (fd : ℤ) (count : ℕ) (c : Client) → Sound c → Fine (write fd count c)
  unfolding write drain exists_capio_fd
  write-Fine fd count c h =
      Fine-if (not (has fd c.tables.files)) _ _ (λ _. Fine-ok c skip h)
        λ tracked.
          let (path, d) = path_there fd c.tables h.0 (ground (arith, tracked)) in
          Fine-bind (get_capio_fd_path fd c.tables) _ path d (Fine-ok _ skip h)

  not_tracked : (fd : ℤ) (c : Client) → has fd c.tables.files ≡ false → close fd c ≡ ok (c, skip)
  unfolding close exists_capio_fd
  not_tracked fd c absent = rw absent

  close-Fine : (fd : ℤ) (c : Client) → Sound c → Fine (close fd c)
  close-Fine fd c h = elim (Bool-cases (has fd c.tables.files)) [
    | inl there ↦
        let (path, c', _, run, _, _, h', _, same) = close-Consistent fd c h.0 there in
        (c', skip, run, (h', sym same ∙ h.1))
    | inr absent ↦ (c, skip, not_tracked fd c absent, h)
  ]

  dup_call-Fine :
      (k : Kernel) (fd : ℤ) (c : Client)
      → Sound c
      → has k.result c.tables.files ≡ false
      → Fine (dup k fd c)
  unfolding dup exists_capio_fd
  dup_call-Fine k fd c h free =
      Fine-if (not (has fd c.tables.files)) _ _ (λ _. Fine-ok c skip h)
        λ tracked.
          Fine-if (int_beq k.result (negsuc 0)) _ _ (λ _. Fine-ok c (fail k) h)
            λ _. dup-Fine fd k.result false (done k.result) c h (ground (arith, tracked)) free

  dup2-Fine :
      (k : Kernel) (fd fd2 : ℤ) (c : Client)
      → Sound c
      → (int_beq fd k.result ≡ true) ⊎ (has k.result c.tables.files ≡ false)
      → Fine (dup2 k fd fd2 c)
  unfolding dup2 exists_capio_fd
  dup2-Fine k fd fd2 c h fits =
      Fine-if (not (has fd c.tables.files)) _ _ (λ _. Fine-ok c skip h)
        λ tracked.
          Fine-if (int_beq k.result (negsuc 0)) _ _ (λ _. Fine-ok c (fail k) h)
            λ _.
              Fine-if (int_beq fd k.result) _ _ (λ _. Fine-ok c (done k.result) h)
                λ other. elim fits [
                  | inl same ↦ absurd (ground (arith, same, other))
                  | inr free ↦
                      dup-Fine fd k.result false (done k.result) c h (ground (arith, tracked)) free
                ]

  -- Each call returns, and keeps the client sound.
  pub call-Fine : (x : Call) (c : Client) → Sound c → Fits x c → Fine (call x c)
  call-Fine (closes fd) c h fits = close-Fine fd c h
  call-Fine (dups k fd) c h fits = dup_call-Fine k fd c h fits
  call-Fine (dups_to k fd fd2) c h fits = dup2-Fine k fd fd2 c h fits
  call-Fine (opens k dirfd pathname flags) c h fits = open-Fine p k dirfd pathname flags c h fits
  call-Fine (seeks fd offset whence) c h fits = lseek-Fine fd offset whence c h
  call-Fine (reads response fd count) c h fits = read-Fine response fd count c h
  call-Fine (writes fd count) c h fits = write-Fine fd count c h
  call-Fine (renames old new) c h fits = rename-Fine p old new c h fits
  call-Fine (unlinks pathname) c h fits = unlink-Fine p pathname c h
  call-Fine (unlinks_at pathname) c h fits = unlinkat-Fine p pathname c h
