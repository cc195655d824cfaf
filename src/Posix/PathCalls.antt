-- ===== src/Posix/PathCalls.antt =====
-- open, rename and unlink of src/posix/handlers, on tables that agree.
use mathlib.Core.Path.{subst}
use capio_v.Prelude.{
  ℕ, ◌≡◌, refl, sym, Bool, true, false, not, ◌&&◌, ◌||◌, arith, Bool-cases, inl, inr, if◌then◌else◌,
}
use capio_v.Prelude.Int.{ℤ, pos, negsuc, leb_ℤ}
use capio_v.Prelude.Eq.{Text, text_eq, int_eq}
use capio_v.Prelude.Assoc.{has, has-find}
use capio_v.Prelude.Result.{ok}
use capio_v.FdTable.{Tables, rename_capio_path, delete_capio_path}
use capio_v.FdTable.Consistent.{Consistent, add_capio_fd-Consistent}
use capio_v.FdTable.Rename.{rename_capio_path-Consistent}
use capio_v.FdTable.Unlink.{delete_capio_path-Consistent}
use capio_v.Posix.{
  await, o_creat, drain, flush_writes, skip, done, Client, Paths, Kernel, is_prefix, is_capio_path,
  capio_absolute, compute_abs_path, announce, track, has_flag, o_cloexec, openat, request,
  with_tables, rename, unlink, unlinkat, capio_posix_realpath, einval,
}
use capio_v.Wire.{negative}
use capio_v.Requests.{create_request, open_request, rename_request}
use capio_v.Posix.Fine.{IsListening, Sound, Fine, Fine-if, Fine-ok, Fine-bind}

module _ (p : Paths) where
  -- The request of open is answered, and leaves the tables.
  announced :
      (path : Text) (flags : ℕ) (c : Client)
      → IsListening c
      → (c' : Client) × (announce p path flags c ≡ ok c') × (c'.tables ≡ c.tables) × IsListening c'
  unfolding announce await request flush_writes drain
  announced path flags c l = elim (Bool-cases (is_capio_path p path)) [
    | inl y ↦ elim (Bool-cases (has_flag o_creat flags)) [
      | inl f ↦ (request (create_request (negsuc 0) path c.tid) c, rw (y, f), refl, l)
      | inr f ↦
          (request (open_request (negsuc 0) path c.tid) (flush_writes c), rw (y, f, l), refl, l)
    ]
    | inr n ↦ (c, rw n, refl, l)
  ]

  track-Sound :
      (path : Text) (flags : ℕ) (fd : ℤ) (c : Client)
      → Sound c
      → has fd c.tables.files ≡ false
      → Sound (track p path flags fd c)
  unfolding track
  track-Sound path flags fd c (h, l) free =
      elim (Bool-cases (is_capio_path p path && leb_ℤ (pos 0) fd)) [
        | inl y ↦
            rw y
              ((add_capio_fd-Consistent path fd 0 (has_flag o_cloexec flags) c.tables h free).0, l)
        | inr n ↦ rw n (h, l)
      ]

  pub open-Fine :
      (k : Kernel) (dirfd : ℤ) (pathname : Text) (flags : ℕ) (c : Client)
      → Sound c
      → has k.result c.tables.files ≡ false
      → Fine (openat p k dirfd pathname flags c)
  unfolding openat
  open-Fine k dirfd pathname flags c (h, l) free =
      let path = compute_abs_path p c.tables pathname dirfd in
      let (c', e, same, l') = announced path flags c l in
      Fine-bind (announce p path flags c) _ c' e (
        Fine-ok _ (done k.result)
          (track-Sound path flags k.result c' (subst Consistent (sym same) h, l') (rw same free)))

  nothing_to_rename :
      (old new : Text) (t : Tables) → has old t.paths ≡ false → rename_capio_path old new t ≡ ok t
  unfolding rename_capio_path
  nothing_to_rename old new t absent = ground (arith, has-find old t.paths)

  renamed :
      (old new : Text) (t : Tables)
      → Consistent t
      → has new t.paths ≡ false
      → (b : Bool)
      → (t' : Tables) × ((if b then rename_capio_path old new t else ok t) ≡ ok t') × Consistent t'
  renamed old new t h free false = (t, refl, h)
  renamed old new t h free true = elim (Bool-cases (has old t.paths)) [
    | inl there ↦
        let (t', run, h', _) = rename_capio_path-Consistent old new t h there free in (t', run, h')
    | inr absent ↦ (t, nothing_to_rename old new t absent, h)
  ]

  requested-Sound :
      (b : Bool) (text : Text) (c : Client) → Sound c → Sound (if b then request text c else c)
  unfolding request
  requested-Sound true text c h = h
  requested-Sound false text c h = h

  pub rename-Fine :
      (oldpath newpath : Text) (c : Client)
      → Sound c
      → has (capio_absolute p c.tables newpath) c.tables.paths ≡ false
      → Fine (rename p oldpath newpath c)
  unfolding rename request
  rename-Fine oldpath newpath c h free =
      let old = capio_absolute p c.tables oldpath in
      let new = capio_absolute p c.tables newpath in
      let (t', run, h') = renamed old new c.tables h.0 free (is_capio_path p old) in
      Fine-if (is_prefix p old new) _ _ (λ _. Fine-ok c (done (negative einval)) h)
        λ _. Fine-bind _ _ t' run (
          Fine-ok _ skip (
            requested-Sound (is_capio_path p old || is_capio_path p new)
              (rename_request old new c.tid) (with_tables c t') (h', h.1)))

  nothing_to_delete :
      (path : Text) (t : Tables) → has path t.paths ≡ false → delete_capio_path path t ≡ ok t
  unfolding delete_capio_path
  nothing_to_delete path t absent = ground (arith, has-find path t.paths)

  deleted :
      (path : Text) (t : Tables)
      → Consistent t
      → (t' : Tables) × (delete_capio_path path t ≡ ok t') × Consistent t'
  deleted path t h = elim (Bool-cases (has path t.paths)) [
    | inl there ↦
        let (t', run, h', _, _, _) = delete_capio_path-Consistent path t h there in (t', run, h')
    | inr absent ↦ (t, nothing_to_delete path t absent, h)
  ]

  pub unlink-Fine : (pathname : Text) (c : Client) → Sound c → Fine (unlink p pathname c)
  unfolding unlink
  unlink-Fine pathname c h =
      let (t', run, h') = deleted pathname c.tables h.0 in
      Fine-if (not (is_capio_path p pathname)) _ _ (λ _. Fine-ok c skip h)
        λ _.
          Fine-bind (delete_capio_path pathname c.tables) _ t' run
            (Fine-ok (with_tables c t') skip (h', h.1))

  pub unlinkat-Fine : (pathname : Text) (c : Client) → Sound c → Fine (unlinkat p pathname c)
  unfolding unlinkat
  unlinkat-Fine pathname c h = unlink-Fine (capio_posix_realpath p c.tables pathname) c h
