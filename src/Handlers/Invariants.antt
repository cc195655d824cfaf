-- ===== src/Handlers/Invariants.antt =====
-- Properties that the primitive changes of the state keep, through the handlers and the request loop of
-- src/server/client-manager/request_handler_engine.hpp.
use capio_v.Prelude.{
  ℕ, Bool, true, false, not, Option, none, some, List, [], ◌∷◌, ltb, nat_beq, if◌then◌else◌, ◌&&◌,
  ◌||◌,
}
use capio_v.Prelude.Int.{ℤ, pos, negsuc}
use capio_v.Prelude.Eq.{Text, text_eq, ◌==◌}
use capio_v.Prelude.Result.{Result, ok, err, err_exit, bad_call, ◌>>=◌}
use capio_v.Path.{file_to_be_handled}
use capio_v.Constants.{
  capio_file_committed_on_close, capio_file_mode_no_update, capio_default_app_name,
}
use capio_v.Disk.{Env, exists, get_file_size_if_exists}
use capio_v.Engine.{add_producer, is_producer, get_commit_rule, get_fire_rule}
use capio_v.Clients.{get_app_name}
use capio_v.Wire.{scan_int, scan_word, scan_ullong}
use capio_v.FileManager.{
  Server, reply, add_thread_awaiting_creation, add_thread_awaiting_data, set_committed,
  set_committed_by, unlock_thread_awaiting_creation, is_committed,
}
use capio_v.Handlers.{
  on_close, close_handler, on_consent, consent_to_proceed_handler, on_create, create_handler,
  on_exit, exit_handler, on_handshake, handshake_anonymous_handler, handshake_named_handler,
  on_open, open_handler, may_read, on_read, read_handler, rename_handler, on_write, write_handler,
  read_next_request, request_handlers, dispatch, serve, start,
}
use capio_v.Handlers.Keeps.{
  Stable, After, After-ok, After-err, After-bind, After-if, After-reply, After-unlock_creation,
  After-check_and_unlock, After-set_committed, After-set_committed_by, increase_close_count-keeps,
}

module _ {ℓ} (P : Server → Type ℓ) (stable : Stable P) where
  add_creation-keeps :
      (path : Text) (tid : ℤ) (s : Server) → P s → P (add_thread_awaiting_creation path tid s)
  unfolding add_thread_awaiting_creation
  add_creation-keeps path tid s p = stable.queued s _ s.thread_awaiting_data p

  add_data-keeps :
      (path : Text) (tid : ℤ) (size : ℕ) (s : Server)
      → P s
      → P (add_thread_awaiting_data path tid size s)
  unfolding add_thread_awaiting_data
  add_data-keeps path tid size s p = stable.queued s s.thread_awaiting_file_creation _ p

  After-close :
      (env : Env) (tid : ℤ) (path : Text) (s : Server)
      → P s
      → After P stable (on_close env tid path s)
  unfolding on_close
  After-close env tid path s p =
      After-if P stable (not (file_to_be_handled env.capio_dir path)) (ok s) _
        (After-ok P stable s p)
        (After-if P stable (not (get_commit_rule path s.locations == capio_file_committed_on_close))
          (ok s) _ (After-ok P stable s p)
          (After-bind P stable (is_producer s.clients path tid s.locations) _ λ producer _.
            After-if P stable producer _ (ok s)
              (After-bind P stable (set_committed env path s) _ λ s' e. After-ok P stable _ (
                increase_close_count-keeps P stable env path s'
                  (After-set_committed P stable env path s p s' e)))
              (After-ok P stable s p)))

  After-consent :
      (env : Env) (tid : ℤ) (path : Text) (s : Server)
      → P s
      → After P stable (on_consent env tid path s)
  unfolding on_consent
  After-consent env tid path s p =
      After-if P stable (not (file_to_be_handled env.capio_dir path)) (reply tid 1 s) _
        (After-reply P stable tid 1 s p)
        (After-bind P stable (is_producer s.clients path tid s.locations) _ λ producer _.
          After-if P stable producer (reply tid 1 s) _ (After-reply P stable tid 1 s p) (
            After-bind P stable (is_committed env s path) _ λ committed _.
              After-if P stable
                (exists env path
                  && (committed || (get_fire_rule path s.locations == capio_file_mode_no_update)))
                (reply tid 1 s) _ (After-reply P stable tid 1 s p)
                (After-ok P stable _ (add_data-keeps path tid 0 s p))))

  After-create :
      (env : Env) (tid : ℤ) (path : Text) (s : Server)
      → P s
      → After P stable (on_create env tid path s)
  unfolding on_create
  After-create env tid path s p =
      After-bind P stable (unlock_thread_awaiting_creation path s) _ λ s' e.
        After-bind P stable (get_app_name tid s'.clients) _ λ name _.
          After-bind P stable (add_producer path name s'.locations) _ λ l el.
            After-ok P stable _
              (stable.located path name s' l el (After-unlock_creation P stable path s p s' e))

  After-exit : (env : Env) (tid : ℤ) (s : Server) → P s → After P stable (on_exit env tid s)
  unfolding on_exit
  After-exit env tid s p = After-bind P stable (set_committed_by env tid s) _ λ s' e.
      After-ok P stable _ (stable.removed tid s' (After-set_committed_by P stable env tid s p s' e))

  After-open :
      (env : Env) (tid : ℤ) (path : Text) (s : Server)
      → P s
      → After P stable (on_open env tid path s)
  unfolding on_open
  After-open env tid path s p =
      After-if P stable (exists env path) (reply tid 1 s) _ (After-reply P stable tid 1 s p) (
        After-bind P stable (is_producer s.clients path tid s.locations) _ λ producer _.
          After-if P stable producer (reply tid 1 s) _ (After-reply P stable tid 1 s p)
            (After-ok P stable _ (add_creation-keeps path tid s p)))

  After-read :
      (env : Env) (tid : ℤ) (path : Text) (end_of_read : ℕ) (s : Server)
      → P s
      → After P stable (on_read env tid path end_of_read s)
  unfolding on_read
  After-read env tid path end_of_read s p =
      After-if P stable (not (file_to_be_handled env.capio_dir path)) (reply tid 1 s) _
        (After-reply P stable tid 1 s p)
        (After-bind P stable (is_committed env s path) _ λ committed _.
          After-bind P stable (get_file_size_if_exists env path) _ λ size _.
            After-bind P stable (may_read env tid path end_of_read size committed s) _ λ go _.
              After-if P stable go _ _ (After-reply P stable tid _ s p)
                (After-ok P stable _ (add_data-keeps path tid end_of_read s p)))

  After-write : (env : Env) (path : Text) (s : Server) → P s → After P stable (on_write env path s)
  unfolding on_write
  After-write env path s p =
      After-if P stable (not (file_to_be_handled env.capio_dir path)) (ok s) _
        (After-ok P stable s p) (After-check_and_unlock P stable env path s p)

  -- behind the parsers of the arguments
  After-parsed :
      {A B : Type 0} (r : Result (A × B)) (f : A → B → Result Server)
      → ((a : A) (b : B) → After P stable (f a b))
      → After P stable (r >>= λ x. f x.0 x.1)
  After-parsed r f h = After-bind P stable r (λ x. f x.0 x.1) λ x _. h x.0 x.1

  close_handler-keeps :
      (env : Env) (str : Text) (s : Server) → P s → After P stable (close_handler env str s)
  unfolding close_handler
  close_handler-keeps env str s p =
      After-parsed (scan_int str) _
        λ tid str₁. After-parsed (scan_word str₁) _ λ path str₂. After-close env tid path s p

  consent_handler-keeps :
      (env : Env) (str : Text) (s : Server)
      → P s
      → After P stable (consent_to_proceed_handler env str s)
  unfolding consent_to_proceed_handler
  consent_handler-keeps env str s p = After-parsed (scan_int str) _ λ tid str₁.
      After-parsed (scan_word str₁) _
        λ path str₂. After-parsed (scan_word str₂) _ λ source str₃. After-consent env tid path s p

  create_handler-keeps :
      (env : Env) (str : Text) (s : Server) → P s → After P stable (create_handler env str s)
  unfolding create_handler
  create_handler-keeps env str s p = After-parsed (scan_int str) _ λ tid str₁.
      After-parsed (scan_int str₁) _
        λ fd str₂. After-parsed (scan_word str₂) _ λ path str₃. After-create env tid path s p

  exit_handler-keeps :
      (env : Env) (str : Text) (s : Server) → P s → After P stable (exit_handler env str s)
  unfolding exit_handler
  exit_handler-keeps env str s p = After-parsed (scan_int str) _ λ tid str₁. After-exit env tid s p

  anonymous_handler-keeps :
      (env : Env) (str : Text) (s : Server)
      → P s
      → After P stable (handshake_anonymous_handler env str s)
  unfolding handshake_anonymous_handler on_handshake
  anonymous_handler-keeps env str s p = After-parsed (scan_int str) _ λ tid str₁.
      After-parsed (scan_int str₁) _
        λ pid str₂. After-ok P stable _ (stable.registered tid capio_default_app_name s p)

  named_handler-keeps :
      (env : Env) (str : Text) (s : Server)
      → P s
      → After P stable (handshake_named_handler env str s)
  unfolding handshake_named_handler on_handshake
  named_handler-keeps env str s p = After-parsed (scan_int str) _ λ tid str₁.
      After-parsed (scan_int str₁) _ λ pid str₂.
        After-parsed (scan_word str₂) _
          λ app_name str₃. After-ok P stable _ (stable.registered tid app_name s p)

  open_handler-keeps :
      (env : Env) (str : Text) (s : Server) → P s → After P stable (open_handler env str s)
  unfolding open_handler
  open_handler-keeps env str s p = After-parsed (scan_int str) _ λ tid str₁.
      After-parsed (scan_int str₁) _
        λ fd str₂. After-parsed (scan_word str₂) _ λ path str₃. After-open env tid path s p

  read_handler-keeps :
      (env : Env) (str : Text) (s : Server) → P s → After P stable (read_handler env str s)
  unfolding read_handler
  read_handler-keeps env str s p = After-parsed (scan_word str) _ λ path str₁.
      After-parsed (scan_int str₁) _ λ tid str₂. After-parsed (scan_int str₂) _ λ fd str₃.
        After-parsed (scan_ullong str₃) _
          λ end_of_read str₄. After-read env tid path end_of_read s p

  rename_handler-keeps :
      (env : Env) (str : Text) (s : Server) → P s → After P stable (rename_handler env str s)
  unfolding rename_handler
  rename_handler-keeps env str s p = After-parsed (scan_int str) _ λ tid str₁.
      After-parsed (scan_word str₁) _ λ old str₂.
        After-parsed (scan_word str₂) _ λ new str₃. After-unlock_creation P stable new s p

  write_handler-keeps :
      (env : Env) (str : Text) (s : Server) → P s → After P stable (write_handler env str s)
  unfolding write_handler
  write_handler-keeps env str s p = After-parsed (scan_int str) _ λ tid str₁.
      After-parsed (scan_int str₁) _ λ fd str₂.
        After-parsed (scan_word str₂) _
          λ path str₃. After-parsed (scan_ullong str₃) _ λ size str₄. After-write env path s p

  Kept : Option (Env → Text → Server → Result Server) → Type ℓ
  Kept none = Unit
  Kept (some handler) =
      (env : Env) (str : Text) (s : Server) → P s → After P stable (handler env str s)

  Kept-if :
      (b : Bool) (h k : Option (Env → Text → Server → Result Server))
      → Kept h
      → Kept k
      → Kept (if b then h else k)
  Kept-if true h k hh hk = hh
  Kept-if false h k hh hk = hk

  request_handlers-keep : (code : ℕ) → Kept (request_handlers code)
  unfolding request_handlers Kept
  request_handlers-keep code = Kept-if (nat_beq code 0) _ _ consent_handler-keeps (
      Kept-if (nat_beq code 2) _ _ close_handler-keeps (
        Kept-if (nat_beq code 3) _ _ create_handler-keeps (
          Kept-if (nat_beq code 4) _ _ exit_handler-keeps (
            Kept-if (nat_beq code 5) _ _ named_handler-keeps (
              Kept-if (nat_beq code 6) _ _ anonymous_handler-keeps (
                Kept-if (nat_beq code 7) _ _ create_handler-keeps (
                  Kept-if (nat_beq code 8) _ _ open_handler-keeps (
                    Kept-if (nat_beq code 9) _ _ read_handler-keeps (
                      Kept-if (nat_beq code 10) _ _ rename_handler-keeps
                        (Kept-if (nat_beq code 11) _ none write_handler-keeps tt))))))))))

  After-called :
      (handler : Option (Env → Text → Server → Result Server))
      → Kept handler
      → (env : Env) (str : Text) (s : Server) → P s
      → After P stable (elim handler [ none ↦ err bad_call | some h ↦ h env str s ])
  unfolding Kept
  After-called none k env str s p = After-err P stable bad_call
  After-called (some h) k env str s p = k env str s p

  dispatch-keeps :
      (code : ℤ) (env : Env) (str : Text) (s : Server)
      → P s
      → After P stable (dispatch code env str s)
  unfolding dispatch
  dispatch-keeps (negsuc n) env str s p = After-err P stable err_exit
  dispatch-keeps (pos code) env str s p =
      After-if P stable (ltb 12 code) (err err_exit) _ (After-err P stable err_exit)
        (After-called (request_handlers code) (request_handlers-keep code) env str s p)

  pub serve-keeps : (env : Env) (req : Text) (s : Server) → P s → After P stable (serve env req s)
  unfolding serve
  serve-keeps env req s p =
      After-parsed (read_next_request req) _ λ code str. dispatch-keeps code env str s p

  -- the whole loop
  pub start-keeps :
      (requests : List (Env × Text)) (s : Server) → P s → After P stable (start requests s)
  unfolding start
  start-keeps [] s p = After-ok P stable s p
  start-keeps ((env, req) ∷ requests) s p =
      After-bind P stable (serve env req s) _
        λ s' e. start-keeps requests s' (serve-keeps env req s p s' e)
