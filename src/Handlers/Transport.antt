-- ===== src/Handlers/Transport.antt =====
-- The requests of a client (src/posix/utils/requests.hpp, cache.hpp) as the server reads them.
use capio_v.Prelude.{length, ◌≤◌, ◌+◌, ℕ, ◌^◌, ◌<◌, ◌≡◌, refl, ◌∙◌, [], ◌∷◌, ◌++◌}
use capio_v.Prelude.Int.{ℤ, pos}
use capio_v.Prelude.Eq.{Text}
use capio_v.Prelude.Result.{Result, ok, ◌>>=◌}
use capio_v.Constants.{capio_default_app_name}
use capio_v.Disk.{Env}
use capio_v.FileManager.{Server, unlock_thread_awaiting_creation}
use capio_v.Wire.{
  scan_int, scan_word, scan_ullong, read_digits, show_int, show_nat, show_code, starts_with_digit,
  is_digit, is_blank,
}
use capio_v.Wire.Digits.{IsInt, scan_int_show, scan_int_blank, scan_ullong_show}
use capio_v.Wire.Words.{IsWord, scan_word_lem, scan_word_blank}
use capio_v.Requests.Lengths.{short}
use capio_v.Requests.Bounds.{sends}
use capio_v.Requests.{
  send, field, consent_to_proceed_request, close_request, create_request, exit_group_request,
  handshake_named_request, handshake_anonymous_request, open_request, read_request, rename_request,
  write_request,
}
use capio_v.Handlers.{
  on_close, on_consent, on_create, on_exit, on_handshake, on_open, on_read, on_write, close_handler,
  consent_to_proceed_handler, create_handler, exit_handler, handshake_named_handler,
  handshake_anonymous_handler, open_handler, read_handler, rename_handler, write_handler,
  read_next_request, request_handlers, dispatch, serve,
}

-- the number at the front, and the fields behind it
scan_int_first :
    (z : ℤ) (text more : Text)
    → IsInt z
    → scan_int (show_int z ++ field text more) ≡ ok (z, field text more)
unfolding field starts_with_digit is_digit
scan_int_first z text more fit = scan_int_show z (32 ∷ (text ++ more)) fit refl

scan_int-field :
    (z : ℤ) (text more : Text)
    → IsInt z
    → scan_int (field (show_int z) (field text more)) ≡ ok (z, field text more)
unfolding field
scan_int-field z text more fit =
    scan_int_blank (show_int z ++ field text more) ∙ scan_int_first z text more fit

scan_int_last : (z : ℤ) → IsInt z → scan_int (field (show_int z) []) ≡ ok (z, [])
unfolding field starts_with_digit
scan_int_last z fit = scan_int_blank (show_int z ++ []) ∙ scan_int_show z [] fit refl

scan_word-field :
    (w text more : Text)
    → IsWord w
    → scan_word (field w (field text more)) ≡ ok (w, field text more)
unfolding field is_blank
scan_word-field w text more h =
    scan_word_blank (w ++ 32 ∷ (text ++ more)) ∙ scan_word_lem w (32 ∷ (text ++ more)) h refl

scan_word_last : (w : Text) → IsWord w → scan_word (field w []) ≡ ok (w, [])
unfolding field
scan_word_last w h = scan_word_blank (w ++ []) ∙ scan_word_lem w [] h tt

scan_int_end : (z : ℤ) → IsInt z → scan_int (show_int z ++ []) ≡ ok (z, [])
unfolding starts_with_digit
scan_int_end z fit = scan_int_show z [] fit refl

scan_word_first :
    (w text more : Text) → IsWord w → scan_word (w ++ field text more) ≡ ok (w, field text more)
unfolding field is_blank
scan_word_first w text more h = scan_word_lem w (32 ∷ (text ++ more)) h refl

scan_ullong_last : (n : ℕ) → n < 2 ^ 64 → scan_ullong (field (show_nat n) []) ≡ ok (n, [])
unfolding field starts_with_digit
scan_ullong_last n h = scan_ullong_show n [] h refl

module _ (env : Env) (s : Server) (text more : Text) where
  abbrev Arrives : ℕ → (Env → Text → Server → Result Server) → Type 0
  Arrives code handler =
      serve env (show_code code ++ field text more) s ≡ handler env (text ++ more) s

  -- each code reaches its handler, with the text behind the code
  codes_arrive :
      Arrives 0 consent_to_proceed_handler
      × Arrives 2 close_handler
      × Arrives 3 create_handler
      × Arrives 4 exit_handler
      × Arrives 5 handshake_named_handler
      × Arrives 6 handshake_anonymous_handler
      × Arrives 7 create_handler
      × Arrives 8 open_handler
      × Arrives 9 read_handler
      × Arrives 10 rename_handler
      × Arrives 11 write_handler
  unfolding serve dispatch request_handlers read_next_request show_code starts_with_digit is_digit
      read_digits field
  codes_arrive = (refl, refl, refl, refl, refl, refl, refl, refl, refl, refl, refl)

module _ (env : Env) (s : Server) (path : Text) (tid : ℤ) (ht : IsInt tid) (hp : IsWord path) where
  pub serve-close_request : serve env (close_request path tid) s ≡ on_close env tid path s
  unfolding close_request close_handler
  serve-close_request =
      (codes_arrive env s (show_int tid) (field path [])).1
      ∙ rw (scan_int_first tid path [] ht, scan_word_last path hp) refl

  serve-consent_request :
      (source_func : Text)
      → IsWord source_func
      → serve env (consent_to_proceed_request path tid source_func) s ≡ on_consent env tid path s
  unfolding consent_to_proceed_request consent_to_proceed_handler
  serve-consent_request source_func hs =
      (codes_arrive env s (show_int tid) (field path (field source_func []))).0
      ∙ rw (
        scan_int_first tid path (field source_func []) ht,
        scan_word-field path source_func [] hp,
        scan_word_last source_func hs,
      )

  serve-create_request :
      (fd : ℤ) → IsInt fd → serve env (create_request fd path tid) s ≡ on_create env tid path s
  unfolding create_request create_handler
  serve-create_request fd hf =
      (codes_arrive env s (show_int tid) (field (show_int fd) (field path []))).2
      ∙ rw (
        scan_int_first tid (show_int fd) (field path []) ht,
        scan_int-field fd path [] hf,
        scan_word_last path hp,
      )

  serve-open_request :
      (fd : ℤ) → IsInt fd → serve env (open_request fd path tid) s ≡ on_open env tid path s
  unfolding open_request open_handler
  serve-open_request fd hf =
      (codes_arrive env s (show_int tid) (field (show_int fd) (field path []))).7
      ∙ rw (
        scan_int_first tid (show_int fd) (field path []) ht,
        scan_int-field fd path [] hf,
        scan_word_last path hp,
      )

  serve-read_request :
      (end_of_read : ℕ) (fd : ℤ)
      → end_of_read < 2 ^ 64
      → IsInt fd
      → serve env (read_request path end_of_read tid fd) s ≡ on_read env tid path end_of_read s
  unfolding read_request read_handler
  serve-read_request end_of_read fd he hf =
      (codes_arrive env s path
        (field (show_int tid) (field (show_int fd) (field (show_nat end_of_read) [])))).8
      ∙ rw (
        scan_word_first path (show_int tid) (field (show_int fd) (field (show_nat end_of_read) []))
            hp,
        scan_int-field tid (show_int fd) (field (show_nat end_of_read) []) ht,
        scan_int-field fd (show_nat end_of_read) [] hf,
        scan_ullong_last end_of_read he,
      )

  serve-rename_request :
      (new_path : Text)
      → IsWord new_path
      → serve env (rename_request path new_path tid) s ≡ unlock_thread_awaiting_creation new_path s
  unfolding rename_request rename_handler
  serve-rename_request new_path hn =
      (codes_arrive env s (show_int tid) (field path (field new_path []))).9
      ∙ rw (
        scan_int_first tid path (field new_path []) ht,
        scan_word-field path new_path [] hp,
        scan_word_last new_path hn,
      )

  pub serve-handshake_named_request :
      (pid : ℤ)
      → IsInt pid
      → serve env (handshake_named_request tid pid path) s ≡ ok (on_handshake tid path s)
  unfolding handshake_named_request handshake_named_handler
  serve-handshake_named_request pid hf =
      (codes_arrive env s (show_int tid) (field (show_int pid) (field path []))).4
      ∙ rw (
        scan_int_first tid (show_int pid) (field path []) ht,
        scan_int-field pid path [] hf,
        scan_word_last path hp,
      )

  serve-write_request :
      (count : ℕ) (fd : ℤ)
      → count < 2 ^ 64
      → IsInt fd
      → serve env (write_request (pos count) tid fd path) s ≡ on_write env path s
  unfolding write_request write_handler show_int
  serve-write_request count fd hc hf =
      (codes_arrive env s (show_int tid)
        (field (show_int fd) (field path (field (show_nat count) [])))).10
      ∙ rw (
        scan_int_first tid (show_int fd) (field path (field (show_nat count) [])) ht,
        scan_int-field fd path (field (show_nat count) []) hf,
        scan_word-field path (show_nat count) [] hp,
        scan_ullong_last count hc,
      )

module _ (env : Env) (s : Server) (tid : ℤ) (ht : IsInt tid) where
  pub serve-exit_group_request : serve env (exit_group_request tid) s ≡ on_exit env tid s
  unfolding exit_group_request exit_handler
  serve-exit_group_request = (codes_arrive env s (show_int tid) []).3 ∙ rw (scan_int_end tid ht)

  serve-handshake_anonymous_request :
      (pid : ℤ)
      → IsInt pid
      → serve env (handshake_anonymous_request tid pid) s
        ≡ ok (on_handshake tid capio_default_app_name s)
  unfolding handshake_anonymous_request handshake_anonymous_handler
  serve-handshake_anonymous_request pid hp =
      (codes_arrive env s (show_int tid) (field (show_int pid) [])).5
      ∙ rw (scan_int_first tid (show_int pid) [] ht, scan_int_last pid hp)

-- sprintf to the buffer of the client, and the server's reading of that buffer
abbrev pub deliver : Env → Server → Text → Result Server
deliver env s request = send request >>= λ text. serve env text s

delivered :
    (env : Env) (s : Server) (request : Text) (answer : Result Server)
    → length request < 256
    → serve env request s ≡ answer
    → deliver env s request ≡ answer
delivered env s request answer fits e = rw (sends request fits) e

-- Each request that a client writes for a path and a word without blanks, of 200 bytes at most
-- together, ids that fit an int and sizes that fit 64 bits, fits the buffer it is printed to and is
-- read back by the server as the same call with the same arguments.
pub requests_arrive :
    (env : Env) (s : Server) (path word : Text) (tid fd : ℤ) (size : ℕ)
    → length path + length word ≤ 200
    → IsWord path
    → IsWord word
    → IsInt tid
    → IsInt fd
    → size < 2 ^ 64
    → (deliver env s (consent_to_proceed_request path tid word) ≡ on_consent env tid path s)
      × (deliver env s (close_request path tid) ≡ on_close env tid path s)
      × (deliver env s (create_request fd path tid) ≡ on_create env tid path s)
      × (deliver env s (exit_group_request tid) ≡ on_exit env tid s)
      × (deliver env s (handshake_named_request tid fd word) ≡ ok (on_handshake tid word s))
      × (deliver env s (handshake_anonymous_request tid fd)
          ≡ ok (on_handshake tid capio_default_app_name s))
      × (deliver env s (open_request fd path tid) ≡ on_open env tid path s)
      × (deliver env s (read_request path size tid fd) ≡ on_read env tid path size s)
      × (deliver env s (rename_request path word tid) ≡ unlock_thread_awaiting_creation word s)
      × (deliver env s (write_request (pos size) tid fd path) ≡ on_write env path s)
requests_arrive env s path word tid fd size h hp hw ht hf hs =
    let fits = short path word tid fd size h ht hf hs in
    (
      delivered env s (consent_to_proceed_request path tid word) _ fits.0
          (serve-consent_request env s path tid ht hp word hw),
      delivered env s (close_request path tid) _ fits.1 (serve-close_request env s path tid ht hp),
      delivered env s (create_request fd path tid) _ fits.2
          (serve-create_request env s path tid ht hp fd hf),
      delivered env s (exit_group_request tid) _ fits.3 (serve-exit_group_request env s tid ht),
      delivered env s (handshake_named_request tid fd word) _ fits.4
          (serve-handshake_named_request env s word tid ht hw fd hf),
      delivered env s (handshake_anonymous_request tid fd) _ fits.5
          (serve-handshake_anonymous_request env s tid ht fd hf),
      delivered env s (open_request fd path tid) _ fits.6
          (serve-open_request env s path tid ht hp fd hf),
      delivered env s (read_request path size tid fd) _ fits.7
          (serve-read_request env s path tid ht hp size fd hs hf),
      delivered env s (rename_request path word tid) _ fits.8
          (serve-rename_request env s path tid ht hp word hw),
      delivered env s (write_request (pos size) tid fd path) _ fits.9
          (serve-write_request env s path tid ht hp size fd hs hf),
    )
