-- ===== src/Requests/Lengths.antt =====
-- The length of every request of src/posix/utils/requests.hpp and src/posix/utils/cache.hpp, for
-- ids that fit an int and numbers that fit 64 bits.
use capio_v.Prelude.{ℕ, suc, ◌+◌, ◌^◌, ◌≤◌, ◌<◌, ◌≡◌, [], ◌++◌, length, arith}
use capio_v.Prelude.Int.{ℤ, pos, negsuc}
use capio_v.Prelude.Eq.{Text}
use capio_v.Wire.{show_code, show_int, show_nat}
use capio_v.Wire.Digits.{IsInt}
use capio_v.Requests.{
  field, consent_to_proceed_request, close_request, create_request, exit_group_request,
  handshake_named_request, handshake_anonymous_request, open_request, read_request, rename_request,
  write_request,
}
use capio_v.Requests.Bounds.{few_digits, length-field, length-show_code}

length-show_nat : (n : ℕ) → n < 2 ^ 64 → length (show_nat n) ≤ 20
unfolding show_nat
length-show_nat n h = few_digits (suc n) 19 n (omega (arith, h))

length-show_id : (z : ℤ) → IsInt z → length (show_int z) ≤ 11
unfolding show_int show_nat
length-show_id (pos n) h = let d = few_digits (suc n) 9 n (omega (arith, h.0)) in omega (arith, d)
length-show_id (negsuc n) h =
    let d = few_digits (suc (suc n)) 9 (suc n) (omega (arith, h.1)) in omega (arith, d)

one_field : (code : ℕ) (a : Text) → length (show_code code ++ field a []) ≡ 5 + length a
one_field code a = omega (arith, length-show_code code (field a []), length-field a [])

two_fields :
    (code : ℕ) (a b : Text)
    → length (show_code code ++ field a (field b [])) ≡ 6 + length a + length b
two_fields code a b = omega (
  arith,
  length-show_code code (field a (field b [])),
  length-field a (field b []),
  length-field b [],
)

three_fields :
    (code : ℕ) (a b c : Text)
    → length (show_code code ++ field a (field b (field c []))) ≡ 7 + length a + length b + length c
three_fields code a b c = omega (
  arith,
  length-show_code code (field a (field b (field c []))),
  length-field a (field b (field c [])),
  length-field b (field c []),
  length-field c [],
)

four_fields :
    (code : ℕ) (a b c d : Text)
    → length (show_code code ++ field a (field b (field c (field d []))))
      ≡ 8 + length a + length b + length c + length d
four_fields code a b c d = omega (
  arith,
  length-show_code code (field a (field b (field c (field d [])))),
  length-field a (field b (field c (field d []))),
  length-field b (field c (field d [])),
  length-field c (field d []),
  length-field d [],
)

-- Every request fits its buffer of 256 bytes with its end, where the path and the word have 200
-- bytes at most together.
pub short :
    (path word : Text) (tid fd : ℤ) (size : ℕ)
    → length path + length word ≤ 200
    → IsInt tid
    → IsInt fd
    → size < 2 ^ 64
    → (length (consent_to_proceed_request path tid word) < 256)
      × (length (close_request path tid) < 256)
      × (length (create_request fd path tid) < 256)
      × (length (exit_group_request tid) < 256)
      × (length (handshake_named_request tid fd word) < 256)
      × (length (handshake_anonymous_request tid fd) < 256)
      × (length (open_request fd path tid) < 256)
      × (length (read_request path size tid fd) < 256)
      × (length (rename_request path word tid) < 256)
      × (length (write_request (pos size) tid fd path) < 256)
unfolding consent_to_proceed_request close_request create_request exit_group_request
    handshake_named_request handshake_anonymous_request open_request read_request rename_request
    write_request show_int
short path word tid fd size h ht hf hs =
    let t = length-show_id tid ht in
    let f = length-show_id fd hf in
    let n = length-show_nat size hs in
    (
      omega (arith, h, t, three_fields 0 (show_int tid) path word),
      omega (arith, h, t, two_fields 2 (show_int tid) path),
      omega (arith, h, t, f, three_fields 3 (show_int tid) (show_int fd) path),
      omega (arith, t, one_field 4 (show_int tid)),
      omega (arith, h, t, f, three_fields 5 (show_int tid) (show_int fd) word),
      omega (arith, t, f, two_fields 6 (show_int tid) (show_int fd)),
      omega (arith, h, t, f, three_fields 8 (show_int tid) (show_int fd) path),
      omega (arith, h, t, f, n, four_fields 9 path (show_int tid) (show_int fd) (show_nat size)),
      omega (arith, h, t, three_fields 10 (show_int tid) path word),
      omega (arith, h, t, f, n, four_fields 11 (show_int tid) (show_int fd) path (show_nat size)),
    )
