-- ===== src/Requests/Bounds.antt =====
-- The length of a request against the buffer of CAPIO_REQ_MAX_SIZE bytes that
-- src/posix/utils/requests.hpp prints it to.
use capio_v.Prelude.{
  ℕ, zero, suc, ◌+◌, ◌*◌, ◌/◌, ◌%◌, ◌^◌, ◌≤◌, ◌<◌, ◌≡◌, refl, [], ◌∷◌, ◌++◌, length, length-append,
  arith,
}
use capio_v.Prelude.Int.{ℤ, pos, negsuc}
use capio_v.Prelude.Eq.{Text}
use capio_v.Prelude.Result.{ok, err, overflow}
use capio_v.Wire.{show_code, show_int, show_nat, show_within}
use capio_v.Requests.{field, send, close_request, create_request, open_request, rename_request}

-- a power of ten
abbrev tens : ℕ → ℕ
tens zero = 1
tens (suc k) = 10 * tens k

pub few_digits : (fuel k n : ℕ) → n < tens (suc k) → length (show_within fuel n) ≤ suc k
unfolding show_within
few_digits zero k n h = omega arith
few_digits (suc fuel) zero n h = ground arith
few_digits (suc fuel) (suc k) n h =
    let ih = few_digits fuel k (n / 10) (omega arith) in
    ground (arith, ih, length-append (show_within fuel (n / 10)) ((b'0' + n % 10) ∷ []))

length-show_int : (n : ℕ) → n < 2 ^ 31 → length (show_int (pos n)) ≤ 10
unfolding show_int show_nat
length-show_int n h = few_digits (suc n) 9 n (omega arith)

pub length-field : (text rest : Text) → length (field text rest) ≡ suc (length text + length rest)
unfolding field
length-field text rest = omega (arith, length-append text rest)

pub length-show_code : (n : ℕ) (rest : Text) → length (show_code n ++ rest) ≡ 4 + length rest
unfolding show_code
length-show_code n rest = omega arith

pub sends : (text : Text) → length text < 256 → send text ≡ ok text
unfolding send
sends text h = ground (arith, h)

overflows : (text : Text) → 256 ≤ length text → send text ≡ err overflow
unfolding send
overflows text h = ground (arith, h)

length-close_request :
    (path : Text) (tid : ℤ)
    → length (close_request path tid) ≡ 6 + length (show_int tid) + length path
unfolding close_request
length-close_request path tid = omega (
  arith,
  length-show_code 2 (field (show_int tid) (field path [])),
  length-field (show_int tid) (field path []),
  length-field path [],
)

length-create_request :
    (fd tid : ℤ) (path : Text)
    → length (create_request fd path tid)
      ≡ 7 + length (show_int tid) + length (show_int fd) + length path
unfolding create_request
length-create_request fd tid path = omega (
  arith,
  length-show_code 3 (field (show_int tid) (field (show_int fd) (field path []))),
  length-field (show_int tid) (field (show_int fd) (field path [])),
  length-field (show_int fd) (field path []),
  length-field path [],
)

length-open_request :
    (fd tid : ℤ) (path : Text)
    → length (open_request fd path tid)
      ≡ 7 + length (show_int tid) + length (show_int fd) + length path
unfolding open_request
length-open_request fd tid path = omega (
  arith,
  length-show_code 8 (field (show_int tid) (field (show_int fd) (field path []))),
  length-field (show_int tid) (field (show_int fd) (field path [])),
  length-field (show_int fd) (field path []),
  length-field path [],
)

length-rename_request :
    (old new : Text) (tid : ℤ)
    → length (rename_request old new tid) ≡ 7 + length (show_int tid) + length old + length new
unfolding rename_request
length-rename_request old new tid = omega (
  arith,
  length-show_code 10 (field (show_int tid) (field old (field new []))),
  length-field (show_int tid) (field old (field new [])),
  length-field old (field new []),
  length-field new [],
)

minus_one : length (show_int (negsuc 0)) ≡ 2
unfolding show_int show_nat show_within
minus_one = refl

-- How long a path a request can carry, of a thread whose id is a positive int. The close, create
-- and open requests fit their buffer of 256 bytes for a path of at most 236 bytes, and the rename
-- request for two paths of at most 238 bytes together; a path of 250 bytes or more overflows the
-- buffer of each of the four, in the place of either path of a rename.
pub requests_fit :
    (n : ℕ) (path other : Text)
    → n < 2 ^ 31
    → (length path ≤ 236
        → (send (close_request path (pos n)) ≡ ok (close_request path (pos n)))
          × (send (create_request (negsuc 0) path (pos n))
              ≡ ok (create_request (negsuc 0) path (pos n)))
          × (send (open_request (negsuc 0) path (pos n))
              ≡ ok (open_request (negsuc 0) path (pos n))))
      × (length path + length other ≤ 238
          → send (rename_request path other (pos n)) ≡ ok (rename_request path other (pos n)))
      × (250 ≤ length path
          → (send (close_request path (pos n)) ≡ err overflow)
            × (send (create_request (negsuc 0) path (pos n)) ≡ err overflow)
            × (send (open_request (negsuc 0) path (pos n)) ≡ err overflow)
            × (send (rename_request path other (pos n)) ≡ err overflow)
            × (send (rename_request other path (pos n)) ≡ err overflow))
requests_fit n path other small =
    let d = length-show_int n small in
    let close = length-close_request path (pos n) in
    let create = length-create_request (negsuc 0) (pos n) path in
    let opened = length-open_request (negsuc 0) (pos n) path in
    let rename = length-rename_request path other (pos n) in
    let rename' = length-rename_request other path (pos n) in
    (
      λ h. (
        sends _ (omega (arith, h, d, close)),
        sends _ (omega (arith, h, d, create, minus_one)),
        sends _ (omega (arith, h, d, opened, minus_one)),
      ),
      λ h. sends _ (omega (arith, h, d, rename)),
      λ h. (
        overflows _ (omega (arith, h, close)),
        overflows _ (omega (arith, h, create)),
        overflows _ (omega (arith, h, opened)),
        overflows _ (omega (arith, h, rename)),
        overflows _ (omega (arith, h, rename')),
      ),
    )
