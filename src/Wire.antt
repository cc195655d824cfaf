-- ===== src/Wire.antt =====
-- The text of the requests: what sprintf writes in src/posix/utils/requests.hpp and what sscanf and
-- std::from_chars read in src/server/client-manager. A number that does not fit its variable is
-- undefined in C, and reads as nothing here.
pub mod Digits
pub mod Words
use capio_v.Prelude.{
  ℕ, zero, suc, ◌+◌, ◌-◌, ◌*◌, ◌/◌, ◌%◌, ◌^◌, Bool, true, false, not, ◌&&◌, ◌||◌, Option, none,
  some, List, [], ◌∷◌, ◌++◌, length, take, ltb, leb, nat_beq, if◌then◌else◌,
}
use capio_v.Prelude.Int.{ℤ, pos, negsuc}
use capio_v.Prelude.Eq.{Text}
use capio_v.Prelude.Result.{Result, ok, err, unread}

-- the decimal digits of a number; one more than the number is fuel enough
unfoldable pub show_within : ℕ → ℕ → Text
show_within zero n = []
show_within (suc fuel) n =
    let more = show_within fuel (n / 10) in
    if ltb n 10 then (b'0' + n) ∷ [] else more ++ (b'0' + n % 10) ∷ []

-- %ld and %d of a number that is not negative
unfoldable pub show_nat : ℕ → Text
unfolding show_within
show_nat n = show_within (suc n) n

unfoldable pub show_int : ℤ → Text
unfolding show_nat
show_int (pos n) = show_nat n
show_int (negsuc n) = b'-' ∷ show_nat (suc n)

unfoldable pub is_digit : ℕ → Bool
is_digit c = leb b'0' c && leb c b'9'

-- isspace
unfoldable pub is_blank : ℕ → Bool
is_blank c = nat_beq c 32 || (leb 9 c && leb c 13)

unfoldable pub skip_blanks : Text → Text
skip_blanks [] = []
skip_blanks (c ∷ s) = if is_blank c then skip_blanks s else c ∷ s

unfoldable pub read_digits : ℕ → Text → ℕ × Text
read_digits n [] = (n, [])
read_digits n (c ∷ s) =
    let more = read_digits (n * 10 + (c - b'0')) s in if is_digit c then more else (n, c ∷ s)

unfoldable pub starts_with_digit : Text → Bool
starts_with_digit [] = false
starts_with_digit (c ∷ s) = is_digit c

unfoldable pub read_nat : Text → Option (ℕ × Text)
unfolding starts_with_digit
read_nat s = if starts_with_digit s then some (read_digits 0 s) else none

unfoldable pub negative : ℕ → ℤ
negative zero = pos 0
negative (suc n) = negsuc n

pub fit_pos : Option (ℕ × Text) → Result (ℤ × Text)
fit_pos none = err unread
fit_pos (some (n, rest)) = if ltb n (2 ^ 31) then ok (pos n, rest) else err unread

pub fit_neg : Option (ℕ × Text) → Result (ℤ × Text)
unfolding negative
fit_neg none = err unread
fit_neg (some (n, rest)) = if leb n (2 ^ 31) then ok (negative n, rest) else err unread

pub read_int : Text → Result (ℤ × Text)
unfolding fit_pos fit_neg read_nat
read_int [] = err unread
read_int (c ∷ s) =
    if nat_beq c b'-'
    then fit_neg (read_nat s)
    else if nat_beq c b'+'
    then fit_pos (read_nat s)
    else fit_pos (read_nat (c ∷ s))

-- %d
unfoldable pub scan_int : Text → Result (ℤ × Text)
unfolding skip_blanks read_int
scan_int s = read_int (skip_blanks s)

pub fit_ullong : Bool → Option (ℕ × Text) → Result (ℕ × Text)
fit_ullong minus none = err unread
fit_ullong minus (some (n, rest)) =
    if ltb n (2 ^ 64) then ok ((if minus then (2 ^ 64 - n) % 2 ^ 64 else n), rest) else err unread

pub read_ullong : Text → Result (ℕ × Text)
unfolding fit_ullong read_nat
read_ullong [] = err unread
read_ullong (c ∷ s) =
    if nat_beq c b'-'
    then fit_ullong true (read_nat s)
    else if nat_beq c b'+'
    then fit_ullong false (read_nat s)
    else fit_ullong false (read_nat (c ∷ s))

-- %llu: a minus sign wraps the number round
unfoldable pub scan_ullong : Text → Result (ℕ × Text)
unfolding skip_blanks read_ullong
scan_ullong s = read_ullong (skip_blanks s)

unfoldable pub read_word : Text → Text × Text
read_word [] = ([], [])
read_word (c ∷ s) = let (w, rest) = read_word s in if is_blank c then ([], c ∷ s) else (c ∷ w, rest)

unfoldable pub some_word : Text × Text → Result (Text × Text)
some_word ([], rest) = err unread
some_word (c ∷ w, rest) = ok (c ∷ w, rest)

-- %s
unfoldable pub scan_word : Text → Result (Text × Text)
unfolding skip_blanks read_word some_word
scan_word s = some_word (read_word (skip_blanks s))

-- %04d of a request code
unfoldable pub show_code : ℕ → Text
show_code n =
    (b'0' + n / 1000 % 10) ∷ (b'0' + n / 100 % 10) ∷ (b'0' + n / 10 % 10) ∷ (b'0' + n % 10) ∷ []
