-- ===== src/Wire/Digits.antt =====
-- Numbers, printed and read.
use capio_v.Prelude.{
  ℕ, zero, suc, ◌+◌, ◌*◌, ◌/◌, ◌%◌, ◌^◌, ◌≤◌, ◌<◌, ◌≡◌, refl, ◌∙◌, ap, true, false, [], ◌∷◌, ◌++◌,
  append_assoc, arith, inl, inr, Bool-cases, nat_beq, ltb, some,
}
use capio_v.Prelude.Int.{ℤ, pos, negsuc, neg_part, pos_part}
use capio_v.Prelude.Eq.{Text}
use capio_v.Prelude.Result.{ok}
use capio_v.Wire.{
  show_within, show_nat, show_int, is_digit, is_blank, skip_blanks, read_digits, starts_with_digit,
  read_nat, scan_int, scan_ullong, read_int, fit_pos, fit_neg, fit_ullong, read_ullong,
}

-- the text behind a number: it begins with no digit
abbrev pub Ends : Text → Type 0
Ends rest = starts_with_digit rest ≡ false

digit_is_digit : (d : ℕ) → d < 10 → is_digit (b'0' + d) ≡ true
unfolding is_digit
digit_is_digit d h = ground arith

read_digit :
    (n d : ℕ) (rest : Text)
    → d < 10
    → read_digits n ((b'0' + d) ∷ rest) ≡ read_digits (n * 10 + d) rest
unfolding read_digits
read_digit n d rest h = rw (digit_is_digit d h) (ap (λ k. read_digits k rest) (omega arith))

read_show_within :
    (fuel n : ℕ) (rest : Text)
    → n < fuel
    → read_digits 0 (show_within fuel n ++ rest) ≡ read_digits n rest
unfolding show_within
read_show_within zero n rest h = elim h [ ]
read_show_within (suc fuel) n rest h = elim (Bool-cases (ltb n 10)) [
  | inl small ↦
      rw small (read_digit 0 n rest (ground arith) ∙ ap (λ k. read_digits k rest) (omega arith))
  | inr large ↦
      rw (large, append_assoc (show_within fuel (n / 10)) ((b'0' + n % 10) ∷ []) rest)
        (read_show_within fuel (n / 10) ((b'0' + n % 10) ∷ rest) (ground arith)
          ∙ read_digit (n / 10) (n % 10) rest (omega arith)
          ∙ ap (λ k. read_digits k rest) (omega arith))
]

read_digits_end : (n : ℕ) (rest : Text) → Ends rest → read_digits n rest ≡ (n, rest)
unfolding read_digits starts_with_digit
read_digits_end n [] h = refl
read_digits_end n (c ∷ rest) h = rw h

show_starts :
    (fuel n : ℕ) (rest : Text)
    → n < fuel
    → (c : ℕ) × (s : Text) × (show_within fuel n ++ rest ≡ c ∷ s) × (is_digit c ≡ true)
unfolding show_within
show_starts zero n rest h = elim h [ ]
show_starts (suc fuel) n rest h = elim (Bool-cases (ltb n 10)) [
  | inl small ↦ (b'0' + n, rest, rw small, digit_is_digit n (ground arith))
  | inr large ↦
      let (c, s, e, d) = show_starts fuel (n / 10) ((b'0' + n % 10) ∷ rest) (ground arith) in
      (c, s, rw (large, append_assoc (show_within fuel (n / 10)) ((b'0' + n % 10) ∷ []) rest) e, d)
]

read_nat_show : (n : ℕ) (rest : Text) → Ends rest → read_nat (show_nat n ++ rest) ≡ some (n, rest)
unfolding read_nat show_nat
read_nat_show n rest h =
    let (c, s, e, d) = show_starts (suc n) n rest (omega arith) in
    let starts : starts_with_digit (show_within (suc n) n ++ rest) ≡ true = rw e d in
    rw (starts, read_show_within (suc n) n rest (omega arith), read_digits_end n rest h)

digit_not_blank : (c : ℕ) → is_digit c ≡ true → is_blank c ≡ false
unfolding is_digit is_blank
digit_not_blank c h = ground arith

digit_not_sign : (c : ℕ) → is_digit c ≡ true → (nat_beq c b'-' ≡ false) × (nat_beq c b'+' ≡ false)
unfolding is_digit
digit_not_sign c h = ground arith

-- what a sign can hold: an int
abbrev pub IsInt : ℤ → Type 0
IsInt z = (pos_part z < 2 ^ 31) × (neg_part z ≤ 2 ^ 31)

read_int_digit :
    (c : ℕ) (s : Text) → is_digit c ≡ true → read_int (c ∷ s) ≡ fit_pos (read_nat (c ∷ s))
unfolding read_int
read_int_digit c s d = rw ((digit_not_sign c d).0, (digit_not_sign c d).1)

show_nat_starts :
    (n : ℕ) (rest : Text)
    → (c : ℕ) × (s : Text) × (show_nat n ++ rest ≡ c ∷ s) × (is_digit c ≡ true)
unfolding show_nat
show_nat_starts n rest = show_starts (suc n) n rest (omega arith)

scan_cons : (c : ℕ) (s : Text) → is_digit c ≡ true → scan_int (c ∷ s) ≡ fit_pos (read_nat (c ∷ s))
unfolding scan_int skip_blanks
scan_cons c s d = rw (digit_not_blank c d) (read_int_digit c s d)

fit_pos_lem : (n : ℕ) (rest : Text) → n < 2 ^ 31 → fit_pos (some (n, rest)) ≡ ok (pos n, rest)
unfolding fit_pos
fit_pos_lem n rest h = ground arith

fit_neg_lem :
    (n : ℕ) (rest : Text) → suc n ≤ 2 ^ 31 → fit_neg (some (suc n, rest)) ≡ ok (negsuc n, rest)
unfolding fit_neg
fit_neg_lem n rest h = ground arith

scan_nat :
    (n : ℕ) (rest : Text)
    → n < 2 ^ 31
    → Ends rest
    → scan_int (show_nat n ++ rest) ≡ ok (pos n, rest)
scan_nat n rest lt h =
    let (c, s, e, d) = show_nat_starts n rest in
    rw (← e) at (scan_cons c s d) ∙ rw (read_nat_show n rest h) (fit_pos_lem n rest lt)

scan_minus : (s : Text) → scan_int (b'-' ∷ s) ≡ fit_neg (read_nat s)
unfolding scan_int skip_blanks is_blank read_int
scan_minus s = refl

-- A number that fits an int is read back, and what stands behind it is left.
pub scan_int_show :
    (z : ℤ) (rest : Text) → IsInt z → Ends rest → scan_int (show_int z ++ rest) ≡ ok (z, rest)
unfolding show_int
scan_int_show (pos n) rest fit h = scan_nat n rest fit.0 h
scan_int_show (negsuc n) rest fit h =
    scan_minus (show_nat (suc n) ++ rest)
    ∙ rw (read_nat_show (suc n) rest h) (fit_neg_lem n rest fit.1)

pub scan_int_blank : (s : Text) → scan_int (32 ∷ s) ≡ scan_int s
unfolding scan_int skip_blanks is_blank
scan_int_blank s = refl

scan_ullong_cons :
    (c : ℕ) (s : Text)
    → is_digit c ≡ true
    → scan_ullong (32 ∷ c ∷ s) ≡ fit_ullong false (read_nat (c ∷ s))
unfolding scan_ullong skip_blanks is_blank read_ullong
scan_ullong_cons c s d = rw (digit_not_blank c d, (digit_not_sign c d).0, (digit_not_sign c d).1)

fit_ullong_lem :
    (n : ℕ) (rest : Text) → n < 2 ^ 64 → fit_ullong false (some (n, rest)) ≡ ok (n, rest)
unfolding fit_ullong
fit_ullong_lem n rest h = ground arith

-- So with a number that fits an unsigned long long, behind a space.
pub scan_ullong_show :
    (n : ℕ) (rest : Text)
    → n < 2 ^ 64
    → Ends rest
    → scan_ullong (32 ∷ (show_nat n ++ rest)) ≡ ok (n, rest)
scan_ullong_show n rest lt h =
    let (c, s, e, d) = show_nat_starts n rest in
    rw (← e) at (scan_ullong_cons c s d) ∙ rw (read_nat_show n rest h) (fit_ullong_lem n rest lt)
