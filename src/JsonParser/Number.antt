-- ===== src/JsonParser/Number.antt =====
-- is_int of src/server/utils/common.hpp, and std::stol: a number as strtol reads it, in base 10.
use capio_v.Prelude.{
  ℕ, ◌^◌, Bool, true, false, Option, none, some, [], ◌∷◌, ltb, nat_beq, if◌then◌else◌,
}
use capio_v.Prelude.Int.{ℤ, pos}
use capio_v.Prelude.Eq.{Text, text_eq, ◌==◌}
use capio_v.Prelude.Result.{Result, ok, err, out_of_range}
use capio_v.Wire.{skip_blanks, read_nat, negative}

abbrev pub signed : Bool → Option (ℕ × Text) → Option (ℤ × Text)
signed minus none = none
signed minus (some (n, rest)) = some ((if minus then negative n else pos n), rest)

unfoldable pub read_long : Text → Option (ℤ × Text)
read_long [] = none
read_long (c ∷ s) =
    if nat_beq c b'-'
    then signed true (read_nat s)
    else if nat_beq c b'+'
    then signed false (read_nat s)
    else signed false (read_nat (c ∷ s))

-- the number, not yet cut to a long, and what stands behind it; none where there are no digits
unfoldable pub strtol : Text → Option (ℤ × Text)
unfolding read_long
strtol s = read_long (skip_blanks s)

unfoldable pub is_int : Text → Bool
unfolding strtol
is_int s = elim (strtol s) [ none ↦ false | some (n, rest) ↦ rest == [] ]

abbrev pub fits_long : ℤ → Bool
fits_long (pos n) = ltb n (2 ^ 63)
fits_long (ℤ.negsuc n) = ltb n (2 ^ 63)

-- std::stol; its exceptions are not caught
unfoldable pub stol : Text → Result ℤ
unfolding strtol
stol s = elim (strtol s) [
  | none ↦ err out_of_range
  | some (n, rest) ↦ if fits_long n then ok n else err out_of_range
]
