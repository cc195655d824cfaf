-- ===== src/Wire/Words.antt =====
-- Words, printed and read.
use capio_v.Prelude.{◌≡◌, refl, ◌≢◌, true, false, [], ◌∷◌, ◌++◌, All}
use capio_v.Prelude.Eq.{Text}
use capio_v.Prelude.Result.{ok}
use capio_v.Wire.{is_blank, skip_blanks, read_word, scan_word}

-- a text that %s reads whole: not empty, and no blank in it
pub record IsWord (w : Text) : Type 0 where
  pub not_empty : w ≢ []
  pub no_blank : All (λ c. is_blank c ≡ false) w

-- the text behind a word: empty, or a blank comes first
abbrev pub Stops : Text → Type 0
Stops [] = Unit
Stops (c ∷ s) = is_blank c ≡ true

read_word_lem :
    (w rest : Text)
    → All (λ c. is_blank c ≡ false) w
    → Stops rest
    → read_word (w ++ rest) ≡ (w, rest)
unfolding read_word
read_word_lem [] [] h stops = refl
read_word_lem [] (c ∷ rest) h stops = rw stops
read_word_lem (c ∷ w) rest h stops = rw (h.0, read_word_lem w rest h.1 stops)

-- A word is read back whole, and what stands behind it is left.
pub scan_word_lem : (w rest : Text) → IsWord w → Stops rest → scan_word (w ++ rest) ≡ ok (w, rest)
unfolding scan_word
scan_word_lem [] rest h stops = absurd (h.not_empty refl)
scan_word_lem (c ∷ w) rest h stops =
    unfold skip_blanks in rw h.no_blank.0 (rw (read_word_lem (c ∷ w) rest h.no_blank stops) refl)

pub scan_word_blank : (s : Text) → scan_word (32 ∷ s) ≡ scan_word s
unfolding scan_word skip_blanks is_blank
scan_word_blank s = refl
