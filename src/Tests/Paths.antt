-- ===== src/Tests/Paths.antt =====
-- Examples for paths and patterns.
use mathlib.Core.Logic.{◌↔◌}
use capio_v.Prelude.{◌≡◌, true, arith}
use capio_v.Prelude.Eq.{codes, text_eq, text_beq}
use capio_v.Prelude.Result.{ok}
use capio_v.Glob.{match_globs}
use capio_v.Glob.Laws.{Agree, match_globs-eq-true_iff, match_globs-star_suffix}

-- /cc/a is no file of /c.

match_globs-eq-true_iff_example :
    (match_globs (codes "/c/?") (codes "/c/a") ≡ ok true) ↔ Agree (codes "/c/?") (codes "/c/a")
match_globs-eq-true_iff_example =
    match_globs-eq-true_iff (codes "/c/?") (codes "/c/a") (λ e. absurd (cc))
      (
        (λ e. absurd (omega arith)),
        (
          (λ e. absurd (omega arith)),
          ((λ e. absurd (omega arith)), ((λ e. absurd (omega arith)), tt)),
        ),
      )

match_globs-star_suffix_example : match_globs (codes "/*.x") (codes "/a.y") ≡ ok true
unfolding text_beq
match_globs-star_suffix_example =
    match_globs-star_suffix (codes "/") (codes ".") (codes ".y") b'a' b'x'
      ((λ e. absurd (omega arith)), tt) (λ e. absurd (omega arith))
