-- ===== src/Environment/Directory.antt =====
-- The directories of CAPIO, as src/common/capio/env.hpp finds them.
use capio_v.Prelude.{
  ◌≡◌, sym, ap, ◌∙◌, ◌↔◌, false, none, some, [], Bool-cases, Option-cases, inl, inr, arith,
}
use capio_v.Prelude.Eq.{Text, codes}
use capio_v.Prelude.Result.{ok, err_exit, ◌>>=◌, or_fault}
use capio_v.Path.{◌/path◌}
use capio_v.Posix.Asking.{is_forbidden_path}
use capio_v.Environment.{Variables, allowed, get_capio_dir, get_capio_metadata_path}

-- The process has a CAPIO directory exactly if CAPIO_DIR is set to a path that the C library
-- resolves to one not below /proc/ or /sys/, and it is that one. The metadata stand below it, in
-- .capio_metadata, if CAPIO_METADATA_DIR is not set; if it is set, to whatever value, their path is
-- empty.
pub capio_directories :
    (v : Variables) (dir : Text)
    → ((get_capio_dir v ≡ ok dir) ↔ (
        (val : Text) × (v.getenv (codes "CAPIO_DIR") ≡ some val)
        × (v.realpath val ≡ some dir)
        × (is_forbidden_path dir ≡ false)))
      × (v.getenv (codes "CAPIO_METADATA_DIR") ≡ none
          → get_capio_dir v ≡ ok dir
          → get_capio_metadata_path v ≡ ok (dir /path codes ".capio_metadata"))
      × ((val : Text)
          → v.getenv (codes "CAPIO_METADATA_DIR") ≡ some val
          → get_capio_metadata_path v ≡ ok [])
unfolding get_capio_dir get_capio_metadata_path allowed
capio_directories v dir = (
  (found, λ (val, a, b, c). ground (arith, a, b, c)),
  λ a b. ground (arith, a, b),
  λ val a. ground (arith, a),
)
  where
    found :
        (or_fault err_exit (v.getenv (codes "CAPIO_DIR")) >>= λ val.
        or_fault err_exit (v.realpath val) >>= λ dir. allowed dir)
          ≡ ok dir
        → (val : Text) × (v.getenv (codes "CAPIO_DIR") ≡ some val)
          × (v.realpath val ≡ some dir)
          × (is_forbidden_path dir ≡ false)
    found h = elim (Option-cases (v.getenv (codes "CAPIO_DIR"))) [
      | inl a ↦ absurd (ground (arith, h, a))
      | inr (val, a) ↦ elim (Option-cases (v.realpath val)) [
        | inl b ↦ absurd (ground (arith, h, a, b))
        | inr (d, b) ↦ elim (Bool-cases (is_forbidden_path d)) [
          | inl c ↦ absurd (ground (arith, h, a, b, c))
          | inr c ↦
              let same : d ≡ dir = ground (arith, h, a, b, c) in
              (val, a, b ∙ ap some same, sym (ap is_forbidden_path same) ∙ c)
        ]
      ]
    ]
