-- ===== src/Tests/Caches.antt =====
-- Examples for the request caches.
use mathlib.Core.List.{map}
use capio_v.Prelude.{◌≡◌, refl, none, some, [], ◌∷◌, arith, if◌then◌else◌}
use capio_v.Prelude.Int.{pos}
use capio_v.Prelude.Eq.{Text, codes, text_eq, int_eq, text_beq, text_beq_iff, ◌==◌, contains}
use capio_v.Prelude.Assoc.{find}
use capio_v.Prelude.Result.{ok}
use capio_v.Cache.{ReadCache, new_read_cache, cache_read}
use capio_v.Cache.Again.{asks_again}
use capio_v.Environment.{Variables}
use capio_v.Tests.{a_file, new_path}

-- libstdc++ leaves the empty path behind a move
abbrev emptied : Text → Text
emptied path = []

asks_again_example :
    (c₁ : ReadCache) × (c₂ : ReadCache) × (c₃ : ReadCache) × (cache_read emptied 100
        (pos 7 ∷ [])
        a_file
        10
        (pos 7)
        (pos 3)
        new_read_cache
      ≡ ok c₁)
    × (cache_read emptied 50 (pos 7 ∷ []) new_path 20 (pos 7) (pos 4) c₁ ≡ ok c₂)
    × (cache_read emptied 100 (pos 7 ∷ []) a_file 10 (pos 7) (pos 3) c₂ ≡ ok c₃)
    × (find [] c₁.available ≡ some 100)
    × (find a_file c₂.available ≡ some 0)
    × (c₃.max_read ≡ 100)
    × (map (λ call. call.path) c₃.sent ≡ a_file ∷ new_path ∷ a_file ∷ [])
unfolding contains text_beq
asks_again_example =
    asks_again emptied 100 50 100 (pos 7 ∷ []) a_file new_path 10 20 10 (pos 7) (pos 3) (pos 4)
      (λ e. cc) (λ e. cc) (λ e. cc)
      (λ e. absurd (ground (arith, (text_beq_iff a_file new_path).1 e))) (λ e. cc) (λ e. cc)
      (omega arith) (omega arith) (omega arith) refl

-- CAPIO_WRITER_CACHE_SIZE is 25
abbrev variables : Variables
variables = record {
  getenv = λ name. if name == codes "CAPIO_WRITER_CACHE_SIZE" then some (codes "25") else none;
  realpath = λ path. some path;
  strtoull = λ text. 25;
  from_chars = λ text. none;
}
