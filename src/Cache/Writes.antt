-- ===== src/Cache/Writes.antt =====
-- The writes of one thread through WriteRequestCache of src/posix/utils/cache.hpp.
use capio_v.Prelude.{ℕ, ◌≡◌, refl, List, [], ◌∷◌}
use capio_v.Prelude.Int.{ℤ}
use capio_v.Prelude.Eq.{Text}
use capio_v.Cache.{WriteCache, flush, cache_write}

-- the writes of one thread, one after the other: path, descriptor, count
abbrev pub Write : Type 0
Write = Text × ℤ × ℕ

abbrev pub write_all : ℤ → List Write → WriteCache → WriteCache
write_all tid [] c = c
write_all tid ((path, fd, count) ∷ writes) c =
    write_all tid writes (cache_write path tid fd count c)

pub flushed : (tid : ℤ) (c : WriteCache) → (flush tid c).current_size ≡ 0
unfolding flush
flushed tid c = refl
