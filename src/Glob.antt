-- ===== src/Glob.antt =====
-- match_globs of src/server/utils/common.hpp. `err out_of_range` is the exception of
-- std::string::compare at a position past the end.
pub mod Laws
use capio_v.Prelude.{
  ℕ, ◌-◌, Bool, true, false, not, ◌||◌, [], ◌∷◌, length, drop, ltb, nat_beq, if◌then◌else◌,
}
use capio_v.Prelude.Eq.{Text, text_eq, ◌==◌}
use capio_v.Prelude.Result.{Result, ok, err, out_of_range}

-- glob.back() == '*'
unfoldable pub ends_in_star : Text → Bool
ends_in_star [] = false
ends_in_star (c ∷ []) = nat_beq c b'*'
ends_in_star (c ∷ d ∷ s) = ends_in_star (d ∷ s)

-- glob.substr(glob.find('*') + 1, glob.size())
unfoldable pub after_star : Text → Text
after_star [] = []
after_star (c ∷ s) = if nat_beq c b'*' then s else after_star s

-- to_match.compare(pos, len, glob_end) as a Boolean: true where the texts differ. The position is
-- computed in unsigned arithmetic, so a `glob_end` that is longer than `to_match` puts it past the
-- end.
unfoldable pub compare_end : Text → Text → Result Bool
compare_end to_match glob_end =
    let size = length to_match in
    let end_size = length glob_end in
    if ltb size end_size
    then err out_of_range
    else ok (not (drop (size - end_size) to_match == glob_end))

unfoldable pub at_star : Text → Text → Result Bool
unfolding ends_in_star after_star compare_end
at_star glob to_match =
    if ends_in_star glob then ok true else compare_end to_match (after_star glob)

-- The loop: `i` and `j` advance together, and are the rests that the last two arguments show.
unfoldable pub match_loop : Text → Text → Text → Text → Result Bool
match_loop glob to_match [] ts = ok true
match_loop glob to_match (g ∷ gs) [] = ok true
match_loop glob to_match (g ∷ gs) (t ∷ ts) =
    if nat_beq g b'*'
    then at_star glob to_match
    else if nat_beq g b'?' || nat_beq g t
    then match_loop glob to_match gs ts
    else ok false

unfoldable pub match_globs : Text → Text → Result Bool
unfolding match_loop at_star
match_globs [] to_match = ok false
match_globs (g ∷ gs) to_match = match_loop (g ∷ gs) to_match (g ∷ gs) to_match
