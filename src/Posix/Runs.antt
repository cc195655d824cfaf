-- ===== src/Posix/Runs.antt =====
-- Sequences of calls of a process, through the handlers of src/posix/handlers.
use capio_v.Prelude.{◌≡◌, refl, List, [], ◌∷◌}
use capio_v.Prelude.Eq.{Text}
use capio_v.Prelude.Result.{Result, ok, ◌>>=◌}
use capio_v.FdTable.Consistent.{Consistent}
use capio_v.Posix.{Outcome, Client, Paths}
use capio_v.Posix.Fine.{IsListening}
use capio_v.Posix.Calls.{Call, call, Fits, call-Fine}

module _ (p : Paths) (moved : Text → Text) where
  unfoldable pub run : List Call → Client → Result Client
  run [] c = ok c
  run (x ∷ xs) c = do out ← call p moved x c; run xs out.0

  -- The kernel keeps its promises all along.
  pub data Possible : List Call → Client → Type 0 where
    at_end : {c : Client} → Possible [] c
    then_next :
        {x : Call} {xs : List Call} {c : Client}
        → Fits p moved x c
        → ((c' : Client) (o : Outcome) → call p moved x c ≡ ok (c', o) → Possible xs c')
        → Possible (x ∷ xs) c

-- From tables that agree, in a thread with a buffer for responses, any sequence of close, dup, dup2,
-- openat, lseek, read, write, rename, unlink and unlinkat runs to its end without an exception and
-- leaves tables that agree and the buffer, if each new descriptor of the kernel is not in the tables
-- and each rename goes to a path that is not tracked.
pub run-Consistent :
    (p : Paths) (moved : Text → Text) (calls : List Call) (c : Client)
    → Consistent c.tables
    → IsListening c
    → Possible p moved calls c
    → (c' : Client) × (run p moved calls c ≡ ok c') × Consistent c'.tables × IsListening c'
unfolding run
run-Consistent p moved [] c h l possible = (c, refl, h, l)
run-Consistent p moved (x ∷ xs) c h l (then_next fits next) =
    let (c₁, o, e, (h₁, l₁)) = call-Fine p moved x c (h, l) fits in
    let (c', r, h', l') = run-Consistent p moved xs c₁ h₁ l₁ (next c₁ o e) in (c', rw e r, h', l')
