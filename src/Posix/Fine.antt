-- ===== src/Posix/Fine.antt =====
-- A call of src/posix/handlers that returns, and leaves tables of open files that agree and the
-- thread's buffer for responses.
use capio_v.Prelude.{◌≡◌, refl, Bool, true, false, if◌then◌else◌}
use capio_v.Prelude.Eq.{text_eq, int_eq, contains}
use capio_v.Prelude.Result.{Result, ok, ◌>>=◌}
use capio_v.FdTable.Consistent.{Consistent}
use capio_v.Posix.{Outcome, Client, Step}

-- The thread has a buffer for responses.
abbrev pub IsListening : Client → Type 0
IsListening c = contains c.tid c.listeners ≡ true

-- so it has, and the tables agree
abbrev pub Sound : Client → Type 0
Sound c = Consistent c.tables × IsListening c

-- The call returns, and the client is sound after it.
abbrev pub Fine : Step → Type 0
Fine r = (c' : Client) × (o : Outcome) × (r ≡ ok (c', o)) × Sound c'

pub Fine-if :
    (b : Bool) (r q : Step) → (b ≡ true → Fine r) → (b ≡ false → Fine q) → Fine (if b then r else q)
Fine-if true r q hr hq = hr refl
Fine-if false r q hr hq = hq refl

pub Fine-ok : (c : Client) (o : Outcome) → Sound c → Fine (ok (c, o))
Fine-ok c o h = (c, o, refl, h)

pub Fine-bind :
    {A : Type 0} (r : Result A) (f : A → Step) (a : A) → r ≡ ok a → Fine (f a) → Fine (r >>= f)
Fine-bind r f a e (c', o, run, h) = (c', o, rw e run, h)
