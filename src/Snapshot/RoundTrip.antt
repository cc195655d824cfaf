-- ===== src/Snapshot/RoundTrip.antt =====
-- The tables of open files before and after a snapshot, src/posix/utils/snapshot.hpp.
use capio_v.Prelude.{◌≡◌, some}
use capio_v.Prelude.Eq.{Text, int_eq, text_eq}
use capio_v.Prelude.Assoc.{Assoc}
use capio_v.FdTable.Consistent.{Consistent}
use capio_v.Snapshot.{Info, Stale}

-- The unmapped paths can still be read, unchanged.
abbrev pub IsLeft : Stale → Type 0
IsLeft stale = (path : Text) (info : Info) → stale path info ≡ some path
