-- ===== src/Tests/Descriptors.antt =====
-- Examples for the client's tables and caches: descriptor 3 is open on a, 4 on b.
use capio_v.Prelude.{◌≡◌, ◌≢◌, refl, true, false, some, [], ◌∷◌, arith}
use capio_v.Prelude.Int.{pos}
use capio_v.Prelude.Eq.{text_beq_iff, codes, text_eq, int_eq, text_beq, contains}
use capio_v.Prelude.Assoc.{find, has, emplace, update}
use capio_v.Prelude.Result.{ok}
use capio_v.FdTable.{File, Tables, init_filesystem, add_capio_fd, dup_capio_fd}
use capio_v.FdTable.Consistent.{Consistent, init_filesystem-Consistent, add_capio_fd-Consistent}
use capio_v.FdTable.Dup.{dup_onto_open_breaks}
use capio_v.Tests.{a_file, new_path}

abbrev started : Tables
started = record {
  current_dir = codes "/c";
  descriptors = [];
  paths = [];
  files = [];
  offsets = [];
}

started-Consistent : Consistent started
unfolding init_filesystem
started-Consistent = init_filesystem-Consistent (codes "/c")

abbrev one_open : Tables
one_open = record {
  current_dir = codes "/c";
  descriptors = (pos 3, a_file) ∷ [];
  paths = (a_file, pos 3 ∷ []) ∷ [];
  files = (pos 3, record { cell = 0; cloexec = false }) ∷ [];
  offsets = 0 ∷ [];
}

one_open-Consistent : Consistent one_open
unfolding has add_capio_fd emplace update text_beq contains
one_open-Consistent =
    (add_capio_fd-Consistent a_file (pos 3) 0 false started started-Consistent refl).0

abbrev pub two_open : Tables
two_open = record {
  current_dir = codes "/c";
  descriptors = (pos 4, new_path) ∷ (pos 3, a_file) ∷ [];
  paths = (new_path, pos 4 ∷ []) ∷ (a_file, pos 3 ∷ []) ∷ [];
  files =
      (pos 4, record { cell = 1; cloexec = true })
      ∷ (pos 3, record { cell = 0; cloexec = false })
      ∷ [];
  offsets = 0 ∷ 0 ∷ [];
}

pub two_open-Consistent : Consistent two_open
unfolding has add_capio_fd emplace update text_beq contains
two_open-Consistent =
    (add_capio_fd-Consistent new_path (pos 4) 0 true one_open one_open-Consistent refl).0

paths_differ : a_file ≢ new_path
unfolding text_beq
paths_differ e = absurd (ground (arith, (text_beq_iff a_file new_path).1 e))

-- dup2(3, 4)
dup_onto_open_breaks_example :
    (t' : Tables) × (dup_capio_fd (pos 3) (pos 4) false two_open ≡ ok t')
    × (find (pos 4) t'.descriptors ≡ some new_path)
    × (f : File) × (find (pos 4) two_open.files ≡ some f)
    × (find (pos 4) t'.files ≡ some (record f { cloexec = false }))
    × ¬ Consistent t'
unfolding find
dup_onto_open_breaks_example =
    dup_onto_open_breaks (pos 3) (pos 4) false two_open a_file new_path two_open-Consistent refl
      refl paths_differ
