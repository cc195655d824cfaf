-- ===== src/Tests/Servers.antt =====
-- Examples for the file manager.
use mathlib.Core.Logic.{◌↔◌}
use mathlib.Core.Path.{subst, sym}
use mathlib.Core.Option
use capio_v.Prelude.{
  ◌≡◌, refl, Bool, true, none, List, [], ◌∷◌, ◌++◌, arith, Bool-cases, inl, inr, if◌then◌else◌,
}
use capio_v.Prelude.Int.{ℤ, pos}
use capio_v.Prelude.Eq.{Text, codes, text_eq, int_eq, text_beq, ◌==◌, contains}
use capio_v.Prelude.Assoc.{find, has}
use capio_v.Prelude.Result.{ok, err, out_of_fuel}
use capio_v.Constants.{
  capio_file_committed_on_file, capio_file_committed_on_close, capio_file_committed_on_termination,
  capio_file_mode_update,
}
use capio_v.Disk.{is_directory, get_file_size_if_exists, metadata_path, after_find, relative_token}
use capio_v.Engine.{
  get_fire_rule, get_commit_rule, is_producer, producers, get_file_deps, get_commit_close_count,
}
use capio_v.FileManager.{
  Server, is_committed, is_committed_within, awaiting_creation, unlock_thread_awaiting_creation,
  check_and_unlock_thread_awaiting_data, lock_condition, closed_often_enough, token, unlock_value,
  compared_size,
}
use capio_v.FileManager.Committed.{
  Committed, Circular, OnFile, is_committed_iff, circular_dependencies_diverge,
}
use capio_v.FileManager.Replies.{buffer, answers, unlock_thread_awaiting_creation_lem}
use capio_v.FileManager.Waiting.{woken, still_waiting, queue_left, check_and_unlock_lem}
use capio_v.Tests.{a_file, new_path, location, server, disk}
use capio_v.Clients.{get_app_name}
use capio_v.Path.{◌/path◌, starts_with, is_absolute}

-- a was closed once
abbrev closed : Server
closed = record server { tokens = (codes "/m/c/a.capio", 1) ∷ [] }

cases_on_close : (capio_file_committed_on_close == capio_file_committed_on_file) ≡ true → ⊥
unfolding text_beq
cases_on_close e = absurd (cc)

cases_on_termination :
    (capio_file_committed_on_termination == capio_file_committed_on_file) ≡ true → ⊥
unfolding text_beq
cases_on_termination e = absurd (cc)

no_dependencies : (path : Text) → OnFile disk closed path → ⊥
unfolding get_commit_rule find text_beq
no_dependencies path o = elim (Bool-cases (a_file == path)) [
  | inl y ↦ absurd (cases_on_close (rw y at o.on_file))
  | inr other ↦ absurd (cases_on_termination (rw other at o.on_file))
]

is_committed_iff_example :
    ((b : Bool) × (is_committed disk closed a_file ≡ ok b))
    × ((is_committed disk closed a_file ≡ ok true) ↔ Committed disk closed a_file)
is_committed_iff_example =
    is_committed_iff disk closed (λ path. 0) a_file (λ path o. absurd (no_dependencies path o))
      (omega arith)

-- a depends on itself
abbrev circle : Server
circle = record server {
  locations =
      (a_file, location capio_file_committed_on_file capio_file_mode_update [] true (a_file ∷ []))
      ∷ [];
}

circle_a : Circular disk circle (λ path. path ≡ a_file)
unfolding is_directory text_beq get_commit_rule find get_file_deps
circle_a path e =
    subst
      (λ p.
        OnFile disk circle p
        × ((dep : Text) × (rest : List Text) × (get_file_deps p circle.locations ≡ dep ∷ rest)
            × (dep ≡ a_file)))
      (sym e) (record { no_directory = refl; on_file = refl }, (a_file, [], refl, refl))

circular_dependencies_diverge_example : is_committed_within 100 disk circle a_file ≡ err out_of_fuel
circular_dependencies_diverge_example =
    circular_dependencies_diverge disk circle (λ path. path ≡ a_file) circle_a 100 a_file refl

-- 8 waits for the creation of b
abbrev waiting : Server
waiting = record server { thread_awaiting_file_creation = (new_path, pos 8 ∷ []) ∷ [] }

unlock_thread_awaiting_creation_lem_example :
    (s' : Server) × (unlock_thread_awaiting_creation new_path waiting ≡ ok s')
    × ((t : ℤ)
        → buffer t s'
          ≡ Option.map
              (λ buf. buf ++ answers t (awaiting_creation new_path waiting) 1)
              (buffer t waiting))
    × ((q : Text)
        → find q s'.thread_awaiting_file_creation
          ≡ (if new_path == q then none else find q waiting.thread_awaiting_file_creation))
    × (s'.locations ≡ waiting.locations)
    × (s'.tokens ≡ waiting.tokens)
    × (s'.thread_awaiting_data ≡ waiting.thread_awaiting_data)
    × (s'.clients.app_names ≡ waiting.clients.app_names)
    × (s'.clients.files_to_be_committed_by_tid ≡ waiting.clients.files_to_be_committed_by_tid)
unfolding find text_beq has
unlock_thread_awaiting_creation_lem_example =
    unlock_thread_awaiting_creation_lem new_path waiting (refl, tt)

-- 8 waits for a to grow to twenty bytes, and a is closed by its writer
abbrev reading : Server
reading = record closed { thread_awaiting_data = (a_file, (pos 8, 20) ∷ []) ∷ [] }

reading_passes : lock_condition disk a_file (pos 8) reading ≡ ok true
unfolding lock_condition compared_size is_directory text_beq get_file_size_if_exists is_committed
    is_committed_within get_commit_rule find is_producer get_app_name has closed_often_enough token
    metadata_path ◌/path◌ starts_with after_find relative_token get_commit_close_count get_fire_rule
    producers contains is_absolute
reading_passes = refl

check_and_unlock_lem_example :
    (s' : Server) × (check_and_unlock_thread_awaiting_data disk a_file reading ≡ ok s')
    × ((t : ℤ)
        → buffer t s'
          ≡ Option.map
              (λ buf. buf ++ answers t (woken (λ tid. true) ((pos 8, 20) ∷ [])) 10)
              (buffer t reading))
    × ((q : Text)
        → find q s'.thread_awaiting_data ≡ (
            if a_file == q
            then queue_left (still_waiting (λ tid. true) ((pos 8, 20) ∷ []))
            else find q reading.thread_awaiting_data))
unfolding find text_beq unlock_value is_directory get_file_size_if_exists has
check_and_unlock_lem_example =
    check_and_unlock_lem disk a_file (λ tid. true) 10 ((pos 8, 20) ∷ []) reading refl refl
      (reading_passes, tt) (refl, tt)
