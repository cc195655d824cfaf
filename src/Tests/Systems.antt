-- ===== src/Tests/Systems.antt =====
-- Examples for the monitor, the lock file, the environment and the length of requests.
use mathlib.Core.Path.{subst}
use mathlib.Core.Option
use capio_v.Prelude.{
  ℕ, ◌≡◌, refl, ◌+◌, ◌≤◌, Bool, true, false, none, some, List, [], ◌∷◌, ◌++◌, arith, length,
  if◌then◌else◌,
}
use capio_v.Prelude.Int.{ℤ, pos, negsuc}
use capio_v.Prelude.Eq.{Text, text_eq, int_eq, nat_eq, ◌==◌, contains}
use capio_v.Prelude.Assoc.{find, has}
use capio_v.Prelude.Result.{ok, err, overflow}
use capio_v.Disk.{exists}
use capio_v.FileManager.{Server, get_file_awaiting_creation}
use capio_v.FileManager.Replies.{buffer, Registered}
use capio_v.Monitor.{wake_all_on_creation}
use capio_v.Monitor.Round.{round_wakes}
use capio_v.Monitor.Woken.{IsRegistered}
use capio_v.Lock.{
  Pc, System, move_to, nobody, Reach, begins, steps, constructs, opens, fails_to_write,
}
use capio_v.Lock.Exclusion.{owns, mutual_exclusion}
use capio_v.Requests.{send, close_request, create_request, open_request, rename_request}
use capio_v.Requests.Bounds.{requests_fit}
use capio_v.Tests.{a_file, server, disk}

-- 8 waits for the creation of a, which is on the disk
abbrev waiting : Server
waiting = record server { thread_awaiting_file_creation = (a_file, pos 8 ∷ []) ∷ [] }

waiting-IsRegistered : IsRegistered waiting
unfolding find has
waiting-IsRegistered path tids queued = go (a_file == path) queued
  where
    some_injective : (x y : List ℤ) → some x ≡ some y → x ≡ y
    some_injective x y e = cc

    go : (b : Bool) → (if b then some (pos 8 ∷ []) else none) ≡ some tids → Registered waiting tids
    go true e = subst (Registered waiting) (some_injective _ _ e) (refl, tt)
    go false e = absurd (cc)

round_wakes_example :
    (s' : Server) × (wake_all_on_creation disk (get_file_awaiting_creation waiting) waiting ≡ ok s')
    × ((q : Text)
        → find q s'.thread_awaiting_file_creation
          ≡ (if exists disk q then none else find q waiting.thread_awaiting_file_creation))
    × ((t : ℤ) (q : Text) (tids : List ℤ)
        → exists disk q ≡ true
        → find q waiting.thread_awaiting_file_creation ≡ some tids
        → contains t tids ≡ true
        → (more : List ℕ) × (buffer t s' ≡ Option.map (λ buf. buf ++ more) (buffer t waiting))
          × (contains 1 more ≡ true))
    × ((t : ℤ)
        → (more : List ℕ) × (buffer t s' ≡ Option.map (λ buf. buf ++ more) (buffer t waiting)))
round_wakes_example = round_wakes disk waiting waiting-IsRegistered

-- server 0 has created the lock file, and could not write its name
abbrev stuck : System
stuck = record {
  file = some [];
  pc = move_to 0 Pc.stopped (move_to 0 Pc.opened (move_to 0 Pc.spinning nobody.pc));
}

stuck-Reach : Reach stuck
stuck-Reach =
    steps (steps (steps begins (constructs 0 refl)) (opens 0 refl refl)) (fails_to_write 0 refl)

mutual_exclusion_example :
    (owns (stuck.pc 0) ≡ true → owns (stuck.pc 1) ≡ true → ◌≡◌ {A = ℕ} 0 1)
    × (owns (stuck.pc 0) ≡ true → (text : Text) × (stuck.file ≡ some text))
mutual_exclusion_example = mutual_exclusion 0 1 stuck-Reach

requests_fit_example :
    (length a_file ≤ 236
      → (send (close_request a_file (pos 7)) ≡ ok (close_request a_file (pos 7)))
        × (send (create_request (negsuc 0) a_file (pos 7))
            ≡ ok (create_request (negsuc 0) a_file (pos 7)))
        × (send (open_request (negsuc 0) a_file (pos 7))
            ≡ ok (open_request (negsuc 0) a_file (pos 7))))
    × (length a_file + length a_file ≤ 238
        → send (rename_request a_file a_file (pos 7)) ≡ ok (rename_request a_file a_file (pos 7)))
    × (250 ≤ length a_file
        → (send (close_request a_file (pos 7)) ≡ err overflow)
          × (send (create_request (negsuc 0) a_file (pos 7)) ≡ err overflow)
          × (send (open_request (negsuc 0) a_file (pos 7)) ≡ err overflow)
          × (send (rename_request a_file a_file (pos 7)) ≡ err overflow)
          × (send (rename_request a_file a_file (pos 7)) ≡ err overflow))
requests_fit_example = requests_fit 7 a_file a_file (omega arith)
