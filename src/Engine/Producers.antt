-- ===== src/Engine/Producers.antt =====
-- addProducer and isProducer of src/server/capio-cl-engine/capio_cl_engine.hpp.
use capio_v.Prelude.{◌≡◌, ◌≢◌, true, List, [], ◌∷◌, ◌++◌, some, arith, Option-cases, inl, inr}
use capio_v.Prelude.Int.{ℤ}
use capio_v.Prelude.Eq.{Text, text_eq, text_beq_iff, ==_refl, contains}
use capio_v.Prelude.Assoc.{find, update, has-find, find-update}
use capio_v.Prelude.Result.{ok, >>=-eq-ok}
use capio_v.Clients.{ClientManager, get_app_name}
use capio_v.Engine.{
  Location, Locations, new_file, add_producer, is_producer, producers, strip_spaces,
}
use capio_v.Engine.NewFile.{find-has, find-new_file, has-new_file}

contains_last : (a : Text) (xs : List Text) → contains a (xs ++ a ∷ []) ≡ true
unfolding contains
contains_last a [] = rw (==_refl a)
contains_last a (x ∷ xs) = ground (arith, contains_last a xs)

abbrev pub with_producer : Text → Location → Location
with_producer name f = record f { producers = f.producers ++ strip_spaces name ∷ [] }

-- The entry that addProducer leaves at its path: the producers of the entry that newFile finds or
-- makes there, with the name, less its spaces, behind them.
pub find-add_producer :
    (p name : Text) (l : Locations) {l' : Locations}
    → add_producer p name l ≡ ok l'
    → (f : Location) × (find p l' ≡ some (with_producer name f))
unfolding add_producer
find-add_producer p name l {l'} e =
    let (m, made, e') = >>=-eq-ok (new_file p l) (λ m. ok (update p (with_producer name) m)) e in
    elim (Option-cases (find p m)) [
      | inl no_entry ↦ absurd (ground (arith, has-find p m, has-new_file p l made))
      | inr (f, there) ↦ (f, ground (arith, find-update p p (with_producer name) m, ==_refl p))
    ]

-- addProducer changes no entry of another path.
pub find-add_producer_ne :
    (p q name : Text) (l : Locations) {l' : Locations} {f : Location}
    → add_producer p name l ≡ ok l'
    → p ≢ q
    → find q l ≡ some f
    → find q l' ≡ some f
unfolding add_producer
find-add_producer_ne p q name l {l'} e ne h =
    let (m, made, e') = >>=-eq-ok (new_file p l) (λ m. ok (update p (with_producer name) m)) e in
    ground
      (arith, find-update p q (with_producer name) m, text_beq_iff p q, find-new_file p q l made h)

-- addProducer keeps what the entry of its own path holds.
pub find-add_producer_eq :
    (p name : Text) (l : Locations) {l' : Locations} {f : Location}
    → add_producer p name l ≡ ok l'
    → find p l ≡ some f
    → find p l' ≡ some (with_producer name f)
unfolding add_producer
find-add_producer_eq p name l {l'} e h =
    let (m, made, e') = >>=-eq-ok (new_file p l) (λ m. ok (update p (with_producer name) m)) e in
    ground (arith, find-update p p (with_producer name) m, ==_refl p, find-new_file p p l made h)

-- For a path in the table, a thread is a producer exactly if the name of its application is one of
-- the producers of that very entry: no pattern is tried.
pub is_producer-eq :
    (clients : ClientManager) (p app : Text) (pid : ℤ) (l : Locations) {f : Location}
    → get_app_name pid clients ≡ ok app
    → find p l ≡ some f
    → is_producer clients p pid l ≡ ok (contains app f.producers)
unfolding is_producer producers
is_producer-eq clients p app pid l n h = rw (n, find-has p l h) (ground arith)

-- After addProducer of an application's name every thread of that application is a producer of the
-- path, whatever patterns the table holds.
pub add_producer-is_producer :
    (clients : ClientManager) (p name : Text) (pid : ℤ) (l : Locations) {l' : Locations}
    → add_producer p name l ≡ ok l'
    → get_app_name pid clients ≡ ok (strip_spaces name)
    → is_producer clients p pid l' ≡ ok true
add_producer-is_producer clients p name pid l {l'} e n =
    let (f, h) = find-add_producer p name l e in
    rw (
      is_producer-eq clients p (strip_spaces name) pid l' n h,
      contains_last (strip_spaces name) f.producers,
    )
