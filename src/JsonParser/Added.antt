-- ===== src/JsonParser/Added.antt =====
-- A file of an input_stream or an output_stream, in src/server/capio-cl-engine/json_parser.hpp.
use mathlib.Core.Path.{subst}
use capio_v.Prelude.{◌≡◌, true, some, List, [], ◌∷◌, ◌++◌, Option-cases, inl, inr, arith}
use capio_v.Prelude.Eq.{Text, text_eq, contains, ==_refl}
use capio_v.Prelude.Assoc.{find, has, has-find, find-update}
use capio_v.Prelude.Result.{ok, >>=-eq-ok, ok_injective}
use capio_v.Engine.{Location, Locations, new_file, add_consumer, add_producer, strip_spaces}
use capio_v.Engine.NewFile.{has-new_file}
use capio_v.JsonParser.Parse.{Paths, is_accepted, resolve, declare_input, declare_output}
use capio_v.JsonParser.Keeps.{Keeps}

-- The file is in the table, and the application is among its consumers, or its producers.
abbrev pub IsConsumer : Text → Text → Locations → Type 0
IsConsumer path app_name l =
    (f : Location) × (find path l ≡ some f) × (contains (strip_spaces app_name) f.consumers ≡ true)

abbrev pub IsProducer : Text → Text → Locations → Type 0
IsProducer path app_name l =
    (f : Location) × (find path l ≡ some f) × (contains (strip_spaces app_name) f.producers ≡ true)

pub Keeps-IsConsumer :
    (path name : Text) {l l' : Locations}
    → Keeps l l'
    → IsConsumer path name l
    → IsConsumer path name l'
Keeps-IsConsumer path name k (f, e, c) =
    let (f', e', g) = k.kept path f e in (f', e', g.more_consumers (strip_spaces name) c)

pub Keeps-IsProducer :
    (path name : Text) {l l' : Locations}
    → Keeps l l'
    → IsProducer path name l
    → IsProducer path name l'
Keeps-IsProducer path name k (f, e, c) =
    let (f', e', g) = k.kept path f e in (f', e', g.more_producers (strip_spaces name) c)

contains_last : (x : Text) (xs : List Text) → contains x (xs ++ x ∷ []) ≡ true
unfolding contains
contains_last x [] = ground (arith, ==_refl x)
contains_last x (y ∷ xs) = ground (arith, contains_last x xs)

found : (path : Text) (l : Locations) → has path l ≡ true → (f : Location) × (find path l ≡ some f)
found path l h = elim (Option-cases (find path l)) [
  | inl e ↦ absurd (ground (arith, h, e, has-find path l))
  | inr there ↦ there
]

add_consumer-IsConsumer :
    (path name : Text) (l : Locations)
    → has path l ≡ true
    → IsConsumer path name (add_consumer path name l)
unfolding add_consumer
add_consumer-IsConsumer path name l h =
    let (f, e) = found path l h in
    (
      record f { consumers = f.consumers ++ strip_spaces name ∷ [] },
      ground (
        arith,
        e,
        ==_refl path,
        find-update path path (λ g. record g { consumers = g.consumers ++ strip_spaces name ∷ [] })
            l,
      ),
      contains_last (strip_spaces name) f.consumers,
    )

add_producer-IsProducer :
    (path name : Text) (l l' : Locations)
    → add_producer path name l ≡ ok l'
    → IsProducer path name l'
unfolding add_producer
add_producer-IsProducer path name l l' e =
    let (m, e₁, e₂) = >>=-eq-ok (new_file path l) _ e in
    let (f, e₃) = found path m (has-new_file path l e₁) in
    subst (IsProducer path name) (ok_injective _ _ e₂) (
      record f { producers = f.producers ++ strip_spaces name ∷ [] },
      ground (
        arith,
        e₃,
        ==_refl path,
        find-update path path (λ g. record g { producers = g.producers ++ strip_spaces name ∷ [] })
            m,
      ),
      contains_last (strip_spaces name) f.producers,
    )

pub declare_input-IsConsumer :
    (p : Paths) (name file : Text) (l l' : Locations)
    → is_accepted p file ≡ true
    → declare_input p name file l ≡ ok l'
    → IsConsumer (resolve p file) name l'
unfolding declare_input
declare_input-IsConsumer p name file l l' accepted e =
    let (m, e₁, e₂) = >>=-eq-ok (new_file (resolve p file) l) _ (rw accepted at e) in
    subst (IsConsumer (resolve p file) name) (ok_injective _ _ e₂)
      (add_consumer-IsConsumer (resolve p file) name m (has-new_file (resolve p file) l e₁))

pub declare_output-IsProducer :
    (p : Paths) (name file : Text) (l l' : Locations)
    → is_accepted p file ≡ true
    → declare_output p name file l ≡ ok l'
    → IsProducer (resolve p file) name l'
unfolding declare_output
declare_output-IsProducer p name file l l' accepted e =
    let (m, e₁, e₂) = >>=-eq-ok (new_file (resolve p file) l) _ (rw accepted at e) in
    add_producer-IsProducer (resolve p file) name m l' e₂
