-- ===== src/JsonParser/Declared.antt =====
-- What the table of the engine says of the files that a configuration names,
-- src/server/capio-cl-engine/json_parser.hpp.
use mathlib.Core.Path.{subst}
use capio_v.Prelude.{
  ◌≡◌, sym, ap, ◌∙◌, true, false, some, List, [], ◌∷◌, ◌++◌, Bool-cases, inl, inr, arith,
}
use capio_v.Prelude.Eq.{Text, text_eq, text_beq_iff, ◌==◌, contains}
use capio_v.Prelude.Result.{ok, or_fault, err_exit, >>=-eq-ok}
use capio_v.Engine.{Locations, new_file}
use capio_v.JsonParser.Parse.{
  App, Document, Paths, is_accepted, resolve, declare_input, declare_output, declare_inputs,
  declare_outputs, parse_app, parse_apps, mark_section, mark_permanent, parse,
}
use capio_v.JsonParser.Keeps.{Keeps, Keeps-trans}
use capio_v.JsonParser.Sections.{
  declare_inputs-Kept, declare_outputs-Kept, parse_streaming_of-Kept, parse_apps-Kept,
  mark_permanent-Kept, mark_exclude-Kept,
}
use capio_v.JsonParser.Added.{
  IsConsumer, IsProducer, Keeps-IsConsumer, Keeps-IsProducer, declare_input-IsConsumer,
  declare_output-IsProducer,
}

contains_cons :
    (x y : Text) (xs : List Text)
    → contains x (y ∷ xs) ≡ true
    → (y == x) ≡ false
    → contains x xs ≡ true
unfolding contains
contains_cons x y xs h ne = ground (arith, h, ne)

contains_nil : {A : Type 0} (x : Text) → contains x [] ≡ true → A
unfolding contains
contains_nil x h = absurd (cc)

declare_inputs-IsConsumer :
    (p : Paths) (name file : Text) (files : List Text) (l l' : Locations)
    → contains file files ≡ true
    → is_accepted p file ≡ true
    → declare_inputs p name files l ≡ ok l'
    → IsConsumer (resolve p file) name l'
unfolding declare_inputs
declare_inputs-IsConsumer p name file [] l l' listed accepted e = contains_nil file listed
declare_inputs-IsConsumer p name file (x ∷ files) l l' listed accepted e =
    let (m, e₁, e₂) = >>=-eq-ok (declare_input p name x l) _ e in
    elim (Bool-cases (x == file)) [
      | inl same ↦
          Keeps-IsConsumer (resolve p file) name (declare_inputs-Kept p name files m l' e₂) (
            declare_input-IsConsumer p name file l m accepted
              (subst (λ t. declare_input p name t l ≡ ok m) ((text_beq_iff x file).0 same) e₁))
      | inr other ↦
          declare_inputs-IsConsumer p name file files m l' (contains_cons file x files listed other)
            accepted e₂
    ]

declare_outputs-IsProducer :
    (p : Paths) (name file : Text) (files : List Text) (l l' : Locations)
    → contains file files ≡ true
    → is_accepted p file ≡ true
    → declare_outputs p name files l ≡ ok l'
    → IsProducer (resolve p file) name l'
unfolding declare_outputs
declare_outputs-IsProducer p name file [] l l' listed accepted e = contains_nil file listed
declare_outputs-IsProducer p name file (x ∷ files) l l' listed accepted e =
    let (m, e₁, e₂) = >>=-eq-ok (declare_output p name x l) _ e in
    elim (Bool-cases (x == file)) [
      | inl same ↦
          Keeps-IsProducer (resolve p file) name (declare_outputs-Kept p name files m l' e₂) (
            declare_output-IsProducer p name file l m accepted
              (subst (λ t. declare_output p name t l ≡ ok m) ((text_beq_iff x file).0 same) e₁))
      | inr other ↦
          declare_outputs-IsProducer p name file files m l'
            (contains_cons file x files listed other) accepted e₂
    ]

-- the files of an application's sections are in the table with it
record Declared (p : Paths) (name : Text) (inputs outputs : List Text) (l : Locations)
    : Type 0 where
  reads :
      (file : Text)
      → contains file inputs ≡ true
      → is_accepted p file ≡ true
      → IsConsumer (resolve p file) name l
  writes :
      (file : Text)
      → contains file outputs ≡ true
      → is_accepted p file ≡ true
      → IsProducer (resolve p file) name l

Keeps-Declared :
    {p : Paths} {name : Text} {inputs outputs : List Text} {l l' : Locations}
    → Keeps l l'
    → Declared p name inputs outputs l
    → Declared p name inputs outputs l'
Keeps-Declared {p} {name} k d = record {
  reads = λ file h a. Keeps-IsConsumer (resolve p file) name k (d.reads file h a);
  writes = λ file h a. Keeps-IsProducer (resolve p file) name k (d.writes file h a);
}

parse_app-Declared :
    (p : Paths) (app : App) (name : Text) (inputs outputs : List Text) (l l' : Locations)
    → app.app_name ≡ some name
    → app.input_stream ≡ some inputs
    → app.output_stream ≡ some outputs
    → parse_app p app l ≡ ok l'
    → Declared p name inputs outputs l'
unfolding parse_app
parse_app-Declared p app name inputs outputs l l' n i o e =
    let (m, e₁, rest) = >>=-eq-ok (declare_inputs p name inputs l) _ (rw (n, i) at e) in
    let (m', e₂, e₃) = >>=-eq-ok (declare_outputs p name outputs m) _ (rw o at rest) in
    let later = parse_streaming_of-Kept p app.streaming m' l' e₃ in
    record {
      reads = λ file h a.
          Keeps-IsConsumer (resolve p file) name
            (Keeps-trans (declare_outputs-Kept p name outputs m m' e₂) later)
            (declare_inputs-IsConsumer p name file inputs l m h a e₁);
      writes = λ file h a.
          Keeps-IsProducer (resolve p file) name later
            (declare_outputs-IsProducer p name file outputs m m' h a e₂);
    }

parse_apps-Declared :
    (p : Paths) (before : List App) (app : App) (after : List App) (name : Text)
    (inputs outputs : List Text) (l l' : Locations)
    → app.app_name ≡ some name
    → app.input_stream ≡ some inputs
    → app.output_stream ≡ some outputs
    → parse_apps p (before ++ app ∷ after) l ≡ ok l'
    → Declared p name inputs outputs l'
unfolding parse_apps
parse_apps-Declared p [] app after name inputs outputs l l' n i o e =
    let (m, e₁, e₂) = >>=-eq-ok (parse_app p app l) _ e in
    Keeps-Declared (parse_apps-Kept p after m l' e₂)
      (parse_app-Declared p app name inputs outputs l m n i o e₁)
parse_apps-Declared p (a ∷ before) app after name inputs outputs l l' n i o e =
    let (m, e₁, e₂) = >>=-eq-ok (parse_app p a l) _ e in
    parse_apps-Declared p before app after name inputs outputs m l' n i o e₂

-- Where a configuration is accepted, every file of the input_stream of an application (relative, or
-- in the CAPIO directory) is in the table under its resolved path with the application among its
-- consumers, and every such file of its output_stream is there with the application among its
-- producers. Nothing that the parser does later takes them out again.
pub parse-Declared :
    (p : Paths) (d : Document) (before : List App) (app : App) (after : List App) (name : Text)
    (inputs outputs : List Text) (l : Locations)
    → d.io_graph ≡ before ++ app ∷ after
    → app.app_name ≡ some name
    → app.input_stream ≡ some inputs
    → app.output_stream ≡ some outputs
    → parse p (some d) ≡ ok l
    → ((file : Text)
        → contains file inputs ≡ true
        → is_accepted p file ≡ true
        → IsConsumer (resolve p file) name l)
      × ((file : Text)
          → contains file outputs ≡ true
          → is_accepted p file ≡ true
          → IsProducer (resolve p file) name l)
unfolding parse
parse-Declared p d before app after name inputs outputs l graph n i o e =
    let (l₀, e₀, e₀') = >>=-eq-ok (new_file p.capio_dir []) _ e in
    let (wf, e₁, e₁') = >>=-eq-ok (or_fault err_exit d.wf_name) _ e₀' in
    let (l₁, e₂, e₂') = >>=-eq-ok (parse_apps p d.io_graph l₀) _ e₁' in
    let (l₂, e₃, e₃') = >>=-eq-ok (mark_section p mark_permanent d.permanent l₁) _ e₂' in
    let marked =
      Keeps-trans (mark_permanent-Kept p d.permanent l₁ l₂ e₃)
        (mark_exclude-Kept p d.exclude l₂ l e₃') in
    let declared = Keeps-Declared marked (
      parse_apps-Declared p before app after name inputs outputs l₀ l₁ n i o
        (ap (λ apps. parse_apps p apps l₀) (sym graph) ∙ e₂)) in
    (declared.reads, declared.writes)
