-- ===== src/JsonParser/Sections.antt =====
-- Each section of a configuration, parsed by src/server/capio-cl-engine/json_parser.hpp, keeps the
-- files of the table, and the producers and consumers of each.
use mathlib.Core.Path.{subst}
use capio_v.Prelude.{
  ◌≡◌, refl, Bool, true, false, not, Option, none, some, List, [], ◌∷◌, if◌then◌else◌,
}
use capio_v.Prelude.Eq.{Text}
use capio_v.Prelude.Result.{Result, ok, ◌>>=◌, or_fault, err_exit, >>=-eq-ok, ok_injective}
use capio_v.Path.{first_is_subpath_of_second}
use capio_v.Engine.{Locations, new_file, set_permanent, set_exclude}
use capio_v.JsonParser.{update_streaming}
use capio_v.JsonParser.Parse.{
  Entry, App, Paths, is_accepted, resolve, resolve_normal, declare_input, declare_output,
  declare_inputs, declare_outputs, read_entry, parse_streaming, parse_streaming_of, parse_app,
  parse_apps, mark_all, mark_section, mark_permanent, mark_exclude,
}
use capio_v.JsonParser.Keeps.{
  Keeps, Keeps-refl, Keeps-trans, new_file-Keeps, add_consumer-Keeps, add_producer-Keeps,
  rules-Keeps, update_streaming-Keeps,
}

-- The result, if there is one, keeps the table.
abbrev pub Kept : Locations → Result Locations → Type 0
Kept l r = (l' : Locations) → r ≡ ok l' → Keeps l l'

Kept-ok : (l m : Locations) → Keeps l m → Kept l (ok m)
Kept-ok l m k l' e = subst (Keeps l) (ok_injective _ _ e) k

Kept-if :
    (b : Bool) (l : Locations) (r r' : Result Locations)
    → Kept l r
    → Kept l r'
    → Kept l (if b then r else r')
Kept-if true l r r' h h' = h
Kept-if false l r r' h h' = h'

pub Kept-then :
    (l : Locations) (r : Result Locations) (next : Locations → Result Locations)
    → Kept l r
    → ((m : Locations) → Kept m (next m))
    → Kept l (r >>= next)
Kept-then l r next h h' l' e =
    let (m, e₁, e₂) = >>=-eq-ok r next e in Keeps-trans (h m e₁) (h' m l' e₂)

-- a value is read first
pub Kept-read :
    {A : Type 0} (l : Locations) (r : Result A) (next : A → Result Locations)
    → ((a : A) → Kept l (next a))
    → Kept l (r >>= next)
Kept-read l r next h l' e = let (a, e₁, e₂) = >>=-eq-ok r next e in h a l' e₂

declare_input-Kept :
    (p : Paths) (name file : Text) (l : Locations) → Kept l (declare_input p name file l)
unfolding declare_input
declare_input-Kept p name file l =
    Kept-if (not (is_accepted p file)) l _ _ (Kept-ok l l (Keeps-refl l)) (
      Kept-then l (new_file (resolve p file) l) _ (new_file-Keeps (resolve p file) l)
        (λ m. Kept-ok m _ (add_consumer-Keeps (resolve p file) name m)))

declare_output-Kept :
    (p : Paths) (name file : Text) (l : Locations) → Kept l (declare_output p name file l)
unfolding declare_output
declare_output-Kept p name file l =
    Kept-if (not (is_accepted p file)) l _ _ (Kept-ok l l (Keeps-refl l)) (
      Kept-then l (new_file (resolve p file) l) _ (new_file-Keeps (resolve p file) l)
        (add_producer-Keeps (resolve p file) name))

pub declare_inputs-Kept :
    (p : Paths) (name : Text) (files : List Text) (l : Locations)
    → Kept l (declare_inputs p name files l)
unfolding declare_inputs
declare_inputs-Kept p name [] l = Kept-ok l l (Keeps-refl l)
declare_inputs-Kept p name (file ∷ files) l =
    Kept-then l (declare_input p name file l) _ (declare_input-Kept p name file l)
      (declare_inputs-Kept p name files)

pub declare_outputs-Kept :
    (p : Paths) (name : Text) (files : List Text) (l : Locations)
    → Kept l (declare_outputs p name files l)
unfolding declare_outputs
declare_outputs-Kept p name [] l = Kept-ok l l (Keeps-refl l)
declare_outputs-Kept p name (file ∷ files) l =
    Kept-then l (declare_output p name file l) _ (declare_output-Kept p name file l)
      (declare_outputs-Kept p name files)

parse_streaming-Kept :
    (p : Paths) (es : List Entry) (l : Locations) → Kept l (parse_streaming p es l)
unfolding parse_streaming
parse_streaming-Kept p [] l = Kept-ok l l (Keeps-refl l)
parse_streaming-Kept p (e ∷ es) l = Kept-read l (read_entry p e) _ λ read.
    Kept-then l (update_streaming read.1 read.0 l) _ (update_streaming-Keeps read.1 read.0 l)
      (parse_streaming-Kept p es)

pub parse_streaming_of-Kept :
    (p : Paths) (es : Option (List Entry)) (l : Locations) → Kept l (parse_streaming_of p es l)
unfolding parse_streaming_of
parse_streaming_of-Kept p none l = Kept-ok l l (Keeps-refl l)
parse_streaming_of-Kept p (some es) l = parse_streaming-Kept p es l

parse_app-Kept : (p : Paths) (app : App) (l : Locations) → Kept l (parse_app p app l)
unfolding parse_app
parse_app-Kept p app l = Kept-read l (or_fault err_exit app.app_name) _ λ name.
    Kept-read l (or_fault err_exit app.input_stream) _ λ inputs.
      Kept-then l (declare_inputs p name inputs l) _ (declare_inputs-Kept p name inputs l) λ m.
        Kept-read m (or_fault err_exit app.output_stream) _ λ outputs.
          Kept-then m (declare_outputs p name outputs m) _ (declare_outputs-Kept p name outputs m)
            (parse_streaming_of-Kept p app.streaming)

pub parse_apps-Kept : (p : Paths) (apps : List App) (l : Locations) → Kept l (parse_apps p apps l)
unfolding parse_apps
parse_apps-Kept p [] l = Kept-ok l l (Keeps-refl l)
parse_apps-Kept p (app ∷ apps) l =
    Kept-then l (parse_app p app l) _ (parse_app-Kept p app l) (parse_apps-Kept p apps)

abbrev Marks : (Text → Locations → Locations) → Type 0
Marks mark = (name : Text) (l : Locations) → Keeps l (mark name l)

mark_all-Kept :
    (p : Paths) (mark : Text → Locations → Locations)
    → Marks mark
    → (files : List (Option Text)) (l : Locations) → Kept l (mark_all p mark files l)
unfolding mark_all
mark_all-Kept p mark keeps [] l = Kept-ok l l (Keeps-refl l)
mark_all-Kept p mark keeps (file ∷ files) l = Kept-read l (or_fault err_exit file) _ λ name. λ l' e.
    Keeps-trans (marked (first_is_subpath_of_second (resolve_normal p name) p.capio_dir) name)
      (mark_all-Kept p mark keeps files _ l' e)
  where
    marked : (b : Bool) (name : Text) → Keeps l (if b then mark name l else l)
    marked true name = keeps name l
    marked false name = Keeps-refl l

mark_section-Kept :
    (p : Paths) (mark : Text → Locations → Locations)
    → Marks mark
    → (files : Option (List (Option Text))) (l : Locations) → Kept l (mark_section p mark files l)
unfolding mark_section
mark_section-Kept p mark keeps none l = Kept-ok l l (Keeps-refl l)
mark_section-Kept p mark keeps (some files) l = mark_all-Kept p mark keeps files l

pub mark_permanent-Kept :
    (p : Paths) (files : Option (List (Option Text))) (l : Locations)
    → Kept l (mark_section p mark_permanent files l)
unfolding set_permanent
mark_permanent-Kept p =
    mark_section-Kept p mark_permanent λ name l. rules-Keeps name _ l (λ f. (refl, refl))

pub mark_exclude-Kept :
    (p : Paths) (files : Option (List (Option Text))) (l : Locations)
    → Kept l (mark_section p mark_exclude files l)
unfolding set_exclude
mark_exclude-Kept p =
    mark_section-Kept p mark_exclude λ name l. rules-Keeps name _ l (λ f. (refl, refl))
