-- ===== src/JsonParser/Keeps.antt =====
-- The operations of the parser, src/server/capio-cl-engine/json_parser.hpp, keep the files of the
-- table, and the producers and consumers of each.
use mathlib.Core.Path.{subst}
use capio_v.Prelude.{
  ◌≡◌, refl, ap, ◌∙◌, Bool, true, false, some, List, [], ◌∷◌, ◌++◌, Bool-cases, Option-cases, inl,
  inr, if◌then◌else◌, arith,
}
use capio_v.Prelude.Int.{to_int, negsuc, int_beq}
use capio_v.Prelude.Eq.{Text, text_eq, ◌==◌, contains}
use capio_v.Prelude.Assoc.{find, update, find-update}
use capio_v.Prelude.Result.{ok, >>=-eq-ok, ok_injective}
use capio_v.Engine.{
  Location, Locations, new_file, new_files, add_consumer, add_producer, strip_spaces,
  set_directory_file_count, set_file, set_directory, set_commit_rule, set_fire_rule,
  set_commited_number, set_file_deps,
}
use capio_v.Engine.NewFile.{find-new_file, find-new_files}
use capio_v.JsonParser.{Streaming, set_n_files, set_kind, update_metadata, update_streaming}

pub record Grows (f f' : Location) : Type 0 where
  pub more_producers : (x : Text) → contains x f.producers ≡ true → contains x f'.producers ≡ true
  pub more_consumers : (x : Text) → contains x f.consumers ≡ true → contains x f'.consumers ≡ true

-- Every file stays in the table, with its producers and consumers.
pub record Keeps (l l' : Locations) : Type 0 where
  pub kept :
      (q : Text) (f : Location)
      → find q l ≡ some f
      → (f' : Location) × (find q l' ≡ some f') × Grows f f'

same : (f : Location) → Grows f f
same f = record { more_producers = λ x h. h; more_consumers = λ x h. h }

pub Keeps-refl : (l : Locations) → Keeps l l
Keeps-refl l = record { kept = λ q f e. (f, e, same f) }

pub Keeps-trans : {a b c : Locations} → Keeps a b → Keeps b c → Keeps a c
Keeps-trans ab bc = record {
  kept = λ q f e.
      let (g, e₁, fg) = ab.kept q f e in
      let (h, e₂, gh) = bc.kept q g e₁ in
      (
        h,
        e₂,
        record {
          more_producers = λ x k. gh.more_producers x (fg.more_producers x k);
          more_consumers = λ x k. gh.more_consumers x (fg.more_consumers x k);
        },
      );
}

update-Keeps :
    (path : Text) (g : Location → Location) (l : Locations)
    → ((f : Location) → Grows f (g f))
    → Keeps l (update path g l)
update-Keeps path g l grows = record { kept = go }
  where
    go :
        (q : Text) (f : Location)
        → find q l ≡ some f
        → (f' : Location) × (find q (update path g l) ≡ some f') × Grows f f'
    go q f e = elim (Bool-cases (path == q)) [
      | inl here ↦ (g f, ground (arith, here, e, find-update path q g l), grows f)
      | inr other ↦ (f, ground (arith, other, e, find-update path q g l), same f)
    ]

-- An update that touches no producer and no consumer.
pub rules-Keeps :
    (path : Text) (g : Location → Location) (l : Locations)
    → ((f : Location) → ((g f).producers ≡ f.producers) × ((g f).consumers ≡ f.consumers))
    → Keeps l (update path g l)
rules-Keeps path g l same_lists = update-Keeps path g l λ f. record {
  more_producers = λ x h. ap (contains x) (same_lists f).0 ∙ h;
  more_consumers = λ x h. ap (contains x) (same_lists f).1 ∙ h;
}

pub new_file-Keeps : (path : Text) (l l' : Locations) → new_file path l ≡ ok l' → Keeps l l'
new_file-Keeps path l l' e = record { kept = λ q f h. (f, find-new_file path q l e h, same f) }

new_files-Keeps : (paths : List Text) (l l' : Locations) → new_files paths l ≡ ok l' → Keeps l l'
new_files-Keeps paths l l' e = record { kept = λ q f h. (f, find-new_files paths q l e h, same f) }

contains_snoc :
    (x y : Text) (xs : List Text) → contains x xs ≡ true → contains x (xs ++ y ∷ []) ≡ true
unfolding contains
contains_snoc x y [] h = absurd (cc)
contains_snoc x y (z ∷ xs) h =
    ground (arith, h, λ (h' : contains x xs ≡ true). contains_snoc x y xs h')

pub add_consumer-Keeps :
    (path app_name : Text) (l : Locations) → Keeps l (add_consumer path app_name l)
unfolding add_consumer
add_consumer-Keeps path app_name l = update-Keeps path _ l λ f. record {
  more_producers = λ x h. h;
  more_consumers = λ x h. contains_snoc x (strip_spaces app_name) f.consumers h;
}

pub add_producer-Keeps :
    (path app_name : Text) (l l' : Locations) → add_producer path app_name l ≡ ok l' → Keeps l l'
unfolding add_producer
add_producer-Keeps path app_name l l' e =
    let (m, e₁, e₂) = >>=-eq-ok (new_file path l) _ e in
    subst (Keeps l) (ok_injective _ _ e₂) (
      Keeps-trans (new_file-Keeps path l m e₁) (
        update-Keeps path _ m λ f. record {
          more_producers = λ x h. contains_snoc x (strip_spaces app_name) f.producers h;
          more_consumers = λ x h. h;
        }))

set_file_deps-Keeps :
    (path : Text) (deps : List Text) (l l' : Locations)
    → set_file_deps path deps l ≡ ok l'
    → Keeps l l'
unfolding set_file_deps
set_file_deps-Keeps path deps l l' e = elim (Option-cases (find path l)) [
  | inl absent ↦ absurd (ground (arith, e, absent))
  | inr (f, there) ↦
      Keeps-trans (rules-Keeps path (λ g. record g { file_deps = deps }) l (λ g. (refl, refl)))
        (new_files-Keeps deps _ l' (ground (arith, e, there)))
]

set_n_files-Keeps : (s : Streaming) (path : Text) (l : Locations) → Keeps l (set_n_files s path l)
unfolding set_n_files set_directory_file_count
set_n_files-Keeps s path l = go (int_beq s.n_files (negsuc 0))
  where
    go :
        (b : Bool)
        → Keeps l
            (if b then l else update path (λ f. record f { directory_file_count = s.n_files }) l)
    go true = Keeps-refl l
    go false = rules-Keeps path _ l (λ f. (refl, refl))

set_kind-Keeps : (s : Streaming) (path : Text) (l : Locations) → Keeps l (set_kind s path l)
unfolding set_kind set_file set_directory
set_kind-Keeps s path l = go s.is_file
  where
    go :
        (b : Bool)
        → Keeps l (
            if b
            then update path (λ f. record f { is_file = true }) l
            else update path (λ f. record f { is_file = false }) l)
    go true = rules-Keeps path _ l (λ f. (refl, refl))
    go false = rules-Keeps path _ l (λ f. (refl, refl))

update_metadata-Keeps :
    (s : Streaming) (path : Text) (l l' : Locations) → update_metadata s path l ≡ ok l' → Keeps l l'
unfolding update_metadata set_commit_rule set_fire_rule set_commited_number
update_metadata-Keeps s path l l' e = Keeps-trans (set_n_files-Keeps s path l) (
    Keeps-trans (set_kind-Keeps s path (set_n_files s path l)) (
      Keeps-trans
        (rules-Keeps path (λ f. record f { commit_rule = s.commit_rule }) _ (λ f. (refl, refl)))
        (Keeps-trans (rules-Keeps path (λ f. record f { fire_rule = s.mode }) _ (λ f. (refl, refl)))
          (Keeps-trans
            (rules-Keeps path (λ f. record f { commit_close_count = to_int s.n_close }) _
              (λ f. (refl, refl)))
            (set_file_deps-Keeps path s.file_deps _ l' e)))))

pub update_streaming-Keeps :
    (s : Streaming) (paths : List Text) (l l' : Locations)
    → update_streaming s paths l ≡ ok l'
    → Keeps l l'
unfolding update_streaming
update_streaming-Keeps s [] l l' e = subst (Keeps l) (ok_injective _ _ e) (Keeps-refl l)
update_streaming-Keeps s (path ∷ paths) l l' e =
    let (m, e₁, e₂) = >>=-eq-ok (update_metadata s path l) (update_streaming s paths) e in
    Keeps-trans (update_metadata-Keeps s path l m e₁) (update_streaming-Keeps s paths m l' e₂)
