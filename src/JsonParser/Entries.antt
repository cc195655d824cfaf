-- ===== src/JsonParser/Entries.antt =====
-- Which entries of a "streaming" section src/server/capio-cl-engine/json_parser.hpp accepts.
use mathlib.Core.Path.{subst}
use capio_v.Prelude.{
  ◌≡◌, ap, ◌∙◌, ◌↔◌, ◌⊎◌, Bool, true, false, Option, none, some, List, [], Bool-cases, Option-cases,
  inl, inr, arith,
}
use capio_v.Prelude.Int.{ℤ, negsuc}
use capio_v.Prelude.Eq.{Text, text_eq, ◌==◌}
use capio_v.Prelude.Result.{ok, or_fault, err_exit, >>=-eq-ok, Result-cases}
use capio_v.Constants.{capio_file_committed_on_close, capio_file_committed_on_file}
use capio_v.JsonParser.{Streaming}
use capio_v.JsonParser.Number.{is_int, stol}
use capio_v.JsonParser.Parse.{
  Entry, Paths, some_names, entry_names, split_colon, resolve_all, commit_rule_of, deps_of,
  read_entry,
}

-- "name" or "dirname" has at least one name.
abbrev pub HasNames : Entry → Type 0
HasNames e =
    (names : List Text) × ((some_names e.name ≡ some names) ⊎ (some_names e.dirname ≡ some names))

-- a rule with no colon, or on_close with a number that fits a long
abbrev pub IsRule : Text → Text → Type 0
IsRule committed rule =
    ((split_colon committed ≡ none) × (rule ≡ committed))
    ⊎ ((n_close_str : Text) × (split_colon committed ≡ some (rule, n_close_str))
        × ((rule == capio_file_committed_on_close) ≡ true)
        × (is_int n_close_str ≡ true)
        × (n : ℤ) × (stol n_close_str ≡ ok n))

-- The rule on_file has dependencies.
abbrev pub HasDeps : Text → Entry → Type 0
HasDeps rule e =
    ((rule == capio_file_committed_on_file) ≡ false)
    ⊎ ((deps : List Text) × (e.file_deps ≡ some deps))

abbrev pub IsComplete : Entry → Type 0
IsComplete e =
    HasNames e
    × (committed : Text) × (rule : Text) × (e.committed ≡ some committed)
    × IsRule committed rule
    × HasDeps rule e

names_ok : (e : Entry) → HasNames e ↔ ((named : List Text × Bool) × (entry_names e ≡ ok named))
unfolding entry_names
names_ok e = (there, back)
  where
    there : HasNames e → (named : List Text × Bool) × (entry_names e ≡ ok named)
    there (names, h) = elim (Option-cases (some_names e.name)) [
      | inl a ↦ ((names, false), ground (arith, h, a))
      | inr (ns, a) ↦ ((ns, true), ground (arith, a))
    ]

    back : ((named : List Text × Bool) × (entry_names e ≡ ok named)) → HasNames e
    back (named, h) = elim (Option-cases (some_names e.name)) [
      | inl a ↦ elim (Option-cases (some_names e.dirname)) [
        | inl b ↦ absurd (ground (arith, h, a, b))
        | inr (ns, b) ↦ (ns, inr b)
      ]
      | inr (ns, a) ↦ (ns, inl a)
    ]

IsRule-ok :
    (committed rule : Text)
    → IsRule committed rule ↔ ((n : ℤ) × (commit_rule_of committed ≡ ok (rule, n)))
unfolding commit_rule_of
IsRule-ok committed rule = (there, back)
  where
    there : IsRule committed rule → (n : ℤ) × (commit_rule_of committed ≡ ok (rule, n))
    there (inl (a, b)) = (negsuc 0, ground (arith, a, b))
    there (inr (str, a, b, c, n, d)) = (n, ground (arith, a, b, c, d))

    back : ((n : ℤ) × (commit_rule_of committed ≡ ok (rule, n))) → IsRule committed rule
    back (n, h) = elim (Option-cases (split_colon committed)) [
      | inl a ↦ inl (a, ground (arith, h, a))
      | inr ((r, str), a) ↦ elim (Bool-cases (r == capio_file_committed_on_close)) [
        | inr c ↦ absurd (ground (arith, h, a, c))
        | inl c ↦ elim (Bool-cases (is_int str)) [
          | inr d ↦ absurd (ground (arith, h, a, c, d))
          | inl d ↦ elim (Result-cases (stol str)) [
            | inr (f, b) ↦ absurd (ground (arith, h, a, c, d, b))
            | inl (m, b) ↦
                let same : r ≡ rule = ground (arith, h, a, c, d, b) in
                inr (
                  str,
                  a ∙ ap (λ t. some (t, str)) same,
                  subst (λ t. (t == capio_file_committed_on_close) ≡ true) same c,
                  d,
                  m,
                  b,
                )
          ]
        ]
      ]
    ]

or_fault-eq-ok : {A : Type 0} (o : Option A) {a : A} → or_fault err_exit o ≡ ok a → o ≡ some a
or_fault-eq-ok none h = absurd (cc)
or_fault-eq-ok (some b) h = ground (arith, h)

deps_ok :
    (p : Paths) (rule : Text) (e : Entry)
    → HasDeps rule e ↔ ((deps : List Text) × (deps_of p rule e ≡ ok deps))
unfolding deps_of
deps_ok p rule e = (there, back)
  where
    there : HasDeps rule e → (deps : List Text) × (deps_of p rule e ≡ ok deps)
    there h = elim (Bool-cases (rule == capio_file_committed_on_file)) [
      | inr a ↦ ([], ground (arith, a))
      | inl a ↦ elim (Option-cases e.file_deps) [
        | inl b ↦ absurd (ground (arith, h, a, b))
        | inr (deps, b) ↦ (resolve_all p deps, ground (arith, a, b))
      ]
    ]

    back : ((deps : List Text) × (deps_of p rule e ≡ ok deps)) → HasDeps rule e
    back (deps, h) = elim (Bool-cases (rule == capio_file_committed_on_file)) [
      | inr a ↦ inl a
      | inl a ↦ elim (Option-cases e.file_deps) [
        | inl b ↦ absurd (ground (arith, h, a, b))
        | inr (ds, b) ↦ inr (ds, b)
      ]
    ]

-- An entry of a "streaming" section is accepted exactly if it has a name or a directory name, a
-- commit rule that has no colon or is on_close with a number that fits a long, and, for the rule
-- on_file, its dependencies. Any other entry ends the process.
pub read_entry-ok_iff :
    (p : Paths) (e : Entry) → ((r : List Text × Streaming) × (read_entry p e ≡ ok r)) ↔ IsComplete e
unfolding read_entry
read_entry-ok_iff p e = (complete, accepted)
  where
    complete : ((r : List Text × Streaming) × (read_entry p e ≡ ok r)) → IsComplete e
    complete (r, h) =
        let (named, e₁, h₁) = >>=-eq-ok (entry_names e) _ h in
        let (committed, e₂, h₂) = >>=-eq-ok (or_fault err_exit e.committed) _ h₁ in
        let (rule, e₃, h₃) = >>=-eq-ok (commit_rule_of committed) _ h₂ in
        let (deps, e₄, h₄) = >>=-eq-ok (deps_of p rule.0 e) _ h₃ in
        (
          (names_ok e).1 (named, e₁),
          committed,
          rule.0,
          or_fault-eq-ok e.committed e₂,
          (IsRule-ok committed rule.0).1 (rule.1, e₃),
          (deps_ok p rule.0 e).1 (deps, e₄),
        )

    accepted : IsComplete e → (r : List Text × Streaming) × (read_entry p e ≡ ok r)
    accepted (names, committed, rule, c, is_rule, has_deps) =
        let (named, e₁) = (names_ok e).0 names in
        let (n, e₂) = (IsRule-ok committed rule).0 is_rule in
        let (deps, e₃) = (deps_ok p rule e).0 has_deps in
        elim (Result-cases (read_entry p e)) [
          | inl r ↦ r
          | inr (f, b) ↦ absurd (ground (arith, b, e₁, c, e₂, e₃))
        ]
