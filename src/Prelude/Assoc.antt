-- ===== src/Prelude/Assoc.antt =====
-- `std::unordered_map` as an association list. The order of the list stands for the map's
-- iteration order, which the standard leaves open.
use mathlib.Core.Path.{◌≡◌, refl}
use mathlib.Core.Bool.{Bool, true, false}
use mathlib.Core.Option.{Option, none, some}
use mathlib.Core.Option
use mathlib.Core.List.{List, [], ◌∷◌, map}
use native.Mathlib.Omega.{arith}
use capio_v.Prelude.Tests.{if◌then◌else◌}
use capio_v.Prelude.Eq.{Eq, ◌==◌}

abbrev pub Assoc {ℓ κ} : Type ℓ → Type κ → Type (ℓ ⊔ κ)
Assoc K V = List (K × V)

module _ {ℓ κ} {K : Type ℓ} {V : Type κ} ⦃e : Eq K⦄ where
  -- m.find(k), and m.at(k) without its exception
  unfoldable pub find : K → Assoc K V → Option V
  find k [] = none
  find k ((j, v) ∷ m) = if j == k then some v else find k m

  unfoldable pub has : K → Assoc K V → Bool
  has k [] = false
  has k ((j, v) ∷ m) = if j == k then true else has k m

  -- m.emplace(k, v), m.try_emplace(k, v), m.insert({k, v}): an entry that is there stays
  unfoldable pub emplace : K → V → Assoc K V → Assoc K V
  unfolding has
  emplace k v m = if has k m then m else (k, v) ∷ m

  -- m.at(k) = f(m.at(k)), for a key that is there
  unfoldable pub update : K → (V → V) → Assoc K V → Assoc K V
  update k f [] = []
  update k f ((j, v) ∷ m) = if j == k then (j, f v) ∷ m else (j, v) ∷ update k f m

  -- m.erase(k)
  unfoldable pub erase : K → Assoc K V → Assoc K V
  erase k [] = []
  erase k ((j, v) ∷ m) = let rest = erase k m in if j == k then rest else (j, v) ∷ rest

  abbrev pub keys : Assoc K V → List K
  keys = map (λ entry. entry.0)

  pub has-find :
      (k : K) (m : Assoc K V) → has k m ≡ (elim (find k m) [ none ↦ false | some _ ↦ true ])
  unfolding find has
  has-find k [] = refl
  has-find k ((j, v) ∷ m) = ground (arith, has-find k m)

  pub find-emplace :
      (k j : K) (v : V) (m : Assoc K V)
      → find j (emplace k v m) ≡ (if has k m then find j m else if k == j then some v else find j m)
  unfolding find emplace
  find-emplace k j v m = ground arith

  pub find-update :
      (k j : K) (f : V → V) (m : Assoc K V)
      → find j (update k f m) ≡ (if k == j then Option.map f (find j m) else find j m)
  unfolding find update
  find-update k j f [] = ground arith
  find-update k j f ((i, v) ∷ m) =
      ground (arith, find-update k j f m, e.beq_iff k j, e.beq_iff i k, e.beq_iff i j)

  pub find-erase :
      (k j : K) (m : Assoc K V) → find j (erase k m) ≡ (if k == j then none else find j m)
  unfolding find erase
  find-erase k j [] = ground arith
  find-erase k j ((i, v) ∷ m) =
      ground (arith, find-erase k j m, e.beq_iff k j, e.beq_iff i k, e.beq_iff i j)

  pub has-update : (k j : K) (f : V → V) (m : Assoc K V) → has j (update k f m) ≡ has j m
  unfolding has update
  has-update k j f [] = refl
  has-update k j f ((i, v) ∷ m) = ground (arith, has-update k j f m)

  pub has-erase :
      (k j : K) (m : Assoc K V) → has j (erase k m) ≡ (if k == j then false else has j m)
  unfolding has erase
  has-erase k j [] = ground arith
  has-erase k j ((i, v) ∷ m) =
      ground (arith, has-erase k j m, e.beq_iff k j, e.beq_iff i k, e.beq_iff i j)

  pub has-emplace :
      (k j : K) (v : V) (m : Assoc K V) → has j (emplace k v m) ≡ (if k == j then true else has j m)
  unfolding has emplace
  has-emplace k j v m = ground (arith, e.beq_iff k j)

  pub update-update :
      (k : K) (f g : V → V) (m : Assoc K V) → update k f (update k g m) ≡ update k (λ v. f (g v)) m
  unfolding update
  update-update k f g [] = refl
  update-update k f g ((j, v) ∷ m) = ground (arith, update-update k f g m)

  pub update_id : (k : K) (m : Assoc K V) → update k (λ v. v) m ≡ m
  unfolding update
  update_id k [] = refl
  update_id k ((j, v) ∷ m) = ground (arith, update_id k m)

pub ruleset assoc_laws = (find-emplace, find-update, find-erase)
