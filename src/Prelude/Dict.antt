-- ===== src/Prelude/Dict.antt =====
-- Python's `dict` and a directory's listing: keys with values, where the first entry of a key counts.
use mathlib.Core.Path.{◌≡◌, refl, ap}
use mathlib.Core.Option.{Option, none, some}
use mathlib.Core.List.{List, [], ◌∷◌}
use native.Mathlib.Omega.{arith}
use nebula_ca_harness.Prelude.Equality.{Eq, ◌==◌}
use nebula_ca_harness.Prelude.Tests.{if◌then◌else◌, Bool-cases}
use mathlib.Core.Logic.{inl, inr}

abbrev pub Dict {ℓ κ} : Type ℓ → Type κ → Type (ℓ ⊔ κ)
Dict K V = List (K × V)

abbrev pub keys {ℓ κ} : {K : Type ℓ} {V : Type κ} → Dict K V → List K
keys [] = []
keys ((k, v) ∷ d) = k ∷ keys d

module _ {ℓ κ} {K : Type ℓ} {V : Type κ} ⦃e : Eq K⦄ where
  -- `d.get(k)`
  unfoldable pub lookup : K → Dict K V → Option V
  lookup k [] = none
  lookup k ((j, v) ∷ d) = if j == k then some v else lookup k d

  -- `d.pop(k, None)`
  unfoldable pub remove : K → Dict K V → Dict K V
  remove k [] = []
  remove k ((j, v) ∷ d) = let rest = remove k d in if j == k then rest else (j, v) ∷ rest

  -- `d[k] = v`: in place for a key that is there, at the end for a new one.
  unfoldable pub put : K → V → Dict K V → Dict K V
  put k v [] = (k, v) ∷ []
  put k v ((j, w) ∷ d) = if j == k then (k, v) ∷ d else (j, w) ∷ put k v d

  pub lookup-nil : (k : K) → lookup k [] ≡ none
  unfolding lookup
  lookup-nil k = refl

  pub lookup-remove :
      (j k : K) (d : Dict K V) → lookup j (remove k d) ≡ (if k == j then none else lookup j d)
  unfolding lookup remove
  lookup-remove j k [] = ground arith
  lookup-remove j k ((i, v) ∷ d) =
      ground (arith, lookup-remove j k d, e.beq_iff i k, e.beq_iff i j, e.beq_iff k j)

  pub lookup-put :
      (j k : K) (v : V) (d : Dict K V)
      → lookup j (put k v d) ≡ (if k == j then some v else lookup j d)
  unfolding lookup put
  lookup-put j k v [] = refl
  lookup-put j k v ((i, w) ∷ d) =
      ground (arith, lookup-put j k v d, e.beq_iff i k, e.beq_iff i j, e.beq_iff k j)

  pub put-put : (k : K) (v w : V) (d : Dict K V) → put k w (put k v d) ≡ put k w d
  unfolding put
  put-put k v w [] = rw ((e.beq_iff k k).1 refl, put) refl
  put-put k v w ((j, x) ∷ d) = elim (Bool-cases (j == k)) [
    | inl same ↦ rw (same, put) (rw ((e.beq_iff k k).1 refl, put) refl)
    | inr other ↦ rw (other, put) (rw (other, put) (ap (λ t. (j, x) ∷ t) (put-put k v w d)))
  ]

pub ruleset dict_laws = (lookup-nil, lookup-remove, lookup-put)
