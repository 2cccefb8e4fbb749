-- ===== src/Base/Maps.antt =====
-- A Go map as an association list, in an order in which the runtime may walk it.
use mathlib.Core.Path.{◌≡◌, refl}
use mathlib.Core.Option.{Option, none, some}
use mathlib.Core.List.{List, [], ◌∷◌, map}
use native.Mathlib.Omega.{arith}
use sdcio_schema_server.Base.Tests.{Eq, ◌==◌, if◌then◌else◌}

abbrev pub Dict {ℓ κ} : Type ℓ → Type κ → Type (ℓ ⊔ κ)
Dict K V = List (K × V)

module _ {ℓ κ} {K : Type ℓ} {V : Type κ} ⦃e : Eq K⦄ where
  -- `v, ok := m[k]`
  unfoldable pub lookup : K → Dict K V → Option V
  lookup wanted ((k, v) ∷ rest) = if k == wanted then some v else lookup wanted rest
  lookup wanted [] = none

  -- `m[k] = v`
  unfoldable pub insert : K → V → Dict K V → Dict K V
  insert new v ((k, old) ∷ rest) =
      if k == new then (new, v) ∷ rest else (k, old) ∷ insert new v rest
  insert new v [] = (new, v) ∷ []

  -- `delete(m, k)`
  unfoldable pub remove : K → Dict K V → Dict K V
  remove k [] = []
  remove k ((j, w) ∷ m) = let rest = remove k m in if j == k then rest else (j, w) ∷ rest

  pub lookup-insert :
      (new wanted : K) (v : V) (m : Dict K V)
      → lookup wanted (insert new v m) ≡ (if new == wanted then some v else lookup wanted m)
  unfolding lookup insert
  lookup-insert new wanted v ((k, old) ∷ rest) = ground (
    arith,
    e.is_same_iff new wanted,
    e.is_same_iff k new,
    e.is_same_iff k wanted,
    lookup-insert new wanted v rest,
  )
  lookup-insert new wanted v [] = refl

  pub lookup-remove :
      (k j : K) (m : Dict K V) → lookup j (remove k m) ≡ (if k == j then none else lookup j m)
  unfolding lookup remove
  lookup-remove k j [] = ground arith
  lookup-remove k j ((i, w) ∷ m) =
      ground (arith, e.is_same_iff k j, e.is_same_iff i k, e.is_same_iff i j, lookup-remove k j m)

  pub remove-insert :
      (k : K) (v : V) (m : Dict K V) → lookup k m ≡ none → remove k (insert k v m) ≡ m
  unfolding lookup insert remove
  remove-insert k v [] h = ground (arith, e.is_same_iff k k)
  remove-insert k v ((j, w) ∷ m) h = ground (arith, e.is_same_iff j k, remove-insert k v m)

-- The keys, in the order of the walk.
abbrev pub keys {ℓ κ} : {K : Type ℓ} {V : Type κ} → Dict K V → List K
keys m = map (λ p. p.0) m
