-- ===== src/Prelude/Assoc.antt =====
-- `HashMap` as an association list: at most one value is ever read at a key.
use mathlib.Core.Path.{◌≡◌, refl}
use mathlib.Core.Logic.{inl, inr}
use mathlib.Core.Option.{Option, none, some}
use mathlib.Core.List.{List, [], ◌∷◌}
use native.Mathlib.Omega.{arith}
use b_browser.Prelude.Tests.{if◌then◌else◌, Bool-cases}
use b_browser.Prelude.Eq.{PartialEq, ◌==◌}

abbrev pub Assoc {ℓ κ} : Type ℓ → Type κ → Type (ℓ ⊔ κ)
Assoc K V = List (K × V)

module _ {ℓ κ} {K : Type ℓ} {V : Type κ} ⦃e : PartialEq K⦄ where
  unfoldable pub lookup : K → Assoc K V → Option V
  lookup k [] = none
  lookup k ((key, val) ∷ rest) = if key == k then some val else lookup k rest

  unfoldable pub insert : K → V → Assoc K V → Assoc K V
  insert k v [] = (k, v) ∷ []
  insert k v ((key, old) ∷ rest) = if key == k then (k, v) ∷ rest else (key, old) ∷ insert k v rest

  unfoldable pub remove : K → Assoc K V → Assoc K V
  remove k [] = []
  remove k ((key, val) ∷ m) = let rest = remove k m in if key == k then rest else (key, val) ∷ rest

  pub lookup-insert :
      (at read : K) (new : V) (table : Assoc K V)
      → lookup read (insert at new table) ≡ (if at == read then some new else lookup read table)
  unfolding lookup insert
  lookup-insert at read new [] = ground arith
  lookup-insert at read new ((key, old) ∷ rest) = ground (
    arith,
    lookup-insert at read new rest,
    e.same_iff key read,
    e.same_iff key at,
    e.same_iff at read,
  )

  pub lookup-remove :
      (k j : K) (m : Assoc K V) → lookup j (remove k m) ≡ (if k == j then none else lookup j m)
  unfolding lookup remove
  lookup-remove k j [] = ground arith
  lookup-remove k j ((i, w) ∷ m) =
      ground (arith, e.same_iff k j, e.same_iff i k, e.same_iff i j, lookup-remove k j m)

  -- No key comes twice.
  abbrev pub HasUniqueKeys : Assoc K V → Type κ
  HasUniqueKeys [] = Unit
  HasUniqueKeys ((key, val) ∷ m) = (lookup key m ≡ none) × HasUniqueKeys m

  pub insert-HasUniqueKeys :
      (k : K) (v : V) (m : Assoc K V) → HasUniqueKeys m → HasUniqueKeys (insert k v m)
  unfolding lookup insert
  insert-HasUniqueKeys k v [] u = (refl, tt)
  insert-HasUniqueKeys k v ((key, old) ∷ rest) (fresh, u) = elim (Bool-cases (key == k)) [
    | inl same ↦ rw same (ground (arith, e.same_iff key k), u)
    | inr other ↦ rw other (
      ground (arith, lookup-insert k key v rest, e.same_iff key k, e.same_iff k key),
      insert-HasUniqueKeys k v rest u,
    )
  ]
