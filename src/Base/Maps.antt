-- ===== src/Base/Maps.antt =====
-- Go's `map` as an association list with one entry for a key.
use mathlib.Core.Path.{◌≡◌, refl, ◌∙◌}
use mathlib.Core.Logic.{inl, inr}
use mathlib.Core.Bool.{Bool, true, false}
use mathlib.Core.Option.{Option, none, some}
use mathlib.Core.List.{List, [], ◌∷◌}
use native.Mathlib.Omega.{arith}
use marvo.Base.Tests.{if◌then◌else◌, or_else, Bool-cases}
use marvo.Base.Equality.{Eq, ◌==◌}

abbrev pub Map {ℓ κ} : Type ℓ → Type κ → Type (ℓ ⊔ κ)
Map K V = List (K × V)

module _ {ℓ κ} {K : Type ℓ} {V : Type κ} ⦃e : Eq K⦄ where
  -- m[k], with whether the key is there
  unfoldable pub lookup : K → Map K V → Option V
  lookup k [] = none
  lookup k ((j, v) ∷ rest) = let found = lookup k rest in if j == k then some v else found

  -- m[k] = v
  unfoldable pub insert : K → V → Map K V → Map K V
  insert k v [] = (k, v) ∷ []
  insert k v ((j, w) ∷ rest) =
      let more = insert k v rest in if j == k then (k, v) ∷ rest else (j, w) ∷ more

  -- delete(m, k)
  unfoldable pub erase : K → Map K V → Map K V
  erase k [] = []
  erase k ((j, w) ∷ m) = let rest = erase k m in if j == k then rest else (j, w) ∷ rest

  -- len(m) == 0
  unfoldable pub is_empty : Map K V → Bool
  is_empty [] = true
  is_empty (x ∷ m) = false

  pub lookup-nil : (k : K) → lookup k [] ≡ none
  unfolding lookup
  lookup-nil k = refl

  pub lookup-insert :
      (k j : K) (v : V) (m : Map K V)
      → lookup j (insert k v m) ≡ (if k == j then some v else lookup j m)
  unfolding insert lookup
  lookup-insert k j v [] = refl
  lookup-insert k j v ((old, w) ∷ rest) =
      ground (arith, lookup-insert k j v rest, e.same_iff k j, e.same_iff old j, e.same_iff old k)

  pub lookup-erase :
      (k j : K) (m : Map K V) → lookup j (erase k m) ≡ (if k == j then none else lookup j m)
  unfolding lookup erase
  lookup-erase k j [] = ground arith
  lookup-erase k j ((i, w) ∷ m) =
      ground (arith, e.same_iff k j, e.same_iff i k, e.same_iff i j, lookup-erase k j m)

  pub lookup_of_is_empty : (k : K) (m : Map K V) → is_empty m ≡ true → lookup k m ≡ none
  unfolding lookup is_empty
  lookup_of_is_empty k [] h = refl
  lookup_of_is_empty k (x ∷ m) h = cc

  -- One entry for a key.
  abbrev pub IsUnique : Map K V → Type κ
  IsUnique [] = Unit
  IsUnique ((j, v) ∷ m) = (lookup j m ≡ none) × IsUnique m

  -- for k, v := range n { m[k] = v }
  unfoldable pub insert_all : Map K V → Map K V → Map K V
  insert_all [] m = m
  insert_all ((k, v) ∷ n) m = insert_all n (insert k v m)

  pub insert-IsUnique : (k : K) (v : V) (m : Map K V) → IsUnique m → IsUnique (insert k v m)
  unfolding lookup insert
  insert-IsUnique k v [] h = (refl, tt)
  insert-IsUnique k v ((j, w) ∷ m) h = elim (Bool-cases (j == k)) [
    | inl same ↦ rw same ((rw (← (e.same_iff j k).0 same) h.0), h.1)
    | inr other ↦ rw other (
      lookup-insert k j v m ∙ ground (arith, h.0, e.same_iff k j, e.same_iff j k),
      insert-IsUnique k v m h.1,
    )
  ]

  pub erase-IsUnique : (k : K) (m : Map K V) → IsUnique m → IsUnique (erase k m)
  unfolding erase
  erase-IsUnique k [] h = tt
  erase-IsUnique k ((j, w) ∷ m) h = elim (Bool-cases (j == k)) [
    | inl same ↦ rw same (erase-IsUnique k m h.1)
    | inr other ↦ rw other (lookup-erase k j m ∙ ground (arith, h.0), erase-IsUnique k m h.1)
  ]

  pub insert_all-IsUnique : (n m : Map K V) → IsUnique m → IsUnique (insert_all n m)
  unfolding insert_all
  insert_all-IsUnique [] m h = h
  insert_all-IsUnique ((k, v) ∷ n) m h =
      insert_all-IsUnique n (insert k v m) (insert-IsUnique k v m h)

  pub lookup-insert_all :
      (n m : Map K V) (j : K)
      → IsUnique n
      → lookup j (insert_all n m) ≡ or_else (lookup j n) (lookup j m)
  unfolding lookup insert_all
  lookup-insert_all [] m j h = refl
  lookup-insert_all ((k, v) ∷ n) m j h =
      lookup-insert_all n (insert k v m) j h.1
      ∙ ground (arith, lookup-insert k j v m, e.same_iff k j, h.0)
