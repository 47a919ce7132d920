-- ===== src/Prelude/Dict.antt =====
-- Go's maps as association lists. A range loop visits the entries in the order of the list; Go
-- leaves that order open, so a statement about every list is a statement about every order.
use mathlib.Core.Path.{◌≡◌, refl}
use mathlib.Core.Option.{Option, none, some}
use mathlib.Core.List.{List, [], ◌∷◌}
use native.Mathlib.Omega.{arith}
use mathlib.Core.Bool.{Bool, true, false, ◌||◌}
use hpxnode.Prelude.Lists.{All}
use hpxnode.Prelude.Tests.{if◌then◌else◌, Eq, ◌==◌}

abbrev pub Dict {ℓ κ} : Type ℓ → Type κ → Type (ℓ ⊔ κ)
Dict K V = List (K × V)

module _ {ℓ κ} {K : Type ℓ} {V : Type κ} where
  abbrev pub keys : Dict K V → List K
  keys [] = []
  keys ((k, v) ∷ m) = k ∷ keys m

  abbrev pub dict_values : Dict K V → List V
  dict_values [] = []
  dict_values ((k, v) ∷ m) = v ∷ dict_values m

module _ {ℓ} {K : Type ℓ} ⦃e : Eq K⦄ where
  pub beq_refl : (k : K) → (k == k) ≡ true
  beq_refl k = (e.same_iff k k).1 refl

  -- slices.Contains
  unfoldable pub elem : K → List K → Bool
  elem x [] = false
  elem x (y ∷ l) = y == x || elem x l

module _ {ℓ κ} {K : Type ℓ} {V : Type κ} ⦃e : Eq K⦄ where
  -- `v, ok := m[k]`
  unfoldable pub lookup : K → Dict K V → Option V
  lookup key [] = none
  lookup key ((i, x) ∷ rest) = if i == key then some x else lookup key rest

  -- `m[k] = v`
  unfoldable pub insert : K → V → Dict K V → Dict K V
  insert key x [] = (key, x) ∷ []
  insert key x ((i, y) ∷ rest) = if i == key then (key, x) ∷ rest else (i, y) ∷ insert key x rest

  -- `delete(m, k)`
  unfoldable pub delete : K → Dict K V → Dict K V
  delete k [] = []
  delete k ((j, w) ∷ m) = let rest = delete k m in if j == k then rest else (j, w) ∷ rest

  -- No two entries have one key, as in every Go map.
  abbrev pub IsDict : Dict K V → Type κ
  IsDict [] = Unit
  IsDict ((k, v) ∷ m) = (lookup k m ≡ none) × IsDict m

  pub lookup-insert :
      (key other : K) (x : V) (m : Dict K V)
      → lookup other (insert key x m) ≡ (if key == other then some x else lookup other m)
  unfolding lookup insert
  lookup-insert key other x [] = refl
  lookup-insert key other x ((i, y) ∷ m) = ground (
    arith,
    e.same_iff key other,
    e.same_iff i key,
    e.same_iff i other,
    lookup-insert key other x m,
  )

  pub lookup-delete :
      (k j : K) (m : Dict K V) → lookup j (delete k m) ≡ (if k == j then none else lookup j m)
  unfolding lookup delete
  lookup-delete k j [] = ground arith
  lookup-delete k j ((i, w) ∷ m) =
      ground (arith, e.same_iff k j, e.same_iff i k, e.same_iff i j, lookup-delete k j m)

  pub insert-IsDict : (k : K) (v : V) (m : Dict K V) → IsDict m → IsDict (insert k v m)
  unfolding lookup insert
  insert-IsDict k v [] d = ground arith
  insert-IsDict k v ((j, w) ∷ m) d =
      ground (arith, e.same_iff j k, e.same_iff k j, insert-IsDict k v m d.1, lookup-insert k j v m)

  pub delete-IsDict : (k : K) (m : Dict K V) → IsDict m → IsDict (delete k m)
  unfolding delete
  delete-IsDict k [] d = d
  delete-IsDict k ((j, w) ∷ m) d = ground (arith, delete-IsDict k m d.1, lookup-delete k j m)

  -- Deleting a key that is not there changes nothing.
  pub delete_absent : (k : K) (m : Dict K V) → lookup k m ≡ none → delete k m ≡ m
  unfolding lookup delete
  delete_absent k [] h = refl
  delete_absent k ((j, w) ∷ m) h = ground (arith, delete_absent k m)

  -- A key that is not there differs from each key of the map.
  pub keys_apart : (k : K) (m : Dict K V) → lookup k m ≡ none → All (λ j. (j == k) ≡ false) (keys m)
  unfolding lookup
  keys_apart k [] h = tt
  keys_apart k ((j, w) ∷ m) h = ground (arith, keys_apart k m)
