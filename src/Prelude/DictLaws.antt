-- ===== src/Prelude/DictLaws.antt =====
-- Sizes of maps.
use Prim.Native.Nat.{◌+◌, ◌≤◌}
use mathlib.Core.Bool.{true}
use mathlib.Core.List.{[], ◌∷◌}
use mathlib.Core.Option.{none, some, some-injective}
use mathlib.Core.Path.{◌≡◌, refl, ap, subst, sym, ◌∙◌}
use mathlib.Core.Logic.{◌⊎◌, inl, inr}
use native.Mathlib.Omega.{arith}
use hpxnode.Prelude.Dict.{
  Dict, elem, keys, lookup, insert, delete, lookup-insert, IsDict, delete_absent, lookup-delete,
  delete-IsDict, beq_refl,
}
use hpxnode.Prelude.Lists.{length}
use hpxnode.Prelude.Tests.{Eq, ◌==◌, Bool-cases, Option-cases, is_some}

module _ {ℓ κ} {K : Type ℓ} {V : Type κ} ⦃e : Eq K⦄ where
  pub length-insert :
      (k : K) (v : V) (m : Dict K V) → lookup k m ≡ none → length (insert k v m) ≡ length m + 1
  unfolding lookup insert
  length-insert k v [] h = omega arith
  length-insert k v ((j, w) ∷ m) h = ground (arith, length-insert k v m)

  pub length-delete :
      (k : K) (v : V) (m : Dict K V)
      → IsDict m
      → lookup k m ≡ some v
      → length (delete k m) + 1 ≡ length m
  unfolding lookup delete
  length-delete k v [] d h = absurd (cc h)
  length-delete k v ((j, w) ∷ m) d h =
      ground (arith, e.same_iff j k, length-delete k v m d.1, delete_absent k m)

module _ {ℓ κ} {K : Type ℓ} {V : Type κ} ⦃e : Eq K⦄ where
  -- A key of the list of keys is a key of the map.
  pub elem-keys : (k : K) (m : Dict K V) → elem k (keys m) ≡ is_some (lookup k m)
  unfolding elem lookup
  elem-keys k [] = refl
  elem-keys k ((j, v) ∷ m) = ground (arith, elem-keys k m)

  -- An entry of the rest of a map is an entry of the map.
  pub lookup_rest :
      (k j : K) (v x : V) (m : Dict K V)
      → lookup k m ≡ none
      → lookup j m ≡ some x
      → lookup j ((k, v) ∷ m) ≡ some x
  unfolding lookup
  lookup_rest k j v x m new found = ground (arith, e.same_iff k j, ap (λ i. lookup i m), new, found)

  -- An entry after an insert is the new one, or was there before.
  pub insert-cases :
      (k j : K) (v x : V) (m : Dict K V)
      → lookup j (insert k v m) ≡ some x
      → ((k ≡ j) × (v ≡ x)) ⊎ (lookup j m ≡ some x)
  insert-cases k j v x m found = elim (Bool-cases (k == j)) [
    | inl eq ↦
        inl (
          (e.same_iff k j).0 eq,
          some-injective v x (sym (rw eq at (lookup-insert k j v m)) ∙ found),
        )
    | inr apart ↦ inr (sym (rw apart at (lookup-insert k j v m)) ∙ found)
  ]

module _ {ℓ κ ι} {K : Type ℓ} {V : Type κ} {W : Type ι} ⦃e : Eq K⦄ where
  -- Every key of the one map is a key of the other.
  abbrev pub SubKeys : Dict K V → Dict K W → Type ℓ
  SubKeys m u = (k : K) → is_some (lookup k m) ≡ true → is_some (lookup k u) ≡ true

  -- A map has at most as many entries as one that holds all its keys.
  SubKeys-delete :
      (k : K) (v : V) (m : Dict K V) (u : Dict K W)
      → lookup k m ≡ none
      → SubKeys ((k, v) ∷ m) u
      → SubKeys m (delete k u)
  unfolding lookup
  SubKeys-delete k v m u new sub j h = elim (Bool-cases (k == j)) [
    | inl same ↦ absurd (cc (subst (λ i. lookup i m ≡ none) ((e.same_iff k j).0 same) new, h))
    | inr other ↦ rw (lookup-delete k j u, other) (rw other at (sub j) h)
  ]

  pub length-le_of_SubKeys :
      (m : Dict K V) (u : Dict K W) → IsDict m → IsDict u → SubKeys m u → length m ≤ length u
  length-le_of_SubKeys [] u d du sub = omega arith
  length-le_of_SubKeys ((k, v) ∷ m) u d du sub = elim (Option-cases (lookup k u)) [
    | inl out ↦ absurd (cc (out, sub k (unfold lookup in rw (beq_refl k))))
    | inr (w, found) ↦ omega (
      arith,
      length-delete k w u du found,
      length-le_of_SubKeys m (delete k u) d.1 (delete-IsDict k u du)
          (SubKeys-delete k v m u d.0 sub),
    )
  ]
