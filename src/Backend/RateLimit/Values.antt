-- ===== src/Backend/RateLimit/Values.antt =====
-- How often a number stands among the values of a map.
use hpxnode.Prelude.{
  ℕ, ◌+◌, ◌≤◌, ◌≡◌, refl, Bool, true, false, List, [], ◌∷◌, none, some, nat_eq, arith, Eq, ◌==◌,
}
use hpxnode.Prelude.Dict.{Dict, lookup, insert, delete, IsDict, delete_absent}

abbrev pub one_if : Bool → ℕ
one_if true = 1
one_if false = 0

abbrev pub count : ℕ → List ℕ → ℕ
count x [] = 0
count x (y ∷ ys) = one_if (nat_eq y x) + count x ys

module _ {ℓ} {K : Type ℓ} where
  abbrev pub values : Dict K ℕ → List ℕ
  values [] = []
  values ((k, v) ∷ m) = v ∷ values m

module _ {ℓ} {K : Type ℓ} ⦃e : Eq K⦄ where
  pub count-insert :
      (x : ℕ) (k : K) (v : ℕ) (m : Dict K ℕ)
      → lookup k m ≡ none
      → count x (values (insert k v m)) ≡ one_if (nat_eq v x) + count x (values m)
  unfolding lookup insert
  count-insert x k v [] h = refl
  count-insert x k v ((j, w) ∷ m) h = ground (arith, count-insert x k v m)

  pub count-delete :
      (x : ℕ) (k : K) (v : ℕ) (m : Dict K ℕ)
      → IsDict m
      → lookup k m ≡ some v
      → count x (values m) ≡ one_if (nat_eq v x) + count x (values (delete k m))
  unfolding lookup delete
  count-delete x k v [] d h = absurd (cc h)
  count-delete x k v ((j, w) ∷ m) d h =
      ground (arith, e.same_iff j k, count-delete x k v m d.1, delete_absent k m)

  pub count-lookup : (k : K) (v : ℕ) (m : Dict K ℕ) → lookup k m ≡ some v → 1 ≤ count v (values m)
  unfolding lookup
  count-lookup k v [] h = absurd (cc h)
  count-lookup k v ((j, w) ∷ m) h = ground (arith, count-lookup k v m)

  -- Two keys with one value make it stand there twice.
  pub count_two :
      (k j : K) (v : ℕ) (m : Dict K ℕ)
      → (k == j) ≡ false
      → lookup k m ≡ some v
      → lookup j m ≡ some v
      → 2 ≤ count v (values m)
  unfolding lookup
  count_two k j v [] h p q = absurd (cc p)
  count_two k j v ((i, w) ∷ m) h p q = ground (
    arith,
    e.same_iff i k,
    e.same_iff i j,
    e.same_iff k j,
    count_two k j v m h,
    count-lookup k v m,
    count-lookup j v m,
  )
