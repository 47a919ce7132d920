-- ===== src/Backend/DeviceLimit/Kept.antt =====
-- What the calls of KeepDevices leave of each user's devices, as the interface in
-- backend/devicelimit.go promises: a call disconnects down to its count.
use hpxnode.Prelude.{
  ℕ, ◌+◌, ◌≤◌, ◌≡◌, refl, false, List, [], ◌∷◌, ◌++◌, String, string_eq, ◌==◌, ◌&&◌, if◌then◌else◌,
  nat_eq, All, arith,
}
use hpxnode.Backend.DeviceLimit.{Limiter, KeepDevices, count, min_keep}

-- The devices of `user` that a limiter has left, of `n`.
unfoldable pub kept : ℕ → String → List KeepDevices → ℕ → ℕ
kept id user [] n = n
kept id user (c ∷ calls) n =
    kept id user calls (if nat_eq c.limiter id && c.user == user then min_keep n c.keep else n)

-- The devices of `user` that all limiters have left together.
unfoldable pub total_kept : String → List KeepDevices → List Limiter → ℕ
total_kept user calls [] = 0
total_kept user calls (l ∷ order) =
    kept l.id user calls (count user l) + total_kept user calls order

-- Every limiter of the list has an identity other than `id`.
abbrev pub Apart : ℕ → List Limiter → Type 0
Apart id = All (λ m. nat_eq m.id id ≡ false)

-- The limiters are different ones.
abbrev pub IsDistinct : List Limiter → Type 0
IsDistinct [] = Unit
IsDistinct (l ∷ order) = Apart l.id order × IsDistinct order

pub kept-append :
    (id : ℕ) (user : String) (xs ys : List KeepDevices) (n : ℕ)
    → kept id user (xs ++ ys) n ≡ kept id user ys (kept id user xs n)
unfolding kept
kept-append id user [] ys n = refl
kept-append id user (c ∷ xs) ys n = kept-append id user xs ys _

pub kept_skip :
    (id : ℕ) (user : String) (c : KeepDevices) (calls : List KeepDevices) (n : ℕ)
    → nat_eq c.limiter id ≡ false
    → kept id user (c ∷ calls) n ≡ kept id user calls n
unfolding kept
kept_skip id user c calls n h = rw h

-- A call to one limiter is nothing to the others.
pub total_kept_skip :
    (user : String) (c : KeepDevices) (calls : List KeepDevices) (order : List Limiter)
    → Apart c.limiter order
    → total_kept user (c ∷ calls) order ≡ total_kept user calls order
unfolding total_kept kept
total_kept_skip user c calls [] h = refl
total_kept_skip user c calls (m ∷ order) h = ground (arith, total_kept_skip user c calls order h.1)

-- A call never adds devices.
pub kept-le : (id : ℕ) (user : String) (calls : List KeepDevices) (n : ℕ) → kept id user calls n ≤ n
unfolding kept
kept-le id user [] n = omega arith
kept-le id user (c ∷ calls) n =
    ground (arith, kept-le id user calls n, kept-le id user calls (min_keep n c.keep))

module _ (user : String) (xs ys : List KeepDevices) where
  module _ (same : (id n : ℕ) → kept id user xs n ≡ kept id user ys n) where
    pub total_kept_congr :
        (order : List Limiter) → total_kept user xs order ≡ total_kept user ys order
    unfolding total_kept
    total_kept_congr [] = refl
    total_kept_congr (l ∷ order) = omega (arith, same l.id (count user l), total_kept_congr order)
