-- ===== src/Prelude/Sort.antt =====
-- `sort.Strings`: Go compares the bytes of the texts, and so their code points in order.
use Prim.Native.Nat.{ℕ}
use Prim.Native.String.{String}
use mathlib.Core.Path.{◌≡◌, refl}
use mathlib.Core.Bool.{Bool, true, false, ◌&&◌, ◌||◌}
use mathlib.Core.List.{List, [], ◌∷◌}
use native.Mathlib.Omega.{arith}
use hpxnode.Prelude.Dict.{elem}
use hpxnode.Prelude.Tests.{ltb, nat_eq, if◌then◌else◌, ◌==◌, string_eq}
use hpxnode.Prelude.Text.{codes}

unfoldable pub codes_less : List ℕ → List ℕ → Bool
codes_less a [] = false
codes_less [] (d ∷ b) = true
codes_less (c ∷ a) (d ∷ b) = ltb c d || (nat_eq c d && codes_less a b)

unfoldable pub insert_string : String → List String → List String
insert_string x [] = x ∷ []
insert_string x (y ∷ l) =
    if codes_less (codes y) (codes x) then y ∷ insert_string x l else x ∷ y ∷ l

unfoldable pub sort_strings : List String → List String
sort_strings [] = []
sort_strings (x ∷ l) = insert_string x (sort_strings l)

elem-insert_string :
    (k x : String) (l : List String) → elem k (insert_string x l) ≡ (x == k || elem k l)
unfolding elem insert_string
elem-insert_string k x [] = refl
elem-insert_string k x (y ∷ l) = ground (arith, elem-insert_string k x l)

-- Sorting changes no membership.
pub elem-sort_strings : (k : String) (l : List String) → elem k (sort_strings l) ≡ elem k l
unfolding elem sort_strings
elem-sort_strings k [] = refl
elem-sort_strings k (x ∷ l) =
    ground (arith, elem-sort_strings k l, elem-insert_string k x (sort_strings l))
