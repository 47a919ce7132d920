-- ===== src/Backend/OpenVpn/Serial.antt =====
-- backend/openvpn/users.go: the comparison of a pinned certificate serial with the presented one.
use hpxnode.Prelude.{
  ℕ, ◌+◌, ◌-◌, ◌*◌, Bool, true, false, ◌&&◌, ◌||◌, List, [], ◌∷◌, Option, none, some, String,
  string_eq, ◌==◌, if◌then◌else◌, nat_eq, ltb, leb,
}
use hpxnode.Prelude.Int.{ℤ, pos, sub_ℕ, eq_ℤ}
use hpxnode.Prelude.Text.{codes}

-- big.Int's SetString in base 10 or 16: an optional sign, then at least one digit.
abbrev pub digit_value : ℕ → ℕ
digit_value c =
    if leb b'0' c && leb c b'9'
    then c - b'0'
    else (if leb b'a' c && leb c b'z'
        then c - b'a' + 10
        else (if leb b'A' c && leb c b'Z' then c - b'A' + 10 else 99))

unfoldable pub digits_from : ℕ → ℕ → List ℕ → Option ℕ
digits_from base acc [] = some acc
digits_from base acc (c ∷ s) =
    let rest = digits_from base (acc * base + digit_value c) s in
    if ltb (digit_value c) base then rest else none

unfoldable pub natural : ℕ → List ℕ → Option ℕ
natural base [] = none
natural base (c ∷ s) = digits_from base 0 (c ∷ s)

abbrev pub positive : Option ℕ → Option ℤ
positive none = none
positive (some n) = some (pos n)

abbrev pub negative : Option ℕ → Option ℤ
negative none = none
negative (some n) = some (sub_ℕ 0 n)

unfoldable pub set_string : ℕ → List ℕ → Option ℤ
set_string base [] = none
set_string base (c ∷ s) =
    if nat_eq c b'+'
    then positive (natural base s)
    else (if nat_eq c b'-' then negative (natural base s) else positive (natural base (c ∷ s)))

abbrev pub same_number : Option ℤ → Option ℤ → Bool
same_number (some a) (some b) = eq_ℤ a b
same_number (some a) none = false
same_number none b = false

unfoldable pub serial_equal : String → String → Bool
serial_equal pinned presented =
    if pinned == "" || pinned == presented
    then true
    else (same_number (set_string 10 (codes pinned)) (set_string 10 (codes presented))
        || same_number (set_string 16 (codes pinned)) (set_string 10 (codes presented)))
