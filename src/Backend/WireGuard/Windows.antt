-- ===== src/Backend/WireGuard/Windows.antt =====
-- backend/wireguard/iplimit.go: which addresses of a user a pass counts.
use hpxnode.Prelude.{
  ℕ, ◌+◌, Bool, true, false, List, [], ◌∷◌, Option, none, some, is_some, String, string_eq, ◌==◌,
  if◌then◌else◌, leb, arith, ◌≡◌, refl, ap, ◌∙◌, sym, subst, Bool-cases, inl, inr,
}
use text.Mathlib.TextEquality.{eq_iff}
use hpxnode.Prelude.Dict.{Dict, lookup, insert, keys, elem, IsDict, lookup-insert, insert-IsDict}
use hpxnode.Prelude.DictLaws.{elem-keys}
use hpxnode.Backend.WireGuard.IpLimit.{
  Window, Limits, window_or_empty, touch, fold_endpoints, fresh, prune, keep_window, windows_at,
}

abbrev pub Active : Type 0
Active = Dict String (Dict String (Unit {0}))

abbrev pub reported : String → Option (Dict String (Unit {0})) → Bool
reported ip none = false
reported ip (some ips) = is_some (lookup ip ips)

-- A time of at most 120 seconds ago.
abbrev pub recent : ℕ → Option ℕ → Option ℕ
recent now none = none
recent now (some seen) = if leb now (seen + 120000000000) then some seen else none

-- An address that the kernel reports now was seen now; another one counts for 120 seconds.
abbrev pub last_seen : ℕ → Active → Dict String Window → String → String → Option ℕ
last_seen now active windows email ip =
    if reported ip (lookup email active)
    then some now
    else recent now (lookup ip (window_or_empty (lookup email windows)))

-- One window for each user, and one time for each address in it.
abbrev pub HasWindows : Dict String Window → Type 0
HasWindows windows =
    IsDict windows × ((email : String) → IsDict (window_or_empty (lookup email windows)))

lookup-touch :
    (now : ℕ) (ips : List String) (w : Window) (ip : String)
    → lookup ip (touch now ips w) ≡ (if elem ip ips then some now else lookup ip w)
unfolding touch elem
lookup-touch now [] w ip = refl
lookup-touch now (i ∷ ips) w ip =
    ground (arith, lookup-touch now ips (insert i now w) ip, lookup-insert i ip now w)

touch-IsDict : (now : ℕ) (ips : List String) (w : Window) → IsDict w → IsDict (touch now ips w)
unfolding touch
touch-IsDict now [] w d = d
touch-IsDict now (i ∷ ips) w d = touch-IsDict now ips (insert i now w) (insert-IsDict i now w d)

lookup-fresh :
    (now : ℕ) (w : Window) (ip : String)
    → IsDict w
    → lookup ip (fresh now w) ≡ recent now (lookup ip w)
unfolding fresh lookup
lookup-fresh now [] ip d = refl
lookup-fresh now ((i, seen) ∷ w) ip d = ground (arith, lookup-fresh now w ip d.1, eq_iff i ip, d.0)

fresh-IsDict : (now : ℕ) (w : Window) → IsDict w → IsDict (fresh now w)
unfolding fresh
fresh-IsDict now [] d = d
fresh-IsDict now ((i, seen) ∷ w) d =
    ground (arith, fresh-IsDict now w d.1, lookup-fresh now w i d.1, d.0)

abbrev merged : ℕ → Option (Dict String (Unit {0})) → Option Window → Option Window
merged now none old = old
merged now (some ips) old = some (touch now (keys ips) (window_or_empty old))

lookup-fold_endpoints :
    (now : ℕ) (active : Active) (windows : Dict String Window) (email : String)
    → IsDict active
    → lookup email (fold_endpoints now active windows)
      ≡ merged now (lookup email active) (lookup email windows)
unfolding fold_endpoints lookup
lookup-fold_endpoints now [] windows email d = refl
lookup-fold_endpoints now ((e, ips) ∷ active) windows email d =
    let w = touch now (keys ips) (window_or_empty (lookup e windows)) in
    lookup-fold_endpoints now active (insert e w windows) email d.1
    ∙ rw (lookup-insert e email w windows) (elim (Bool-cases (e == email)) [
      | inl same ↦
          let path : e ≡ email = (eq_iff e email).0 same in
          rw (same, subst (λ x. lookup x active ≡ none) path d.0)
            (ap (λ x. some (touch now (keys ips) (window_or_empty (lookup x windows)))) path)
      | inr apart ↦ rw apart refl
    ])

fold_endpoints-IsDict :
    (now : ℕ) (active : Active) (windows : Dict String Window)
    → IsDict windows
    → IsDict (fold_endpoints now active windows)
unfolding fold_endpoints
fold_endpoints-IsDict now [] windows d = d
fold_endpoints-IsDict now ((e, ips) ∷ active) windows d =
    let w = touch now (keys ips) (window_or_empty (lookup e windows)) in
    fold_endpoints-IsDict now active (insert e w windows) (insert-IsDict e w windows d)

merged-IsDict :
    (now : ℕ) (ips : Option (Dict String (Unit {0}))) (old : Option Window)
    → IsDict (window_or_empty old)
    → IsDict (window_or_empty (merged now ips old))
merged-IsDict now none old d = d
merged-IsDict now (some ips) old d = touch-IsDict now (keys ips) (window_or_empty old) d

lookup-keep_window :
    (e email : String) (w : Window) (rest : Dict String Window)
    → ((e == email) ≡ true → window_or_empty (lookup email rest) ≡ [])
    → window_or_empty (lookup email (keep_window e w rest))
      ≡ (if e == email then w else window_or_empty (lookup email rest))
unfolding lookup
lookup-keep_window e email [] rest gone = elim (Bool-cases (e == email)) [
  | inl same ↦ rw same (gone same)
  | inr apart ↦ rw apart refl
]
lookup-keep_window e email (x ∷ w) rest gone = elim (Bool-cases (e == email)) [
  | inl same ↦ rw same refl
  | inr apart ↦ rw apart refl
]

lookup-prune :
    (now : ℕ) (windows : Dict String Window) (email : String)
    → IsDict windows
    → window_or_empty (lookup email (prune now windows))
      ≡ fresh now (window_or_empty (lookup email windows))
unfolding prune lookup fresh
lookup-prune now [] email d = refl
lookup-prune now ((e, w) ∷ windows) email d =
    let later = lookup-prune now windows email d.1 in
    let absent : (e == email) ≡ true → lookup email windows ≡ none =
      λ same. subst (λ x. lookup x windows ≡ none) ((eq_iff e email).0 same) d.0 in
    lookup-keep_window e email (fresh now w) (prune now windows)
      (λ same. later ∙ rw (absent same) refl)
    ∙ elim (Bool-cases (e == email)) [ inl same ↦ rw same refl | inr apart ↦ rw apart later ]

recent-merged :
    (now : ℕ) (ips : Option (Dict String (Unit {0}))) (old : Option Window) (ip : String)
    → recent now (lookup ip (window_or_empty (merged now ips old)))
      ≡ (if reported ip ips then some now else recent now (lookup ip (window_or_empty old)))
recent-merged now none old ip = refl
recent-merged now (some ips) old ip =
    ground (arith, lookup-touch now (keys ips) (window_or_empty old) ip, elem-keys ip ips)

-- The window of a user after the pass has folded in the reported endpoints and dropped the old ones.
pub windows_at_lem :
    (now : ℕ) (active : Active) (s : Limits) (email : String)
    → IsDict active
    → HasWindows s.ip_window
    → IsDict (window_or_empty (lookup email (windows_at now active s)))
      × ((ip : String)
          → lookup ip (window_or_empty (lookup email (windows_at now active s)))
            ≡ last_seen now active s.ip_window email ip)
unfolding windows_at
windows_at_lem now active s email d has =
    let folded = fold_endpoints now active s.ip_window in
    let pruned =
      lookup-prune now folded email (fold_endpoints-IsDict now active s.ip_window has.0) in
    let fold = lookup-fold_endpoints now active s.ip_window email d in
    let one : IsDict (window_or_empty (lookup email folded)) =
      subst (λ m. IsDict (window_or_empty m)) (sym fold)
        (merged-IsDict now (lookup email active) (lookup email s.ip_window) (has.1 email)) in
    (
      subst (λ w. IsDict w) (sym pruned)
          (fresh-IsDict now (window_or_empty (lookup email folded)) one),
      λ ip.
          ap (lookup ip) pruned
          ∙ (lookup-fresh now (window_or_empty (lookup email folded)) ip one
              ∙ (ap (λ m. recent now (lookup ip (window_or_empty m))) fold
                  ∙ recent-merged now (lookup email active) (lookup email s.ip_window) ip)),
    )
