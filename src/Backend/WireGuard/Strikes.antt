-- ===== src/Backend/WireGuard/Strikes.antt =====
-- backend/wireguard/iplimit.go: a pass against the machine of one user.
use hpxnode.Prelude.{
  ℕ, length, ◌+◌, ◌&&◌, [], ◌∷◌, Option, none, some, String, string_eq, ◌==◌, if◌then◌else◌, arith,
  ◌≡◌, refl, ap, ◌∙◌, sym, subst, Bool-cases, inl, inr,
}
use text.Mathlib.TextEquality.{eq_iff}
use hpxnode.Prelude.Dict.{Dict, lookup, IsDict, lookup-insert, lookup-delete}
use hpxnode.Backend.WireGuard.IpLimit.{
  Window, window_or_empty, Limits, Host, Action, kick, readmit, strikes_or_zero, next_strikes,
  count_of, decide, apply_action, apply_actions, windows_at, enforce_ip_limits,
}
use hpxnode.Backend.WireGuard.Machine.{
  Standing, next_standing, strikes_after, decided, kicked_after-next, strikes_after-next,
}
use hpxnode.Backend.WireGuard.Windows.{Active, HasWindows, last_seen, windows_at_lem}
use hpxnode.Backend.WireGuard.Kicks.{
  action_for, enforce_ip_limits-kicked, next_strikes-other, decide-IsDict, lookup-decide,
}

apply_action-strikes :
    (now : ℕ) (host : Host) (e email : String) (a : Action) (s : Limits)
    → lookup email (apply_action now host e a s).over_strikes ≡ (
        if e == email
        then strikes_after
            (host.has_peer e && host.removes e)
            (host.has_peer e && host.readmits e)
            (some a)
            (lookup email s.over_strikes)
        else lookup email s.over_strikes)
unfolding apply_action
apply_action-strikes now host e email (kick limit count) s =
    ground (arith, lookup-delete {V = ℕ} e email s.over_strikes)
apply_action-strikes now host e email readmit s =
    ground (arith, lookup-delete {V = ℕ} e email s.over_strikes)

apply_actions-strikes :
    (now : ℕ) (host : Host) (actions : Dict String Action) (s : Limits) (email : String)
    → IsDict actions
    → lookup email (apply_actions now host actions s).over_strikes
      ≡ strikes_after
          (host.has_peer email && host.removes email)
          (host.has_peer email && host.readmits email)
          (lookup email actions)
          (lookup email s.over_strikes)
unfolding apply_actions lookup
apply_actions-strikes now host [] s email d = refl
apply_actions-strikes now host ((e, a) ∷ actions) s email d = ground (
  arith,
  apply_actions-strikes now host actions (apply_action now host e a s) email d.1,
  apply_action-strikes now host e email a s,
  eq_iff e email,
  d.0,
)

lookup-next_strikes :
    (email : String) (limit : ℕ) (kicked : Option ℕ) (count : ℕ) (strikes : Dict String ℕ)
    → lookup email (next_strikes email limit kicked count strikes)
      ≡ decided (some limit) kicked count (lookup email strikes)
unfolding next_strikes
lookup-next_strikes email limit (some at) count strikes = refl
lookup-next_strikes email limit none count strikes = ground (
  arith,
  lookup-insert {V = ℕ} email email (strikes_or_zero (lookup email strikes) + 1) strikes,
  lookup-delete {V = ℕ} email email strikes,
  eq_iff email email,
)

decide-strikes :
    (now : ℕ) (kicked : Dict String ℕ) (windows : Dict String Window)
    (limits strikes : Dict String ℕ) (email : String)
    → IsDict limits
    → lookup email (decide now kicked windows limits strikes).1
      ≡ decided
          (lookup email limits)
          (lookup email kicked)
          (count_of email windows)
          (lookup email strikes)
unfolding decide lookup
decide-strikes now kicked windows [] strikes email d = refl
decide-strikes now kicked windows ((e, limit) ∷ limits) strikes email d =
    let later = next_strikes e limit (lookup e kicked) (count_of e windows) strikes in
    decide-strikes now kicked windows limits later email d.1 ∙ elim (Bool-cases (e == email)) [
      | inl same ↦
          let path : e ≡ email = (eq_iff e email).0 same in
          rw (same, subst (λ x. lookup x limits ≡ none) path d.0)
            (subst
              (λ x.
                lookup email (next_strikes x limit (lookup x kicked) (count_of x windows) strikes)
                ≡ decided (some limit) (lookup email kicked) (count_of email windows)
                    (lookup email strikes))
              (sym path)
              (lookup-next_strikes email limit (lookup email kicked) (count_of email windows)
                strikes))
      | inr apart ↦ rw apart (
          ap (decided (lookup email limits) (lookup email kicked) (count_of email windows))
            (next_strikes-other e email limit (lookup e kicked) (count_of e windows) strikes apart))
    ]

abbrev pub standing_of : String → Limits → Standing
standing_of email s = record {
  kicked = lookup email s.kicked;
  strikes = lookup email s.over_strikes;
}

strikes_left :
    (now : ℕ) (host : Host) (active : Dict String (Dict String (Unit {0}))) (s : Limits)
    (email : String)
    → IsDict s.user_limits
    → lookup email (enforce_ip_limits now host active s).over_strikes
      ≡ (next_standing now
          (host.has_peer email && host.removes email)
          (host.has_peer email && host.readmits email)
          (lookup email s.user_limits)
          (count_of email (windows_at now active s))
          (standing_of email s)).strikes
unfolding enforce_ip_limits
strikes_left now host active s email d =
    let windows = windows_at now active s in
    let decisions = decide now s.kicked windows s.user_limits s.over_strikes in
    let removes = host.has_peer email && host.removes email in
    let readmits = host.has_peer email && host.readmits email in
    apply_actions-strikes now host decisions.0
      (record s { ip_window = windows; over_strikes = decisions.1 }) email
      (decide-IsDict now s.kicked windows s.user_limits s.over_strikes d)
    ∙ (ap (λ a. strikes_after removes readmits a (lookup email decisions.1))
          (lookup-decide now s.kicked windows s.user_limits s.over_strikes email d)
        ∙ (ap
              (strikes_after removes readmits (
                action_for now (lookup email s.user_limits) (lookup email s.kicked)
                  (count_of email windows) (lookup email s.over_strikes)))
              (decide-strikes now s.kicked windows s.user_limits s.over_strikes email d)
            ∙ strikes_after-next now removes readmits (lookup email s.user_limits)
                (count_of email windows) (standing_of email s)))

abbrev pub window_at : ℕ → Active → Limits → String → Window
window_at now active s email = window_or_empty (lookup email (windows_at now active s))

-- A pass takes each user to the next state of its own machine, by its limit and the number of its
-- recent addresses: both the time of its removal and its count of passes over the limit. The
-- addresses that it counts, each once, are those that the kernel reports for the user now and
-- those that it last reported at most 120 seconds ago. (No user has two limits, two lists of reported
-- addresses or two windows, and no window has an address twice.)
pub lookup-enforce_ip_limits :
    (now : ℕ) (host : Host) (active : Active) (s : Limits) (email : String)
    → IsDict s.user_limits
    → IsDict active
    → HasWindows s.ip_window
    → (standing_of email (enforce_ip_limits now host active s)
        ≡ next_standing now
            (host.has_peer email && host.removes email)
            (host.has_peer email && host.readmits email)
            (lookup email s.user_limits)
            (length (window_at now active s email))
            (standing_of email s))
      × (IsDict (window_at now active s email)
          × ((ip : String)
              → lookup ip (window_at now active s email)
                ≡ last_seen now active s.ip_window email ip))
lookup-enforce_ip_limits now host active s email d reports windows = (
  ap (λ (x : Option ℕ × Option ℕ). record { kicked = x.0; strikes = x.1 })
      (cc (
        enforce_ip_limits-kicked now host active s email d
            ∙ kicked_after-next now (host.has_peer email && host.removes email)
                (host.has_peer email && host.readmits email) (lookup email s.user_limits)
                (count_of email (windows_at now active s)) (standing_of email s),
        strikes_left now host active s email d,
      )),
  windows_at_lem now active s email reports windows,
)
