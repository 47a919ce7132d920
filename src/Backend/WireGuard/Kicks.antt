-- ===== src/Backend/WireGuard/Kicks.antt =====
-- backend/wireguard/iplimit.go: which users a pass removes and readmits.
use hpxnode.Prelude.{
  ℕ, ◌+◌, ◌≤◌, ◌<◌, Bool, true, false, ◌&&◌, [], ◌∷◌, Option, none, some, String, string_eq, ◌==◌,
  if◌then◌else◌, arith, ◌≡◌, refl, ap, ◌∙◌, subst, Bool-cases, Option-cases, inl, inr,
}
use text.Mathlib.TextEquality.{eq_iff}
use hpxnode.Prelude.Dict.{Dict, lookup, IsDict, lookup-insert, lookup-delete, beq_refl}
use hpxnode.Backend.WireGuard.IpLimit.{
  wg_ip_limit_cooldown, Window, Limits, Host, Action, kick, readmit, strikes_or_zero, user_action,
  next_strikes, count_of, decide, apply_action, apply_actions, windows_at, enforce_ip_limits,
}

-- The action on a user of unknown limit, or of a limit.
abbrev pub action_for : ℕ → Option ℕ → Option ℕ → ℕ → Option ℕ → Option Action
action_for now none kicked count strikes = none
action_for now (some limit) kicked count strikes =
    user_action now limit kicked count (strikes_or_zero strikes)

-- The time of the kick after an action, where the kernel works or does not.
abbrev pub kicked_after : ℕ → Bool → Bool → Option Action → Option ℕ → Option ℕ
kicked_after now removes readmits none kicked = kicked
kicked_after now removes readmits (some (kick limit count)) kicked =
    if removes then some now else kicked
kicked_after now removes readmits (some readmit) kicked = if readmits then none else kicked

pub next_strikes-other :
    (email other : String) (limit : ℕ) (kicked : Option ℕ) (count : ℕ) (strikes : Dict String ℕ)
    → (email == other) ≡ false
    → lookup other (next_strikes email limit kicked count strikes) ≡ lookup other strikes
unfolding next_strikes
next_strikes-other email other limit (some at) count strikes apart = refl
next_strikes-other email other limit none count strikes apart = ground (
  arith,
  apart,
  lookup-insert {V = ℕ} email other (strikes_or_zero (lookup email strikes) + 1) strikes,
  lookup-delete {V = ℕ} email other strikes,
)

decide-absent :
    (now : ℕ) (kicked : Dict String ℕ) (windows : Dict String Window)
    (limits strikes : Dict String ℕ) (email : String)
    → lookup email limits ≡ none
    → lookup email (decide now kicked windows limits strikes).0 ≡ none
unfolding decide lookup
decide-absent now kicked windows [] strikes email h = refl
decide-absent now kicked windows ((e, limit) ∷ limits) strikes email h = ground (
  arith,
  h,
  decide-absent now kicked windows limits
      (next_strikes e limit (lookup e kicked) (count_of e windows) strikes) email,
)

pub lookup-decide :
    (now : ℕ) (kicked : Dict String ℕ) (windows : Dict String Window)
    (limits strikes : Dict String ℕ) (email : String)
    → IsDict limits
    → lookup email (decide now kicked windows limits strikes).0
      ≡ action_for now
          (lookup email limits)
          (lookup email kicked)
          (count_of email windows)
          (lookup email strikes)
unfolding decide lookup
lookup-decide now kicked windows [] strikes email d = refl
lookup-decide now kicked windows ((e, limit) ∷ limits) strikes email d =
    let count = count_of e windows in
    let later = next_strikes e limit (lookup e kicked) count strikes in
    elim (Bool-cases (e == email)) [
      | inl same ↦
          subst
            (λ x.
              lookup x (decide now kicked windows ((e, limit) ∷ limits) strikes).0
              ≡ action_for now (lookup x ((e, limit) ∷ limits)) (lookup x kicked)
                  (count_of x windows) (lookup x strikes))
            ((eq_iff e email).0 same)
            (elim (Option-cases (
              user_action now limit (lookup e kicked) count (strikes_or_zero (lookup e strikes)))) [
                | inl idle ↦
                    rw (beq_refl e, idle) (decide-absent now kicked windows limits later e d.0)
                | inr (a, act) ↦ rw (beq_refl e, act) (rw (beq_refl e) refl)
              ])
      | inr apart ↦ ground (
        arith,
        apart,
        lookup-decide now kicked windows limits later email d.1,
        next_strikes-other e email limit (lookup e kicked) count strikes apart,
      )
    ]

pub decide-IsDict :
    (now : ℕ) (kicked : Dict String ℕ) (windows : Dict String Window)
    (limits strikes : Dict String ℕ)
    → IsDict limits
    → IsDict (decide now kicked windows limits strikes).0
unfolding decide
decide-IsDict now kicked windows [] strikes d = tt
decide-IsDict now kicked windows ((e, limit) ∷ limits) strikes d = ground (
  arith,
  decide-IsDict now kicked windows limits
      (next_strikes e limit (lookup e kicked) (count_of e windows) strikes) d.1,
  decide-absent now kicked windows limits
      (next_strikes e limit (lookup e kicked) (count_of e windows) strikes) e d.0,
)

apply_action-kicked :
    (now : ℕ) (host : Host) (e email : String) (a : Action) (s : Limits)
    → lookup email (apply_action now host e a s).kicked ≡ (
        if e == email
        then kicked_after now
            (host.has_peer e && host.removes e)
            (host.has_peer e && host.readmits e)
            (some a)
            (lookup email s.kicked)
        else lookup email s.kicked)
unfolding apply_action
apply_action-kicked now host e email (kick limit count) s =
    ground (arith, lookup-insert {V = ℕ} e email now s.kicked)
apply_action-kicked now host e email readmit s =
    ground (arith, lookup-delete {V = ℕ} e email s.kicked)

apply_actions-kicked :
    (now : ℕ) (host : Host) (actions : Dict String Action) (s : Limits) (email : String)
    → IsDict actions
    → lookup email (apply_actions now host actions s).kicked
      ≡ kicked_after now
          (host.has_peer email && host.removes email)
          (host.has_peer email && host.readmits email)
          (lookup email actions)
          (lookup email s.kicked)
unfolding apply_actions lookup
apply_actions-kicked now host [] s email d = refl
apply_actions-kicked now host ((e, a) ∷ actions) s email d = ground (
  arith,
  apply_actions-kicked now host actions (apply_action now host e a s) email d.1,
  apply_action-kicked now host e email a s,
  eq_iff e email,
  d.0,
)

pub enforce_ip_limits-kicked :
    (now : ℕ) (host : Host) (active : Dict String (Dict String (Unit {0}))) (s : Limits)
    (email : String)
    → IsDict s.user_limits
    → lookup email (enforce_ip_limits now host active s).kicked
      ≡ kicked_after now
          (host.has_peer email && host.removes email)
          (host.has_peer email && host.readmits email)
          (action_for now
            (lookup email s.user_limits)
            (lookup email s.kicked)
            (count_of email (windows_at now active s))
            (lookup email s.over_strikes))
          (lookup email s.kicked)
unfolding enforce_ip_limits
enforce_ip_limits-kicked now host active s email d =
    let windows = windows_at now active s in
    let decided = decide now s.kicked windows s.user_limits s.over_strikes in
    apply_actions-kicked now host decided.0
      (record s { ip_window = windows; over_strikes = decided.1 }) email
      (decide-IsDict now s.kicked windows s.user_limits s.over_strikes d)
    ∙ ap
        (λ a.
          kicked_after now (host.has_peer email && host.removes email)
            (host.has_peer email && host.readmits email) a (lookup email s.kicked))
        (lookup-decide now s.kicked windows s.user_limits s.over_strikes email d)

-- A removed user stays out until the cool-down is over, whatever its addresses.
pub enforce_ip_limits-cooldown :
    (now : ℕ) (host : Host) (active : Dict String (Dict String (Unit {0}))) (s : Limits)
    (email : String) (kicked_at : ℕ)
    → IsDict s.user_limits
    → lookup email s.kicked ≡ some kicked_at
    → now < kicked_at + wg_ip_limit_cooldown
    → lookup email (enforce_ip_limits now host active s).kicked ≡ some kicked_at
unfolding user_action
enforce_ip_limits-cooldown now host active s email kicked_at d out early =
    elim (Option-cases (lookup email s.user_limits)) [
      | inl unknown ↦
          ground (arith, out, unknown, enforce_ip_limits-kicked now host active s email d)
      | inr (limit, known) ↦
          ground (arith, out, known, early, enforce_ip_limits-kicked now host active s email d)
    ]

-- A user that is in is removed only by a pass that finds more addresses than the limit, after one
-- before that left a strike, and only when the kernel follows.
pub enforce_ip_limits-kick :
    (now : ℕ) (host : Host) (active : Dict String (Dict String (Unit {0}))) (s : Limits)
    (email : String) (at : ℕ)
    → IsDict s.user_limits
    → lookup email s.kicked ≡ none
    → lookup email (enforce_ip_limits now host active s).kicked ≡ some at
    → (at ≡ now)
      × ((1 ≤ strikes_or_zero (lookup email s.over_strikes))
          × ((host.removes email ≡ true)
              × ((limit : ℕ) × ((lookup email s.user_limits ≡ some limit)
                    × ((0 < limit) × limit < count_of email (windows_at now active s))))))
unfolding user_action
enforce_ip_limits-kick now host active s email at d inside gone =
    elim (Option-cases (lookup email s.user_limits)) [
      | inl unknown ↦ absurd (
          ground (arith, inside, gone, unknown, enforce_ip_limits-kicked now host active s email d))
      | inr (limit, known) ↦
          let facts : (at ≡ now)
              × ((1 ≤ strikes_or_zero (lookup email s.over_strikes))
                  × ((host.removes email ≡ true)
                      × ((0 < limit) × limit < count_of email (windows_at now active s)))) =
            ground
              (arith, inside, gone, known, enforce_ip_limits-kicked now host active s email d) in
          (facts.0, (facts.1.0, (facts.1.1.0, (limit, (known, facts.1.1.1)))))
    ]
