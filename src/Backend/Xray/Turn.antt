-- ===== src/Backend/Xray/Turn.antt =====
-- backend/xray/iplimit.go: one user's turn in a pass, against the machine of the user.
use hpxnode.Prelude.{
  ℕ, ◌+◌, ◌%◌, false, [], ◌∷◌, Option, none, some, String, string_eq, ◌==◌, if◌then◌else◌, nat_eq,
  ltb, leb, arith, ◌≡◌, refl, sym, ◌∙◌, subst, Bool-cases, inl, inr,
}
use hpxnode.Prelude.Dict.{Dict, lookup, delete, lookup-insert, lookup-delete}
use text.Mathlib.TextEquality.{eq_iff}
use hpxnode.Backend.Xray.Accounts.{User}
use hpxnode.Backend.Xray.Clients.{AllSome}
use hpxnode.Backend.Xray.Limits.{
  ip_limit_cooldown, Limits, remember_each, remember_users, Host, readmit, check_online,
  enforce_user,
}

abbrev pub kick_after_count : ℕ → ℕ → Option ℕ → Option ℕ
kick_after_count now limit none = none
kick_after_count now limit (some n) = if leb (n % 0x100000000) limit then none else some now

abbrev pub kick_after_sync : Host → ℕ → Option User → Option ℕ
kick_after_sync host at none = none
kick_after_sync host at (some u) = if host.syncs u then none else some at

-- The time of a user's kick after a pass, from the one before. A kicked user stays so for the
-- cooldown, and after it until SyncUser succeeds; a user that is not kicked is so when the core shows
-- it on more addresses than its limit, unless the limit is 0.
abbrev pub next_kick : Host → ℕ → String → ℕ → Option User → Option ℕ → Option ℕ
next_kick host now email limit user none =
    if nat_eq limit 0 then none else kick_after_count now limit (host.online_ips email)
next_kick host now email limit user (some at) =
    if ltb now (at + ip_limit_cooldown) then some at else kick_after_sync host at user

-- The user of an email, if there is one, has that email.
abbrev pub IsOf : String → Option User → Type 0
IsOf email = AllSome (λ u. u.email ≡ email)

gone : (email : String) (m : Dict String ℕ) → lookup email (delete email m) ≡ none
gone email m = ground (arith, lookup-delete email email m, eq_iff email email)

lookup-readmit :
    (host : Host) (email : String) (at : ℕ) (user : Option User) (l : Limits)
    → IsOf email user
    → lookup email l.kicked ≡ some at
    → lookup email (readmit host email user l).kicked ≡ kick_after_sync host at user
unfolding remember_users remember_each
lookup-readmit host email at none l own was = gone email l.kicked
lookup-readmit host email at (some u) l own was = elim (Bool-cases (host.syncs u)) [
  | inl good ↦ rw good (gone email (remember_users (u ∷ []) false l).kicked)
  | inr bad ↦ rw bad was
]

lookup-check_limit :
    (host : Host) (now : ℕ) (email : String) (limit : ℕ) (online : Option ℕ) (l : Limits)
    → lookup email l.kicked ≡ none
    → lookup email (check_online now email limit online l).kicked
      ≡ kick_after_count now limit online
lookup-check_limit host now email limit none l was = was
lookup-check_limit host now email limit (some n) l was =
    elim (Bool-cases (leb (n % 0x100000000) limit)) [
      | inl within ↦ rw within was
      | inr over ↦
          rw over (ground (arith, lookup-insert email email now l.kicked, eq_iff email email))
    ]

-- A user's turn in a pass is a step of its own machine.
pub lookup-enforce_user :
    (host : Host) (now : ℕ) (email : String) (limit : ℕ) (user : Option User) (at : Option ℕ)
    (l : Limits)
    → IsOf email user
    → lookup email l.kicked ≡ at
    → lookup email (enforce_user host now email limit user at l).kicked
      ≡ next_kick host now email limit user at
lookup-enforce_user host now email limit user none l own was = elim (Bool-cases (nat_eq limit 0)) [
  | inl free ↦ rw free was
  | inr limited ↦ rw limited (lookup-check_limit host now email limit (host.online_ips email) l was)
]
lookup-enforce_user host now email limit user (some at) l own was =
    elim (Bool-cases (ltb now (at + ip_limit_cooldown))) [
      | inl cooling ↦ rw cooling was
      | inr over ↦ rw over (lookup-readmit host email at user l own was)
    ]

-- The turn of one user leaves the kicks of the others.
module _ (host : Host) (now : ℕ) (email name : String) (apart : (email == name) ≡ false) where
  unkick-other : (m : Dict String ℕ) → lookup name (delete email m) ≡ lookup name m
  unkick-other m = lookup-delete email name m ∙ rw apart refl

  remembered :
      (u : User) (l : Limits)
      → u.email ≡ email
      → lookup name (remember_users (u ∷ []) false l).kicked ≡ lookup name l.kicked
  unfolding remember_users remember_each
  remembered u l own = elim (Bool-cases (u.email == "")) [
    | inl nameless ↦ rw nameless refl
    | inr named ↦ rw named (
        subst (λ e. lookup name (delete e l.kicked) ≡ lookup name l.kicked) (sym own)
          (unkick-other l.kicked))
  ]

  readmit-other :
      (user : Option User) (l : Limits)
      → IsOf email user
      → lookup name (readmit host email user l).kicked ≡ lookup name l.kicked
  unfolding remember_users remember_each
  readmit-other none l own = unkick-other l.kicked
  readmit-other (some u) l own = elim (Bool-cases (host.syncs u)) [
    | inl good ↦
        rw good (unkick-other (remember_users (u ∷ []) false l).kicked ∙ remembered u l own)
    | inr bad ↦ rw bad refl
  ]

  check_online-other :
      (limit : ℕ) (online : Option ℕ) (l : Limits)
      → lookup name (check_online now email limit online l).kicked ≡ lookup name l.kicked
  check_online-other limit none l = refl
  check_online-other limit (some n) l = elim (Bool-cases (leb (n % 0x100000000) limit)) [
    | inl within ↦ rw within refl
    | inr over ↦ rw over (lookup-insert email name now l.kicked ∙ rw apart refl)
  ]

  pub enforce_user-other :
      (limit : ℕ) (user : Option User) (at : Option ℕ) (l : Limits)
      → IsOf email user
      → lookup name (enforce_user host now email limit user at l).kicked ≡ lookup name l.kicked
  enforce_user-other limit user none l own = elim (Bool-cases (nat_eq limit 0)) [
    | inl free ↦ rw free refl
    | inr limited ↦ rw limited (check_online-other limit (host.online_ips email) l)
  ]
  enforce_user-other limit user (some at) l own =
      elim (Bool-cases (ltb now (at + ip_limit_cooldown))) [
        | inl cooling ↦ rw cooling refl
        | inr over ↦ rw over (readmit-other user l own)
      ]
