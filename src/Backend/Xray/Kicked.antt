-- ===== src/Backend/Xray/Kicked.antt =====
-- backend/xray/iplimit.go: a pass over the maps against the machine of one user.
use hpxnode.Prelude.{
  ℕ, Bool, true, false, List, [], ◌∷◌, Option, none, some, String, string_eq, ◌==◌, is_some, ◌≡◌,
  refl, sym, ap, ◌∙◌, subst, Bool-cases, inl, inr,
}
use hpxnode.Prelude.Dict.{Dict, lookup, IsDict, insert-IsDict, lookup-insert}
use text.Mathlib.TextEquality.{eq_iff}
use hpxnode.Backend.Xray.Accounts.{User}
use hpxnode.Backend.Xray.Limits.{
  Limits, remember, remember_each, remember_users, Host, enforce_user, enforce_all,
  enforce_ip_limits_once,
}
use hpxnode.Backend.Xray.Turn.{next_kick, IsOf, lookup-enforce_user, enforce_user-other}

-- What a pass leaves of the kick of a user with a limit, if it has one.
abbrev pub after_pass : Host → ℕ → String → Option User → Option ℕ → Option ℕ → Option ℕ
after_pass host now email user none at = at
after_pass host now email user (some limit) at = next_kick host now email limit user at

own_turn :
    (host : Host) (now : ℕ) (snap : Limits) (email : String) (limit : ℕ) (l : Limits)
    → IsOf email (lookup email snap.user_by_email)
    → lookup email l.kicked ≡ lookup email snap.kicked
    → lookup email
        (enforce_user host now email limit
          (lookup email snap.user_by_email)
          (lookup email snap.kicked)
          l).kicked
      ≡ next_kick host now email limit (lookup email snap.user_by_email) (lookup email l.kicked)
own_turn host now snap email limit l own same =
    lookup-enforce_user host now email limit (lookup email snap.user_by_email)
      (lookup email snap.kicked) l own same
    ∙ ap (next_kick host now email limit (lookup email snap.user_by_email)) (sym same)

lookup-enforce_all :
    (host : Host) (now : ℕ) (snap : Limits) (limits : Dict String ℕ) (l : Limits) (email : String)
    → IsDict limits
    → ((name : String) → IsOf name (lookup name snap.user_by_email))
    → (is_some (lookup email limits) ≡ true → lookup email l.kicked ≡ lookup email snap.kicked)
    → lookup email (enforce_all host now snap limits l).kicked
      ≡ after_pass host now email
          (lookup email snap.user_by_email)
          (lookup email limits)
          (lookup email l.kicked)
unfolding enforce_all lookup
lookup-enforce_all host now snap [] l email d own same = refl
lookup-enforce_all host now snap ((j, limit) ∷ limits) l email d own same =
    let rest : (next : Limits)
        → (is_some (lookup email limits) ≡ true
            → lookup email next.kicked ≡ lookup email snap.kicked)
        → lookup email (enforce_all host now snap limits next).kicked
          ≡ after_pass host now email (lookup email snap.user_by_email) (lookup email limits)
              (lookup email next.kicked) =
      λ next h. lookup-enforce_all host now snap limits next email d.1 own h in
    elim (Bool-cases (j == email)) [
      | inl eq ↦
          let path : j ≡ email = (eq_iff j email).0 eq in
          let later : lookup email limits ≡ none = subst (λ k. lookup k limits ≡ none) path d.0 in
          rw eq (
            subst
              (λ k.
                lookup email
                  (enforce_all host now snap limits (
                    enforce_user host now k limit (lookup k snap.user_by_email)
                      (lookup k snap.kicked) l)).kicked
                ≡ next_kick host now email limit (lookup email snap.user_by_email)
                    (lookup email l.kicked))
              (sym path)
              (rest
                  (enforce_user host now email limit (lookup email snap.user_by_email)
                    (lookup email snap.kicked) l)
                  (λ h. absurd (cc (h, later)))
                ∙ (rw later
                    (own_turn host now snap email limit l (own email) (rw eq at same refl)))))
      | inr apart ↦
          let turn =
            enforce_user-other host now j email apart limit (lookup j snap.user_by_email)
              (lookup j snap.kicked) l (own j) in
          rw apart (
            rest _ (λ h. turn ∙ rw apart at same h)
            ∙ ap (after_pass host now email (lookup email snap.user_by_email) (lookup email limits))
                turn)
    ]

-- Each limit stands once, and each user under its own email.
abbrev pub IsKeyed : Limits → Type 0
IsKeyed l = IsDict l.user_limits × ((name : String) → IsOf name (lookup name l.user_by_email))

remember-IsKeyed : (u : User) (l : Limits) → IsKeyed l → IsKeyed (remember u l)
remember-IsKeyed u l keyed = (
  insert-IsDict u.email u.ip_limit l.user_limits keyed.0,
  λ name.
      subst (IsOf name) (sym (lookup-insert u.email name u l.user_by_email))
        (elim (Bool-cases (u.email == name)) [
          | inl same ↦ rw same ((eq_iff u.email name).0 same)
          | inr apart ↦ rw apart (keyed.1 name)
        ]),
)

remember_each-IsKeyed : (us : List User) (l : Limits) → IsKeyed l → IsKeyed (remember_each us l)
unfolding remember_each
remember_each-IsKeyed [] l keyed = keyed
remember_each-IsKeyed (u ∷ us) l keyed = elim (Bool-cases (u.email == "")) [
  | inl nameless ↦ rw nameless (remember_each-IsKeyed us l keyed)
  | inr named ↦ rw named (remember_each-IsKeyed us (remember u l) (remember-IsKeyed u l keyed))
]

-- Remembering users keeps the maps keyed: each limit stands once, and each user under its own email.
pub remember_users-IsKeyed :
    (us : List User) (replace : Bool) (l : Limits)
    → IsKeyed l
    → IsKeyed (remember_users us replace l)
unfolding remember_users lookup
remember_users-IsKeyed us true l keyed =
    remember_each-IsKeyed us (record l { user_limits = []; user_by_email = []; kicked = [] })
      (tt, λ name. tt)
remember_users-IsKeyed us false l keyed = remember_each-IsKeyed us l keyed

-- In maps where each limit stands once and each user under its own email, a pass of the device limit
-- does to the kick of every user with a limit what the user's own machine says, whatever the order of
-- the map; the kicks of the others stay.
pub lookup-enforce_ip_limits_once :
    (host : Host) (now : ℕ) (l : Limits) (email : String)
    → IsKeyed l
    → lookup email (enforce_ip_limits_once host now l).kicked
      ≡ after_pass host now email
          (lookup email l.user_by_email)
          (lookup email l.user_limits)
          (lookup email l.kicked)
unfolding enforce_ip_limits_once
lookup-enforce_ip_limits_once host now l email keyed =
    lookup-enforce_all host now l l.user_limits l email keyed.0 keyed.1 (λ h. refl)
