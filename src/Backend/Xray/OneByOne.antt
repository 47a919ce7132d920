-- ===== src/Backend/Xray/OneByOne.antt =====
-- backend/xray: a full synchronization against one user after another.
use hpxnode.Prelude.{
  Bool, true, false, ◌||◌, List, [], ◌∷◌, Option, none, some, String, string_eq, ◌==◌,
  if◌then◌else◌, arith, ◌≡◌, refl, sym, ap, ◌∙◌, subst, Bool-cases, inl, inr,
}
use hpxnode.Prelude.Dict.{Dict, lookup, lookup-insert}
use text.Mathlib.TextEquality.{eq_iff}
use hpxnode.Backend.Xray.Accounts.{Codec, Account, User, setup_user_account}
use hpxnode.Backend.Xray.Inbounds.{
  Inbound, is_active_inbound, with_client, sync_clients, sync_users, set_user, sync_user_in,
  update_user, remove_user,
}
use hpxnode.Backend.Xray.Password.{HasLengths}
use hpxnode.Backend.Xray.Clients.{IsKnown, client, lookup-sync_user_in}

-- A user of the list has the email.
abbrev pub names : String → List User → Bool
names email [] = false
names email (u ∷ us) = u.email == email || names email us

-- No two users have one email.
abbrev pub HasOwnEmails : List User → Type 0
HasOwnEmails [] = Unit
HasOwnEmails (u ∷ us) = (names u.email us ≡ false) × HasOwnEmails us

-- The client of the user with the email, or the one that was there.
abbrev pub chosen : Codec → Inbound → String → List User → Option Account → Option Account
chosen c i email [] old = old
chosen c i email (u ∷ us) old =
    let rest = chosen c i email us old in if u.email == email then client c i u else rest

unfoldable pub sync_each : Codec → List User → Inbound → Inbound
sync_each c [] i = i
sync_each c (u ∷ us) i = sync_each c us (sync_user_in c u i)

chosen-absent :
    (c : Codec) (i : Inbound) (email : String) (us : List User) (old : Option Account)
    → names email us ≡ false
    → chosen c i email us old ≡ old
chosen-absent c i email [] old h = refl
chosen-absent c i email (u ∷ us) old h = ground (arith, chosen-absent c i email us old)

set_user-client :
    (c : Codec) (i : Inbound) (email : String) (x : Option Account) (u : User)
    → client c (set_user c x email i) u ≡ client c i u
unfolding update_user remove_user
set_user-client c i email none u = refl
set_user-client c i email (some a) u = refl

set_user-method :
    (c : Codec) (i : Inbound) (email : String) (x : Option Account)
    → (set_user c x email i).method ≡ i.method
unfolding update_user remove_user
set_user-method c i email none = refl
set_user-method c i email (some a) = refl

sync_user_in-chosen :
    (c : Codec) (i : Inbound) (u : User) (email : String) (us : List User) (old : Option Account)
    → chosen c (sync_user_in c u i) email us old ≡ chosen c i email us old
unfolding sync_user_in
sync_user_in-chosen c i u email [] old = refl
sync_user_in-chosen c i u email (v ∷ us) old =
    let x = is_active_inbound c i u.inbounds (setup_user_account c u) in
    rw (sync_user_in-chosen c i u email us old, set_user-client c i u.email x v) refl

sync_user_in-IsKnown :
    (c : Codec) (i : Inbound) (u : User) → IsKnown i.method → IsKnown (sync_user_in c u i).method
unfolding sync_user_in
sync_user_in-IsKnown c i u known =
    subst IsKnown
      (sym
        (set_user-method c i u.email (is_active_inbound c i u.inbounds (setup_user_account c u))))
      known

pub chosen-first :
    (c : Codec) (i : Inbound) (u : User) (us : List User) (email : String) (x old : Option Account)
    → names u.email us ≡ false
    → chosen c i email us (if u.email == email then x else old)
      ≡ (if u.email == email then x else chosen c i email us old)
chosen-first c i u us email x old own = elim (Bool-cases (u.email == email)) [
  | inl same ↦ rw same (
      chosen-absent c i email us x
        (subst (λ e. names e us ≡ false) ((eq_iff u.email email).0 same) own))
  | inr apart ↦ rw apart refl
]

pub lookup-sync_each :
    (c : Codec) (i : Inbound) (us : List User) (email : String)
    → HasLengths c
    → IsKnown i.method
    → HasOwnEmails us
    → lookup email (sync_each c us i).clients ≡ chosen c i email us (lookup email i.clients)
unfolding sync_each
lookup-sync_each c i [] email lengths known own = refl
lookup-sync_each c i (u ∷ us) email lengths known own =
    lookup-sync_each c (sync_user_in c u i) us email lengths (sync_user_in-IsKnown c i u known)
      own.1
    ∙ (sync_user_in-chosen c i u email us (lookup email (sync_user_in c u i).clients)
        ∙ (ap (chosen c i email us) (lookup-sync_user_in c i u email lengths known)
            ∙ chosen-first c i u us email (client c i u) (lookup email i.clients) own.0))

lookup-with_client :
    (email name : String) (x : Option Account) (clients : Dict String Account)
    → (email ≡ name → lookup name clients ≡ none)
    → lookup name (with_client email x clients) ≡ (if email == name then x else lookup name clients)
lookup-with_client email name none clients new = elim (Bool-cases (email == name)) [
  | inl same ↦ rw same (new ((eq_iff email name).0 same))
  | inr apart ↦ rw apart refl
]
lookup-with_client email name (some a) clients new = lookup-insert email name a clients

still_new :
    (c : Codec) (i : Inbound) (u : User) (us : List User) (email : String) (old : Option Account)
    → names u.email us ≡ false
    → names email us ≡ true
    → (names email (u ∷ us) ≡ true → old ≡ none)
    → (if u.email == email then client c i u else old) ≡ none
still_new c i u us email old own later new = elim (Bool-cases (u.email == email)) [
  | inl same ↦
      absurd (cc (subst (λ e. names e us ≡ false) ((eq_iff u.email email).0 same) own, later))
  | inr apart ↦ rw apart (new (rw apart later))
]

chosen-cleared :
    (c : Codec) (i : Inbound) (email : String) (us : List User)
    → chosen c (record i { clients = [] }) email us none ≡ chosen c i email us none
chosen-cleared c i email [] = refl
chosen-cleared c i email (u ∷ us) =
    ap (λ r. if u.email == email then client c i u else r) (chosen-cleared c i email us)

lookup-sync_clients :
    (c : Codec) (i : Inbound) (us : List User) (email : String) (clients : Dict String Account)
    → HasOwnEmails us
    → (names email us ≡ true → lookup email clients ≡ none)
    → lookup email (sync_clients c i us clients) ≡ chosen c i email us (lookup email clients)
unfolding sync_clients
lookup-sync_clients c i [] email clients own new = refl
lookup-sync_clients c i (u ∷ us) email clients own new =
    let now = with_client u.email (client c i u) clients in
    let step : lookup email now
        ≡ (if u.email == email then client c i u else lookup email clients) =
      lookup-with_client u.email email (client c i u) clients
        (λ same. new (ground (arith, same, eq_iff u.email email))) in
    lookup-sync_clients c i us email now own.1
      (λ later. step ∙ still_new c i u us email (lookup email clients) own.0 later new)
    ∙ (ap (chosen c i email us) step
        ∙ chosen-first c i u us email (client c i u) (lookup email clients) own.0)

-- When base64 keeps lengths, a method of Shadowsocks 2022 names a known cipher, and no two users have
-- one email, a full synchronization gives an inbound without clients the accounts that SyncUser gives
-- it for one user after the other.
pub lookup-sync_users :
    (c : Codec) (i : Inbound) (us : List User) (email : String)
    → HasLengths c
    → IsKnown i.method
    → HasOwnEmails us
    → lookup email (sync_users c us i).clients
      ≡ lookup email (sync_each c us (record i { clients = [] })).clients
unfolding sync_users lookup
lookup-sync_users c i us email lengths known own =
    lookup-sync_clients c i us email [] own (λ h. refl)
    ∙ sym (
        lookup-sync_each c (record i { clients = [] }) us email lengths known own
        ∙ chosen-cleared c i email us)
