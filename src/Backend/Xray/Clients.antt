-- ===== src/Backend/Xray/Clients.antt =====
-- backend/xray: the client that each way of adding a user stores.
use hpxnode.Prelude.{
  true, Option, none, some, String, string_eq, ◌==◌, if◌then◌else◌, ◌≡◌, refl, ap, ◌∙◌, Bool-cases,
  inl, inr,
}
use hpxnode.Prelude.Dict.{elem, lookup, lookup-insert, lookup-delete}
use hpxnode.Backend.Xray.Accounts.{
  Codec, Account, vmess_account, vless_account, shadowsocks_account, tuic_account, get_email, User,
  setup_user_account, mapped, bound, new_vmess_account, new_vless_account, new_tuic_account,
  new_shadowsocks_tcp_account, new_shadowsocks_account, new_naive_account, new_trojan_account,
  new_hysteria_account, new_any_tls_account, Shadowsocks,
}
use hpxnode.Backend.Xray.Inbounds.{
  Protocol, vmess, vless, trojan, shadowsocks, hysteria, any_tls, tuic, naive, other, Inbound,
  is_2022, checked, account_for, is_active_inbound, client_of, updated, accepted, set_user,
  sync_user_in, update_user, remove_user,
}
use hpxnode.Backend.Xray.Password.{HasLengths, has_length, ensure_base64_password-idempotent}

-- The method of Shadowsocks 2022, if the inbound has one, names a known cipher.
abbrev pub IsKnown : Option String → Type 0
IsKnown none = Unit
IsKnown (some method) = is_2022 (some method) ≡ true → has_length method ≡ true

abbrev pub AllSome : {A : Type 0} → (A → Type 0) → Option A → Type 0
AllSome P none = Unit
AllSome P (some a) = P a

AllSome-mapped :
    {A B : Type 0} (P : B → Type 0) (f : A → B) (x : Option A)
    → ((y : A) → P (f y))
    → AllSome P (mapped f x)
AllSome-mapped P f none h = tt
AllSome-mapped P f (some y) h = h y

AllSome-bound :
    {A B : Type 0} (P : B → Type 0) (f : A → Option B) (x : Option A)
    → ((y : A) → AllSome P (f y))
    → AllSome P (bound f x)
AllSome-bound P f none h = tt
AllSome-bound P f (some y) h = h y

-- The account is of the user and of the protocol's type, and a second check leaves it as it is.
abbrev pub IsStored : Codec → Protocol → Option String → String → Account → Type 0
IsStored c p method email a =
    (get_email a ≡ email) × ((accepted c p method a ≡ some a) × (updated c method a ≡ a))

checked-twice :
    (c : Codec) (method : Option String) (email : String) (s : Shadowsocks)
    → HasLengths c
    → IsKnown method
    → is_2022 method ≡ true
    → checked c method (checked c method (new_shadowsocks_account c email s))
      ≡ checked c method (new_shadowsocks_account c email s)
checked-twice c none email s lengths known h = refl
checked-twice c (some method) email s lengths known h =
    ap (shadowsocks_account email)
      (ensure_base64_password-idempotent c s.password method lengths (known h))

checked-IsStored :
    (c : Codec) (method : Option String) (email : String) (s : Shadowsocks)
    → HasLengths c
    → IsKnown method
    → is_2022 method ≡ true
    → IsStored c shadowsocks method email (checked c method (new_shadowsocks_account c email s))
checked-IsStored c none email s lengths known h = absurd (cc h)
checked-IsStored c (some method) email s lengths known h =
    let same = checked-twice c (some method) email s lengths known h in
    (refl, (rw h (ap some same), same))

client_of-IsStored :
    (c : Codec) (p : Protocol) (method : Option String) (u : User)
    → HasLengths c
    → IsKnown method
    → AllSome (IsStored c p method u.email) (client_of c p method u)
client_of-IsStored c vmess method u lengths known =
    AllSome-bound _ (new_vmess_account c u.email) u.proxies.vmess
      (λ id. AllSome-mapped _ (vmess_account u.email) (c.parse_uuid id) (λ k. (refl, (refl, refl))))
client_of-IsStored c vless method u lengths known =
    AllSome-bound _ (new_vless_account c u.email) u.proxies.vless (λ v.
      AllSome-mapped _ (λ id. vless_account u.email id v.flow) (c.parse_uuid v.id)
        (λ k. (refl, (refl, refl))))
client_of-IsStored c trojan method u lengths known =
    AllSome-mapped _ (new_trojan_account c u.email) u.proxies.trojan (λ p. (refl, (refl, refl)))
client_of-IsStored c shadowsocks method u lengths known = elim (Bool-cases (is_2022 method)) [
  | inl new ↦ rw new (
      AllSome-mapped (IsStored c shadowsocks method u.email)
        (λ s. checked c method (new_shadowsocks_account c u.email s)) u.proxies.shadowsocks
        (λ s. checked-IsStored c method u.email s lengths known new))
  | inr old ↦ rw old (
      AllSome-mapped (IsStored c shadowsocks method u.email) (new_shadowsocks_tcp_account c u.email)
        u.proxies.shadowsocks (λ s. (refl, (rw old refl, refl))))
]
client_of-IsStored c hysteria method u lengths known =
    AllSome-mapped _ (new_hysteria_account c u.email) u.proxies.hysteria (λ p. (refl, (refl, refl)))
client_of-IsStored c any_tls method u lengths known =
    AllSome-mapped _ (new_any_tls_account c u.email) u.proxies.anytls (λ p. (refl, (refl, refl)))
client_of-IsStored c tuic method u lengths known =
    AllSome-bound _ (new_tuic_account c u.email) u.proxies.tuic (λ v.
      AllSome-mapped _ (λ id. tuic_account u.email id v.password) (c.parse_uuid v.id)
        (λ k. (refl, (refl, refl))))
client_of-IsStored c naive method u lengths known =
    AllSome-mapped _ (new_naive_account c u.email) u.proxies.naive (λ p. (refl, (refl, refl)))
client_of-IsStored c other method u lengths known = tt

mapped-mapped :
    {A B C : Type 0} (f : B → C) (g : A → B) (x : Option A)
    → mapped f (mapped g x) ≡ mapped (λ y. f (g y)) x
mapped-mapped f g none = refl
mapped-mapped f g (some y) = refl

-- isActiveInbound takes the account that a full synchronization makes.
account_for-client_of :
    (c : Codec) (p : Protocol) (method : Option String) (u : User)
    → account_for c p method (setup_user_account c u) ≡ client_of c p method u
account_for-client_of c vmess method u = refl
account_for-client_of c vless method u = refl
account_for-client_of c trojan method u = refl
account_for-client_of c shadowsocks method u =
    ap
      (λ a.
        if is_2022 method
        then a
        else mapped (new_shadowsocks_tcp_account c u.email) u.proxies.shadowsocks)
      (mapped-mapped (checked c method) (new_shadowsocks_account c u.email) u.proxies.shadowsocks)
account_for-client_of c hysteria method u = refl
account_for-client_of c any_tls method u = refl
account_for-client_of c tuic method u = refl
account_for-client_of c naive method u = refl
account_for-client_of c other method u = refl

-- The client that a user is given in an inbound, if any.
abbrev pub client : Codec → Inbound → User → Option Account
client c i u = if elem i.tag u.inbounds then client_of c i.protocol i.method u else none

pub client-IsStored :
    (c : Codec) (i : Inbound) (u : User)
    → HasLengths c
    → IsKnown i.method
    → AllSome (IsStored c i.protocol i.method u.email) (client c i u)
client-IsStored c i u lengths known = elim (Bool-cases (elem i.tag u.inbounds)) [
  | inl inside ↦ rw inside (client_of-IsStored c i.protocol i.method u lengths known)
  | inr outside ↦ rw outside tt
]

pub is_active_inbound-client :
    (c : Codec) (i : Inbound) (u : User)
    → is_active_inbound c i u.inbounds (setup_user_account c u) ≡ client c i u
unfolding is_active_inbound
is_active_inbound-client c i u =
    ap (λ a. if elem i.tag u.inbounds then a else none)
      (account_for-client_of c i.protocol i.method u)

lookup-set_user :
    (c : Codec) (i : Inbound) (email name : String) (x : Option Account)
    → AllSome (IsStored c i.protocol i.method email) x
    → lookup name (set_user c x email i).clients
      ≡ (if email == name then x else lookup name i.clients)
unfolding update_user remove_user
lookup-set_user c i email name none stored = lookup-delete email name i.clients
lookup-set_user c i email name (some a) stored =
    rw (stored.0, stored.1.1) (lookup-insert email name a i.clients)

-- When base64 keeps lengths and a method of Shadowsocks 2022 names a known cipher, SyncUser leaves a
-- user in an inbound exactly with the account that a full synchronization makes, or with none if the
-- user does not belong there. The other users keep their accounts.
pub lookup-sync_user_in :
    (c : Codec) (i : Inbound) (u : User) (email : String)
    → HasLengths c
    → IsKnown i.method
    → lookup email (sync_user_in c u i).clients
      ≡ (if u.email == email then client c i u else lookup email i.clients)
unfolding sync_user_in
lookup-sync_user_in c i u email lengths known =
    ap (λ x. lookup email (set_user c x u.email i).clients) (is_active_inbound-client c i u)
    ∙ lookup-set_user c i u.email email (client c i u) (client-IsStored c i u lengths known)
