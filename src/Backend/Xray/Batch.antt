-- ===== src/Backend/Xray/Batch.antt =====
-- backend/xray: a batch of users against one user after another.
use hpxnode.Prelude.{
  false, List, [], ◌∷◌, Option, none, some, String, string_eq, ◌==◌, if◌then◌else◌, arith, ◌≡◌,
  refl, sym, ap, ◌∙◌, Bool-cases, inl, inr,
}
use hpxnode.Prelude.Dict.{Dict, elem, lookup, insert, delete, lookup-insert, lookup-delete}
use hpxnode.Backend.Xray.Accounts.{Codec, Account, User}
use hpxnode.Backend.Xray.Inbounds.{
  Inbound, add_accounts, delete_emails, update_users, note_user, build_update, update_users_in,
}
use hpxnode.Backend.Xray.Password.{HasLengths}
use hpxnode.Backend.Xray.Clients.{
  IsKnown, IsStored, AllSome, client, client-IsStored, is_active_inbound-client,
}
use hpxnode.Backend.Xray.OneByOne.{
  names, HasOwnEmails, chosen, chosen-first, sync_each, lookup-sync_each,
}

lookup-delete_emails :
    (email : String) (emails : List String) (clients : Dict String Account)
    → lookup email (delete_emails emails clients)
      ≡ (if elem email emails then none else lookup email clients)
unfolding delete_emails elem
lookup-delete_emails email [] clients = refl
lookup-delete_emails email (j ∷ emails) clients = ground (
  arith,
  lookup-delete_emails email emails (delete j clients),
  lookup-delete {V = Account} j email clients,
)

-- The client of an email after a batch.
abbrev left :
    Codec → Inbound → String → List Account × List String → Dict String Account → Option Account
left c i email batch clients =
    if elem email batch.1 then none else lookup email (add_accounts c i batch.0 clients)

left-note_user :
    (c : Codec) (i : Inbound) (u : User) (us : List User) (email : String) (x : Option Account)
    (batch : List Account × List String) (clients : Dict String Account)
    → AllSome (IsStored c i.protocol i.method u.email) x
    → names u.email us ≡ false
    → ((cs : Dict String Account) → left c i email batch cs ≡ chosen c i email us (lookup email cs))
    → left c i email (note_user x u.email batch) clients
      ≡ (if u.email == email then x else chosen c i email us (lookup email clients))
unfolding elem add_accounts
left-note_user c i u us email none batch clients stored own rest =
    elim (Bool-cases (u.email == email)) [
      | inl same ↦ rw same refl
      | inr apart ↦ rw apart (rest clients)
    ]
left-note_user c i u us email (some a) (accounts, removed) clients stored own rest =
    rw (stored.0, stored.1.0)
      (rest (insert u.email a clients)
        ∙ (ap (chosen c i email us) (lookup-insert u.email email a clients)
            ∙ chosen-first c i u us email (some a) (lookup email clients) own))

left-build_update :
    (c : Codec) (i : Inbound) (us : List User) (email : String) (clients : Dict String Account)
    → HasLengths c
    → IsKnown i.method
    → HasOwnEmails us
    → left c i email (build_update c i us) clients ≡ chosen c i email us (lookup email clients)
unfolding build_update add_accounts elem
left-build_update c i [] email clients lengths known own = refl
left-build_update c i (u ∷ us) email clients lengths known own =
    ap (λ x. left c i email (note_user x u.email (build_update c i us)) clients)
      (is_active_inbound-client c i u)
    ∙ left-note_user c i u us email (client c i u) (build_update c i us) clients
        (client-IsStored c i u lengths known) own.0
        (λ cs. left-build_update c i us email cs lengths known own.1)

-- When base64 keeps lengths, a method of Shadowsocks 2022 names a known cipher, and no two users have
-- one email, UpdateUsers leaves an inbound with the accounts that SyncUser leaves for one user after
-- the other.
pub lookup-update_users_in :
    (c : Codec) (i : Inbound) (us : List User) (email : String)
    → HasLengths c
    → IsKnown i.method
    → HasOwnEmails us
    → lookup email (update_users_in c us i).clients ≡ lookup email (sync_each c us i).clients
unfolding update_users_in update_users
lookup-update_users_in c i us email lengths known own =
    let update = build_update c i us in
    lookup-delete_emails email update.1 (add_accounts c i update.0 i.clients)
    ∙ (left-build_update c i us email i.clients lengths known own
        ∙ sym (lookup-sync_each c i us email lengths known own))
