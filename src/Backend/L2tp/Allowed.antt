-- ===== src/Backend/L2tp/Allowed.antt =====
-- backend/l2tp/users.go: who may connect after a synchronization.
use hpxnode.Prelude.{
  false, not, ◌&&◌, List, [], ◌∷◌, Option, none, some, String, string_eq, ◌==◌, if◌then◌else◌,
  is_some, arith, ◌||◌, Bool-cases, inl, inr, ◌≡◌, refl, ap, ◌∙◌,
}
use hpxnode.Prelude.Dict.{Dict, elem, lookup, insert, delete, keys, lookup-insert, lookup-delete}
use hpxnode.Prelude.DictLaws.{elem-keys}
use text.Mathlib.TextEquality.{eq_iff}
use hpxnode.Backend.OpenVpn.Users.{User, Credentials}
use hpxnode.Backend.L2tp.Users.{
  Entry, UserStore, complete, creds_for, wants_interface, entry_of, add_user, collect_next,
  departed, replace_all, apply_wanted, apply_user,
}

-- The entry of a name in the last user of a list that has credentials with it and belongs to the
-- interface.
abbrev pub last_entry : String → User → Option Credentials → Option Entry → Option Entry
last_entry name u none found = found
last_entry name u (some c) found = if c.username == name then some (entry_of u c) else found

abbrev pub last_wanted : String → String → List User → Option Entry → Option Entry
last_wanted tag name [] found = found
last_wanted tag name (u ∷ us) found =
    last_wanted tag name us (last_entry name u (wants_interface tag u) found)

lookup-add_user :
    (name : String) (u : User) (c : Option Credentials) (next : Dict String Entry)
    → lookup name (add_user u c next) ≡ last_entry name u c (lookup name next)
lookup-add_user name u none next = refl
lookup-add_user name u (some c) next = lookup-insert c.username name (entry_of u c) next

lookup-collect_next :
    (tag name : String) (us : List User) (next : Dict String Entry)
    → lookup name (collect_next tag us next) ≡ last_wanted tag name us (lookup name next)
unfolding collect_next
lookup-collect_next tag name [] next = refl
lookup-collect_next tag name (u ∷ us) next =
    lookup-collect_next tag name us (add_user u (wants_interface tag u) next)
    ∙ ap (last_wanted tag name us) (lookup-add_user name u (wants_interface tag u) next)

elem-departed :
    (next : Dict String Entry) (names : List String) (name : String)
    → elem name (departed next names) ≡ (elem name names && not (is_some (lookup name next)))
unfolding elem departed
elem-departed next [] name = refl
elem-departed next (j ∷ names) name = ground (arith, elem-departed next names name, eq_iff j name)

-- After replaceAll a name has the entry of the last wanted user of the list, and the names returned
-- are those that were served before and are no longer.
pub lookup-replace_all :
    (us : List User) (s : UserStore) (name : String)
    → (lookup name (replace_all us s).0.users ≡ last_wanted s.inbound_tag name us none)
      × (elem name (replace_all us s).1 ≡ (
          is_some (lookup name s.users) && not (is_some (lookup name (replace_all us s).0.users))))
unfolding replace_all lookup
lookup-replace_all us s name =
    let next = collect_next s.inbound_tag us [] in
    (
      lookup-collect_next s.inbound_tag name us [],
      elem-departed next (keys s.users) name
          ∙ ap (λ b. b && not (is_some (lookup name next))) (elem-keys name s.users),
    )

-- What a user without access leaves of a name's entry.
abbrev pub without : String → User → Option Entry → Option Entry
without name u found = if u.email == name then none else found

abbrev pub by_credentials : String → User → Option Credentials → Option Entry → Option Entry
by_credentials name u none found = without name u found
by_credentials name u (some c) found =
    if c.username == "" || c.password == ""
    then without name u found
    else (if c.username == name
        then some
            (record { password = c.password; ip_limit = u.ip_limit; speed_limit = u.speed_limit })
        else found)

-- What a user that belongs to some inbounds leaves of a name's entry on the backend of a tag.
abbrev pub entry_after : String → String → User → Option Entry → Option Entry
entry_after tag name u found =
    if elem tag u.inbounds then by_credentials name u u.ikev2 found else without name u found

abbrev with_wanted : String → User → Option Credentials → Option Entry → Option Entry
with_wanted name u none found = without name u found
with_wanted name u (some c) found = last_entry name u (some c) found

completed-entry :
    (name : String) (u : User) (c : Option Credentials) (found : Option Entry)
    → with_wanted name u (complete c) found ≡ by_credentials name u c found
completed-entry name u none found = refl
completed-entry name u (some c) found = elim (Bool-cases (c.username == "" || c.password == "")) [
  | inl empty ↦ rw empty refl
  | inr full ↦ rw full refl
]

wanted-entry :
    (tag name : String) (u : User) (found : Option Entry)
    → with_wanted name u (wants_interface tag u) found ≡ entry_after tag name u found
unfolding wants_interface creds_for
wanted-entry tag name u found = elim (Bool-cases (elem tag u.inbounds)) [
  | inl inside ↦ rw inside (completed-entry name u u.ikev2 found)
  | inr outside ↦ rw outside refl
]

kept_or_new :
    (email name : String) (e : Entry) (users : Dict String Entry)
    → false ≡ (is_some (lookup email users) && not (is_some (lookup email (insert name e users))))
kept_or_new email name e users = ground (arith, lookup-insert name email e users)

gone :
    (email : String) (users : Dict String Entry)
    → is_some (lookup email users)
      ≡ (is_some (lookup email users) && not (is_some (lookup email (delete email users))))
gone email users = ground (arith, lookup-delete email email users, eq_iff email email)

lookup-apply_wanted :
    (u : User) (c : Option Credentials) (s : UserStore) (name : String)
    → (u.email == "") ≡ false
    → (lookup name (apply_wanted u c s).0.users ≡ with_wanted name u c (lookup name s.users))
      × ((apply_wanted u c s).1.removed ≡ (
          is_some (lookup u.email s.users)
          && not (is_some (lookup u.email (apply_wanted u c s).0.users))))
unfolding apply_wanted
lookup-apply_wanted u none s name named =
    rw named (lookup-delete {V = Entry} u.email name s.users, gone u.email s.users)
lookup-apply_wanted u (some c) s name named = (
  lookup-insert c.username name (entry_of u c) s.users,
  kept_or_new u.email c.username (entry_of u c) s.users,
)

-- For a user that has an email, applyUser gives the username of its IKEv2 credentials the password and
-- the limits of the user, if the user belongs to the backend's inbound and both credentials are not
-- empty; otherwise it takes away the entry under the email. All other names keep their entries. It
-- says that one was removed exactly if the email had an entry and has none any more.
pub lookup-apply_user :
    (u : User) (s : UserStore) (name : String)
    → (u.email == "") ≡ false
    → (lookup name (apply_user u s).0.users
        ≡ entry_after s.inbound_tag name u (lookup name s.users))
      × ((apply_user u s).1.removed ≡ (
          is_some (lookup u.email s.users)
          && not (is_some (lookup u.email (apply_user u s).0.users))))
unfolding apply_user
lookup-apply_user u s name named =
    let applied = lookup-apply_wanted u (wants_interface s.inbound_tag u) s name named in
    (applied.0 ∙ wanted-entry s.inbound_tag name u (lookup name s.users), applied.1)
