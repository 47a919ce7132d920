-- ===== src/Backend/OpenVpn/Allowlist.antt =====
-- backend/openvpn/users.go: what a synchronization does to the allowlist and to the sessions.
use hpxnode.Prelude.{
  false, not, ◌&&◌, ◌||◌, List, [], ◌∷◌, Option, none, some, String, string_eq, ◌==◌, is_some,
  if◌then◌else◌, arith, ◌≡◌, refl, sym, ap, ◌∙◌, subst,
}
use hpxnode.Prelude.Dict.{Dict, elem, lookup, insert, delete, keys, lookup-insert, lookup-delete}
use text.Mathlib.TextEquality.{eq_iff}
use hpxnode.Backend.OpenVpn.Users.{
  UserEntry, User, Sessions, UserStore, authorized_entry, authorized_locked,
}
use hpxnode.Backend.OpenVpn.Sync.{
  wants_interface, entry_of, bare_entry_of, apply_user, collect_next, departed, drop_sessions,
  replace_all, has,
}

-- After a user with a name is applied, the name is authorized by the entry of the user, or by
-- nothing when the user does not belong to the inbound; the other names are authorized as before.
pub authorized-apply_user :
    (s : UserStore) (u : User) (cn serial username password : String)
    → (u.email == "") ≡ false
    → authorized_locked (apply_user s u).0 cn serial username password ≡ (
        if u.email == cn
        then (if wants_interface s u
            then authorized_entry (some (entry_of u)) serial username password
            else false)
        else authorized_locked s cn serial username password)
unfolding authorized_locked apply_user
authorized-apply_user s u cn serial username password named = ground (
  arith,
  lookup-insert {V = UserEntry} u.email cn (entry_of u) s.users,
  lookup-delete {V = UserEntry} u.email cn s.users,
)

-- The last user of the list that belongs to the inbound under a name.
unfoldable pub last_wanted : UserStore → String → List User → Option UserEntry → Option UserEntry
last_wanted s cn [] found = found
last_wanted s cn (u ∷ us) found = last_wanted s cn us (
    if wants_interface s u && (not (u.email == "") && u.email == cn)
    then some (bare_entry_of u)
    else found)

lookup-collect_next :
    (s : UserStore) (cn : String) (us : List User) (next : Dict String UserEntry)
    → lookup cn (collect_next s us next) ≡ last_wanted s cn us (lookup cn next)
unfolding collect_next last_wanted
lookup-collect_next s cn [] next = refl
lookup-collect_next s cn (u ∷ us) next =
    lookup-collect_next s cn us (
      if not (wants_interface s u) || u.email == ""
      then next
      else insert u.email (bare_entry_of u) next)
    ∙ ap (last_wanted s cn us)
        (ground (arith, lookup-insert {V = UserEntry} u.email cn (bare_entry_of u) next))

-- The names that replace_all returns are the users that are gone.
elem-departed :
    (next : Dict String UserEntry) (cns : List String) (cn : String)
    → elem cn (departed next cns) ≡ (elem cn cns && not (is_some (lookup cn next)))
unfolding elem departed
elem-departed next [] cn = refl
elem-departed next (j ∷ cns) cn = ground (arith, elem-departed next cns cn, eq_iff j cn)

elem-keys : (cn : String) (m : Dict String UserEntry) → elem cn (keys m) ≡ is_some (lookup cn m)
unfolding elem lookup
elem-keys cn [] = refl
elem-keys cn ((j, w) ∷ m) = ground (arith, elem-keys cn m)

lookup-drop_sessions :
    (cns : List String) (sessions : Dict String Sessions) (cn : String)
    → lookup cn (drop_sessions cns sessions) ≡ (if elem cn cns then none else lookup cn sessions)
unfolding drop_sessions elem
lookup-drop_sessions [] sessions cn = refl
lookup-drop_sessions (j ∷ cns) sessions cn = ground (
  arith,
  lookup-drop_sessions cns (delete j sessions) cn,
  lookup-delete {V = Sessions} j cn sessions,
)

elem-gone :
    (s : UserStore) (us : List User) (cn : String)
    → elem cn (departed (collect_next s us []) (keys s.users))
      ≡ (is_some (lookup cn s.users) && not (is_some (lookup cn (collect_next s us []))))
elem-gone s us cn =
    elem-departed (collect_next s us []) (keys s.users) cn
    ∙ ap (λ b. b && not (is_some (lookup cn (collect_next s us [])))) (elem-keys cn s.users)

-- replace_all keeps the sessions of every user that stays and drops those of every user that goes,
-- whose name it returns; the users are then the last wanted ones of the list.
pub replace_all_lem :
    (s : UserStore) (us : List User) (cn : String)
    → (lookup cn (replace_all s us).0.users ≡ last_wanted s cn us none)
      × ((elem cn (replace_all s us).1 ≡ (has s cn && not (has (replace_all s us).0 cn)))
          × (lookup cn (replace_all s us).0.sessions ≡ (
              if has s cn && not (has (replace_all s us).0 cn)
              then none
              else lookup cn s.sessions)))
unfolding replace_all has lookup
replace_all_lem s us cn =
    let gone = elem-gone s us cn in
    (
      lookup-collect_next s cn us [],
      (
        gone,
        lookup-drop_sessions (departed (collect_next s us []) (keys s.users)) s.sessions cn
            ∙ ap (λ b. if b then none else lookup cn s.sessions) gone,
      ),
    )

last_wanted-authorized :
    (s : UserStore) (cn serial username password other other_password : String) (us : List User)
    (found : Option UserEntry)
    → authorized_entry found serial username password
      ≡ authorized_entry found serial other other_password
    → authorized_entry (last_wanted s cn us found) serial username password
      ≡ authorized_entry (last_wanted s cn us found) serial other other_password
unfolding last_wanted bare_entry_of
last_wanted-authorized s cn serial username password other other_password [] found h = h
last_wanted-authorized s cn serial username password other other_password (u ∷ us) found h =
    last_wanted-authorized s cn serial username password other other_password us
      (if wants_interface s u && (not (u.email == "") && u.email == cn)
        then some (bare_entry_of u)
        else found)
      (ground (arith, h))

-- After replace_all no username and no password change the answer of the authorization.
pub authorized-replace_all :
    (s : UserStore) (us : List User) (cn serial username password other other_password : String)
    → authorized_locked (replace_all s us).0 cn serial username password
      ≡ authorized_locked (replace_all s us).0 cn serial other other_password
unfolding authorized_locked
authorized-replace_all s us cn serial username password other other_password =
    subst
      (λ e.
        authorized_entry e serial username password
        ≡ authorized_entry e serial other other_password)
      (sym (replace_all_lem s us cn).0)
      (last_wanted-authorized s cn serial username password other other_password us none refl)
