-- ===== src/Backend/RateLimit/Exact.antt =====
-- backend/ratelimit/ratelimit.go: the applied set after Apply, beside the clients.
use hpxnode.Prelude.{
  ◌≤◌, ◌≡◌, refl, ap, sym, ◌∙◌, ◌&&◌, ◌||◌, not, List, [], ◌∷◌, Option, none, some, String,
  string_eq, ◌==◌, if◌then◌else◌, nat_eq, length, arith, is_some,
}
use hpxnode.Prelude.Dict.{Dict, lookup, insert, IsDict, lookup-insert, insert-IsDict}
use hpxnode.Backend.RateLimit.Marks.{max_clients}
use hpxnode.Backend.RateLimit.Apply.{
  Client, Manager, wanted_from, drop_departed, apply_addrs, sort_addrs, set_of, or_teardown,
  apply_state,
}
use hpxnode.Backend.RateLimit.Reconcile.{
  IsCoherent, new_manager-IsCoherent, drop_departed-IsCoherent, apply_addrs-IsCoherent,
  lookup-drop_departed,
}
use hpxnode.Backend.RateLimit.Capacity.{Fits, lookup-apply_addrs, sort_addrs_lem}
use text.Mathlib.TextEquality.{eq_iff}

-- The last client of a list that has an address and is limited.
unfoldable pub last_shaped : String → List Client → Option Client → Option Client
last_shaped a [] found = found
last_shaped a (c ∷ clients) found =
    last_shaped a clients
      (if c.address == a && (not (a == "") && not (nat_eq c.limit_kbps 0)) then some c else found)

lookup-wanted_from :
    (a : String) (clients : List Client) (wanted : Dict String Client)
    → lookup a (wanted_from clients wanted) ≡ last_shaped a clients (lookup a wanted)
unfolding wanted_from last_shaped
lookup-wanted_from a [] wanted = refl
lookup-wanted_from a (c ∷ clients) wanted =
    lookup-wanted_from a clients
      (if c.address == "" || nat_eq c.limit_kbps 0 then wanted else insert c.address c wanted)
    ∙ ap (last_shaped a clients) (
        ground (
          arith,
          eq_iff c.address a,
          eq_iff c.address "",
          eq_iff a "",
          lookup-insert c.address a c wanted,
        ))

wanted_from-IsDict :
    (clients : List Client) (wanted : Dict String Client)
    → IsDict wanted
    → IsDict (wanted_from clients wanted)
unfolding wanted_from
wanted_from-IsDict [] wanted d = d
wanted_from-IsDict (c ∷ clients) wanted d =
    wanted_from-IsDict clients
      (if c.address == "" || nat_eq c.limit_kbps 0 then wanted else insert c.address c wanted)
      (ground (arith, insert-IsDict c.address c wanted d))

or_teardown-IsCoherent :
    (wanted : Dict String Client) (m : Manager) → IsCoherent m → IsCoherent (or_teardown wanted m)
or_teardown-IsCoherent [] m h = new_manager-IsCoherent
or_teardown-IsCoherent (w ∷ wanted) m h = h

set_ifaces-IsCoherent :
    (m : Manager) (s : Dict String (Unit {0}))
    → IsCoherent m
    → IsCoherent (record m { iface_set = s })
set_ifaces-IsCoherent m s h = record { marks = h.marks; dict = h.dict; marked = h.marked }

-- From a coherent state every Apply, also one with too many clients, keeps the marks sound, the
-- addresses distinct, and a mark at exactly the applied addresses.
pub apply_state-IsCoherent :
    (ifaces : List String) (clients : List Client) (m : Manager)
    → IsCoherent m
    → IsCoherent (apply_state ifaces clients m)
unfolding apply_state
apply_state-IsCoherent ifaces clients m h = or_teardown-IsCoherent (wanted_from clients []) _ (
    set_ifaces-IsCoherent
      (apply_addrs (sort_addrs (wanted_from clients []))
        (drop_departed m.applied (wanted_from clients []) m))
      (set_of ifaces)
      (apply_addrs-IsCoherent (sort_addrs (wanted_from clients []))
        (drop_departed m.applied (wanted_from clients []) m)
        (drop_departed-IsCoherent m.applied (wanted_from clients []) m h)))

module _ (wanted : Dict String Client) (m : Manager) (h : IsCoherent m) (d : IsDict wanted) where
  dropped-Fits : length wanted ≤ max_clients → Fits wanted (drop_departed m.applied wanted m)
  dropped-Fits few = record {
    coherent = drop_departed-IsCoherent m.applied wanted m h;
    dict = d;
    few = few;
    sub = λ k e. ground (arith, e, lookup-drop_departed k m.applied wanted m);
  }

  lookup-reconciled :
      (a : String)
      → length wanted ≤ max_clients
      → lookup a (apply_addrs (sort_addrs wanted) (drop_departed m.applied wanted m)).applied
        ≡ lookup a wanted
  lookup-reconciled a few =
      lookup-apply_addrs wanted (sort_addrs wanted) a (drop_departed m.applied wanted m)
        (sort_addrs_lem wanted d).0 (λ k e. sym (ap is_some ((sort_addrs_lem wanted d).1 k)) ∙ e)
        (dropped-Fits few)
      ∙ ground (arith, (sort_addrs_lem wanted d).1 a, lookup-drop_departed a m.applied wanted m)

or_teardown-applied :
    (a : String) (wanted : Dict String Client) (m : Manager)
    → lookup a m.applied ≡ lookup a wanted
    → lookup a (or_teardown wanted m).applied ≡ lookup a wanted
or_teardown-applied a [] m h = refl
or_teardown-applied a (w ∷ wanted) m h = h

-- From a coherent state, and with at most 254 addresses to shape, an address is applied after
-- Apply exactly if the clients name it with a limit, and then with the last client that does,
-- whatever was applied before.
pub lookup-apply_state :
    (ifaces : List String) (clients : List Client) (m : Manager) (a : String)
    → IsCoherent m
    → length (wanted_from clients []) ≤ max_clients
    → lookup a (apply_state ifaces clients m).applied ≡ last_shaped a clients none
unfolding apply_state
lookup-apply_state ifaces clients m a h few =
    or_teardown-applied a (wanted_from clients [])
      (record (apply_addrs (sort_addrs (wanted_from clients []))
        (drop_departed m.applied (wanted_from clients []) m)) { iface_set = set_of ifaces })
      (lookup-reconciled (wanted_from clients []) m h (wanted_from-IsDict clients [] tt) a few)
    ∙ (lookup-wanted_from a clients [] ∙ unfold lookup in refl)
