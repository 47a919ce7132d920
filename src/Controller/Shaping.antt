-- ===== src/Controller/Shaping.antt =====
-- controller/shaper.go: the limits of every backend's clients reach the shaper.
use hpxnode.Prelude.{
  false, not, ◌&&◌, ◌++◌, ◌==◌, if◌then◌else◌, nat_eq, ◌∙◌, ap, Option-cases, inl, inr, ◌≤◌, List,
  [], ◌∷◌, Option, none, some, String, string_eq, length, ◌≡◌, refl,
}
use hpxnode.Prelude.Dict.{Dict, lookup, dict_values}
use hpxnode.Backend.Composite.{shaped_clients}
use hpxnode.Backend.RateLimit.Apply.{Client, Manager, new_manager, wanted_from}
use hpxnode.Backend.RateLimit.Reconcile.{IsCoherent, new_manager-IsCoherent}
use hpxnode.Backend.RateLimit.Exact.{lookup-apply_state, last_shaped}
use hpxnode.Backend.RateLimit.Marks.{max_clients}
use hpxnode.Controller.Types.{BackendKey}
use hpxnode.Controller.Answers.{refresh_shaping, shaped_or_idle}

-- The limits that a shaper has applied; none before there is one.
abbrev pub applied_by : Option Manager → Dict String Client
applied_by none = []
applied_by (some m) = m.applied

abbrev pub AreCoherent : Option Manager → Type 0
AreCoherent none = Unit
AreCoherent (some m) = IsCoherent m

first_pass :
    (ifaces : List String) (clients : List Client) (a : String)
    → length (wanted_from clients []) ≤ max_clients
    → lookup a (applied_by (shaped_or_idle ifaces clients)) ≡ last_shaped a clients none
unfolding lookup last_shaped
first_pass ifaces [] a few = refl
first_pass ifaces (c ∷ cs) a few =
    lookup-apply_state ifaces (c ∷ cs) new_manager a new_manager-IsCoherent few

-- The limited client that has the address, of the last backend with one; of two of one backend the
-- last one.
abbrev pub limited : String → List Client → Option Client → Option Client
limited a [] found = found
limited a (c ∷ cs) found =
    limited a cs (if c.address == a && not (nat_eq c.limit_kbps 0) then some c else found)

abbrev pub limited_by : String → Option (List Client) → Option Client → Option Client
limited_by a none found = found
limited_by a (some cs) found = limited a cs found

abbrev pub limited_on :
    {B : Type 0}
    → String
    → (B → Option (List Client))
    → Dict BackendKey B
    → Option Client
    → Option Client
limited_on a shaped [] found = found
limited_on a shaped ((key, b) ∷ backends) found =
    limited_on a shaped backends (limited_by a (shaped b) found)

last_shaped-limited :
    (a : String) (cs : List Client) (found : Option Client)
    → (a == "") ≡ false
    → last_shaped a cs found ≡ limited a cs found
unfolding last_shaped
last_shaped-limited a [] found named = refl
last_shaped-limited a (c ∷ cs) found named = rw named (
    last_shaped-limited a cs
      (if c.address == a && not (nat_eq c.limit_kbps 0) then some c else found) named)

last_shaped-append :
    (a : String) (cs ds : List Client) (found : Option Client)
    → last_shaped a (cs ++ ds) found ≡ last_shaped a ds (last_shaped a cs found)
unfolding last_shaped
last_shaped-append a [] ds found = refl
last_shaped-append a (c ∷ cs) ds found = last_shaped-append a cs ds _

module _ {B : Type 0} (shaped : B → Option (List Client)) (a : String)
    (named : (a == "") ≡ false) where
  shaped_clients-limited_on :
      (backends : Dict BackendKey B) (found : Option Client)
      → last_shaped a (shaped_clients shaped (dict_values backends)) found
        ≡ limited_on a shaped backends found
  unfolding shaped_clients last_shaped
  shaped_clients-limited_on [] found = refl
  shaped_clients-limited_on ((key, b) ∷ backends) found = elim (Option-cases (shaped b)) [
    | inl silent ↦ rw silent (shaped_clients-limited_on backends found)
    | inr (cs, says) ↦ rw says (
        last_shaped-append a cs (shaped_clients shaped (dict_values backends)) found
        ∙ (ap (last_shaped a (shaped_clients shaped (dict_values backends)))
              (last_shaped-limited a cs found named)
            ∙ shaped_clients-limited_on backends (limited a cs found)))
  ]

  -- After a pass with at most 254 addresses to shape, an address that is not empty is limited exactly
  -- if a client with a limit has it on some backend of the table, and then as the last such client
  -- of the last such backend says, whatever was limited before, and whether or not there was a
  -- shaper, which is coherent then.
  pub lookup-refresh_shaping :
      (ifaces : List String) (backends : Dict BackendKey B) (o : Option Manager)
      → AreCoherent o
      → length (wanted_from (shaped_clients shaped (dict_values backends)) []) ≤ max_clients
      → lookup a (applied_by (refresh_shaping shaped ifaces backends o))
        ≡ limited_on a shaped backends none
  unfolding refresh_shaping
  lookup-refresh_shaping ifaces backends none h few =
      first_pass ifaces (shaped_clients shaped (dict_values backends)) a few
      ∙ shaped_clients-limited_on backends none
  lookup-refresh_shaping ifaces backends (some m) h few =
      lookup-apply_state ifaces (shaped_clients shaped (dict_values backends)) m a h few
      ∙ shaped_clients-limited_on backends none
