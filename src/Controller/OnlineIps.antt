-- ===== src/Controller/OnlineIps.antt =====
-- controller/controller.go, UserOnlineIpList: which time and which protocol an address gets.
use hpxnode.Prelude.{
  ℕ, [], ◌∷◌, Option, none, some, String, string_eq, All, arith, Bool-cases, ◌≡◌, ◌⊎◌, refl, sym,
  ap, ◌∙◌, subst, inl, inr,
}
use mathlib.Core.Option.{some-injective}
use hpxnode.Prelude.Int.{ℤ, pos, ltb_ℤ, ◌≤ℤ◌}
use hpxnode.Prelude.Dict.{Dict, lookup}
use hpxnode.Backend.Composite.{Answer, err, nil, ok, int_or_zero}
use hpxnode.Controller.Types.{BackendKey, backend_type_key}
use hpxnode.Controller.Node.{Controller}
use hpxnode.Controller.Answers.{IpList, merge_list, merge_backends, user_online_ip_list}
use hpxnode.Controller.OnlineIp.{
  Seen, time_of, protocol_of, later, report_of, answer-IsDict, Matches, merge_ips-Matches,
}

module _ {B E : Type 0} (other : ℕ → String) (ask : B → Answer E (Dict String ℤ))
    (ip : String) where
  -- The reports of the backends on one address, one after the other.
  unfoldable pub latest : Dict BackendKey B → Seen → Seen
  latest [] o = o
  latest ((key, b) ∷ backends) o =
      latest backends (later (backend_type_key other key.typ) (report_of ip (ask b)) o)

  merge_list-Matches :
      (proto : String) (a : Answer E (Dict String ℤ)) (r : IpList) (o : Seen)
      → answer-IsDict a
      → Matches ip r o
      → Matches ip (merge_list proto a r) (later proto (report_of ip a) o)
  merge_list-Matches proto (err e) r o d h = h
  merge_list-Matches proto nil r o d h = h
  merge_list-Matches proto (ok m) r o d h = merge_ips-Matches proto ip m r o d h

  merge_backends-Matches :
      (backends : Dict BackendKey B) (r : IpList) (o : Seen)
      → All (λ kb. answer-IsDict (ask kb.1)) backends
      → Matches ip r o
      → Matches ip (merge_backends other ask backends r) (latest backends o)
  unfolding merge_backends latest
  merge_backends-Matches [] r o d h = h
  merge_backends-Matches ((key, b) ∷ backends) r o (first, rest) h =
      merge_backends-Matches backends (merge_list (backend_type_key other key.typ) (ask b) r)
        (later (backend_type_key other key.typ) (report_of ip (ask b)) o) rest
        (merge_list-Matches (backend_type_key other key.typ) (ask b) r o first h)

  -- Some backend of the table reported this time, under its protocol.
  abbrev pub IsReported : Dict BackendKey B → ℤ → String → Type 0
  IsReported [] ts proto = ⊥
  IsReported ((key, b) ∷ backends) ts proto =
      ((report_of ip (ask b) ≡ some ts) × (backend_type_key other key.typ ≡ proto))
      ⊎ IsReported backends ts proto

  -- No backend reported a later time.
  abbrev pub IsLatest : Dict BackendKey B → ℤ → Type 0
  IsLatest backends ts = All (λ kb. int_or_zero (report_of ip (ask kb.1)) ≤ℤ ts) backends

  later-grows :
      (proto : String) (t : Option ℤ) (o : Seen)
      → int_or_zero (time_of o) ≤ℤ int_or_zero (time_of (later proto t o))
  later-grows proto none o = omega arith
  later-grows proto (some ts) o = elim (Bool-cases (ltb_ℤ ts (int_or_zero (time_of o)))) [
    | inl less ↦ rw less (omega arith)
    | inr not_less ↦ rw not_less (ground (arith, not_less))
  ]

  later-reached :
      (proto : String) (t : Option ℤ) (o : Seen)
      → pos 0 ≤ℤ int_or_zero (time_of o)
      → int_or_zero t ≤ℤ int_or_zero (time_of (later proto t o))
  later-reached proto none o h = h
  later-reached proto (some ts) o h = elim (Bool-cases (ltb_ℤ ts (int_or_zero (time_of o)))) [
    | inl less ↦ rw less (ground (arith, less))
    | inr not_less ↦ rw not_less (omega arith)
  ]

  latest-grows :
      (backends : Dict BackendKey B) (o : Seen)
      → int_or_zero (time_of o) ≤ℤ int_or_zero (time_of (latest backends o))
  unfolding latest
  latest-grows [] o = omega arith
  latest-grows ((key, b) ∷ backends) o =
      let proto = backend_type_key other key.typ in
      omega (
        arith,
        later-grows proto (report_of ip (ask b)) o,
        latest-grows backends (later proto (report_of ip (ask b)) o),
      )

  latest-IsLatest :
      (backends : Dict BackendKey B) (o : Seen)
      → pos 0 ≤ℤ int_or_zero (time_of o)
      → IsLatest backends (int_or_zero (time_of (latest backends o)))
  unfolding latest
  latest-IsLatest [] o h = tt
  latest-IsLatest ((key, b) ∷ backends) o h =
      let proto = backend_type_key other key.typ in
      let next = later proto (report_of ip (ask b)) o in
      (
        omega (arith, later-reached proto (report_of ip (ask b)) o h, latest-grows backends next),
        latest-IsLatest backends next
            (omega (arith, h, later-grows proto (report_of ip (ask b)) o)),
      )

  later-from :
      (proto : String) (t : Option ℤ) (o : Seen)
      → (later proto t o ≡ o) ⊎ ((ts : ℤ) × (t ≡ some ts) × (later proto t o ≡ some (ts, proto)))
  later-from proto none o = inl refl
  later-from proto (some ts) o = elim (Bool-cases (ltb_ℤ ts (int_or_zero (time_of o)))) [
    | inl less ↦ inl (rw less refl)
    | inr not_less ↦ inr (ts, refl, rw not_less refl)
  ]

  latest-IsReported :
      (backends : Dict BackendKey B) (o : Seen) (ts : ℤ) (proto : String)
      → latest backends o ≡ some (ts, proto)
      → IsReported backends ts proto ⊎ (o ≡ some (ts, proto))
  unfolding latest
  latest-IsReported [] o ts proto h = inr h
  latest-IsReported ((key, b) ∷ backends) o ts proto h =
      let name = backend_type_key other key.typ in
      elim (latest-IsReported backends (later name (report_of ip (ask b)) o) ts proto h) [
        | inl found ↦ inl (inr found)
        | inr here ↦ elim (later-from name (report_of ip (ask b)) o) [
          | inl same ↦ inr (sym same ∙ here)
          | inr (x, is, new) ↦
              let both = some-injective (x, name) (ts, proto) (sym new ∙ here) in
              inl (inl (is ∙ ap (λ p. some p.0) both, ap (λ p. p.1) both))
        ]
      ]

  -- No backend reported a later time for an address than the list gives, where an address that is
  -- not there counts as the time 0.
  pub user_online_ip_list-IsLatest :
      (s : Controller B)
      → All (λ kb. answer-IsDict (ask kb.1)) s.backends
      → IsLatest s.backends (int_or_zero (lookup ip (user_online_ip_list other ask s).ips))
  unfolding user_online_ip_list lookup
  user_online_ip_list-IsLatest s d =
      subst (λ t. IsLatest s.backends (int_or_zero t))
        (sym
          (merge_backends-Matches s.backends (record { ips = []; ip_protocol = [] }) none d
            (refl, refl)).0)
        (latest-IsLatest s.backends none (omega arith))

  protocol_found :
      (o : Seen) (ts : ℤ)
      → time_of o ≡ some ts
      → (proto : String) × (protocol_of o ≡ some proto) × (o ≡ some (ts, proto))
  protocol_found none ts h = absurd (cc h)
  protocol_found (some (t, proto)) ts h =
      (proto, refl, ap (λ x. some (x, proto)) (some-injective t ts h))

  -- An address of the list stands with a time that some backend reported for it, and with the
  -- protocol of that backend.
  pub user_online_ip_list-IsReported :
      (s : Controller B) (ts : ℤ)
      → All (λ kb. answer-IsDict (ask kb.1)) s.backends
      → lookup ip (user_online_ip_list other ask s).ips ≡ some ts
      → (proto : String) × (lookup ip (user_online_ip_list other ask s).ip_protocol ≡ some proto)
        × IsReported s.backends ts proto
  unfolding user_online_ip_list lookup
  user_online_ip_list-IsReported s ts d found =
      let start : IpList = record { ips = []; ip_protocol = [] } in
      let (time, protocol) = merge_backends-Matches s.backends start none d (refl, refl) in
      let (proto, is, all) = protocol_found (latest s.backends none) ts (sym time ∙ found) in
      (
        proto,
        protocol ∙ is,
        elim (latest-IsReported s.backends none ts proto all) [
          | inl reported ↦ reported
          | inr start_none ↦ absurd (cc start_none)
        ],
      )
