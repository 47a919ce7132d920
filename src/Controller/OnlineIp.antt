-- ===== src/Controller/OnlineIp.antt =====
-- controller/controller.go: the entry of one address in the merged list of addresses.
use hpxnode.Prelude.{
  true, false, [], ◌∷◌, Option, none, some, String, string_eq, ◌==◌, if◌then◌else◌, Bool-cases, ◌≡◌,
  refl, sym, ◌∙◌, subst, inl, inr,
}
use text.Mathlib.TextEquality.{eq_iff}
use hpxnode.Prelude.Int.{ℤ, ltb_ℤ}
use hpxnode.Prelude.Dict.{Dict, lookup, insert, IsDict, lookup-insert, beq_refl}
use hpxnode.Backend.Composite.{Answer, err, nil, ok, int_or_zero}
use hpxnode.Controller.Answers.{IpList, merge_ips}

-- The time and the protocol of an address.
abbrev pub Seen : Type 0
Seen = Option (ℤ × String)

abbrev pub time_of : Seen → Option ℤ
time_of none = none
time_of (some (ts, proto)) = some ts

abbrev pub protocol_of : Seen → Option String
protocol_of none = none
protocol_of (some (ts, proto)) = some proto

-- A report counts when it is at least as late as the latest one.
abbrev pub later : String → Option ℤ → Seen → Seen
later proto none o = o
later proto (some ts) o = if ltb_ℤ ts (int_or_zero (time_of o)) then o else some (ts, proto)

abbrev pub report_of : {E : Type 0} → String → Answer E (Dict String ℤ) → Option ℤ
report_of ip (err e) = none
report_of ip nil = none
report_of ip (ok ips) = lookup ip ips

abbrev pub answer-IsDict : {E : Type 0} → Answer E (Dict String ℤ) → Type 0
answer-IsDict (err e) = Unit
answer-IsDict nil = Unit
answer-IsDict (ok ips) = IsDict ips

abbrev pub Matches : String → IpList → Seen → Type 0
Matches ip r o = (lookup ip r.ips ≡ time_of o) × (lookup ip r.ip_protocol ≡ protocol_of o)

-- One entry of a backend's answer.
abbrev merge_entry : String → String → ℤ → IpList → IpList
merge_entry proto j ts r =
    if ltb_ℤ ts (int_or_zero (lookup j r.ips))
    then r
    else record { ips = insert j ts r.ips; ip_protocol = insert j proto r.ip_protocol }

entry_same :
    (proto ip : String) (ts : ℤ) (r : IpList) (o : Seen)
    → Matches ip r o
    → Matches ip (merge_entry proto ip ts r) (later proto (some ts) o)
entry_same proto ip ts r o (time, protocol) =
    rw time
      (elim (ltb_ℤ ts (int_or_zero (time_of o)))
        as (λ b.
          Matches ip
            (if b
              then r
              else record { ips = insert ip ts r.ips; ip_protocol = insert ip proto r.ip_protocol })
            (if b then o else some (ts, proto))) [
              | true ↦ (time, protocol)
              | false ↦ (
                lookup-insert {V = ℤ} ip ip ts r.ips ∙ rw (beq_refl ip) refl,
                lookup-insert {V = String} ip ip proto r.ip_protocol ∙ rw (beq_refl ip) refl,
              )
            ])

entry_other :
    (proto j ip : String) (ts : ℤ) (r : IpList) (o : Seen)
    → (j == ip) ≡ false
    → Matches ip r o
    → Matches ip (merge_entry proto j ts r) o
entry_other proto j ip ts r o apart (time, protocol) =
    elim (ltb_ℤ ts (int_or_zero (lookup j r.ips)))
      as (λ b.
        Matches ip
          (if b
            then r
            else record { ips = insert j ts r.ips; ip_protocol = insert j proto r.ip_protocol })
          o) [
            | true ↦ (time, protocol)
            | false ↦ (
              lookup-insert {V = ℤ} j ip ts r.ips ∙ rw apart time,
              lookup-insert {V = String} j ip proto r.ip_protocol ∙ rw apart protocol,
            )
          ]

pub merge_ips-Matches :
    (proto ip : String) (m : Dict String ℤ) (r : IpList) (o : Seen)
    → IsDict m
    → Matches ip r o
    → Matches ip (merge_ips proto m r) (later proto (lookup ip m) o)
unfolding merge_ips lookup
merge_ips-Matches proto ip [] r o d h = h
merge_ips-Matches proto ip ((j, ts) ∷ m) r o (new, d) h = elim (Bool-cases (j == ip)) [
  | inl same ↦
      let is = (eq_iff j ip).0 same in
      let here = entry_same proto ip ts r o h in
      rw same (
        subst
          (λ t. Matches ip (merge_ips proto m (merge_entry proto t ts r)) (later proto (some ts) o))
          (sym is)
          (rw (subst (λ t. lookup t m ≡ none) is new) at (
            merge_ips-Matches proto ip m (merge_entry proto ip ts r) (later proto (some ts) o) d
              here)))
  | inr apart ↦ rw apart (
      merge_ips-Matches proto ip m (merge_entry proto j ts r) o d
        (entry_other proto j ip ts r o apart h))
]
