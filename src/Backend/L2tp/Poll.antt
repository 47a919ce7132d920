-- ===== src/Backend/L2tp/Poll.antt =====
-- backend/l2tp/stats.go: a poll of the sessions, which adds the growth of each interface's counters to
-- its user. The counters that the host shows are a parameter. Times are seconds.
use hpxnode.Prelude.{
  ℕ, List, [], ◌∷◌, ◌++◌, Option, none, some, String, string_eq, ◌==◌, if◌then◌else◌, is_some, ltb,
  length,
}
use hpxnode.Prelude.Int.{ℤ, pos, ltb_ℤ, add64, sub64}
use hpxnode.Prelude.Dict.{Dict, lookup, insert}
use hpxnode.Stats.Entry.{Sample}
use hpxnode.Stats.Tracker.{Tracker, update_stats_batch}
use hpxnode.Backend.Composite.{int_or_zero}
use hpxnode.Backend.L2tp.Users.{UserStore}
use hpxnode.Backend.L2tp.Sessions.{Session, enforce_device_limits}

-- The fields of the backend that a poll reads and writes.
pub record State : Type 0 where
  pub if_seen : Dict String (ℤ × ℤ)
  pub cum_rx : Dict String ℤ
  pub cum_tx : Dict String ℤ
  pub total_rx : ℤ
  pub total_tx : ℤ
  pub online_ips : Dict String (Dict String ℤ)

abbrev pub list_or_empty : Option (List Session) → List Session
list_or_empty none = []
list_or_empty (some ss) = ss

unfoldable pub group : List Session → Dict String (List Session) → Dict String (List Session)
group [] per_user = per_user
group (s ∷ ss) per_user =
    group ss (insert s.user (list_or_empty (lookup s.user per_user) ++ s ∷ []) per_user)

unfoldable pub present_of : List Session → Dict String (Unit {0}) → Dict String (Unit {0})
present_of [] present = present
present_of (s ∷ ss) present = present_of ss (insert s.ifname tt present)

abbrev pub pair_or_zero : Option (ℤ × ℤ) → ℤ × ℤ
pair_or_zero none = (pos 0, pos 0)
pair_or_zero (some p) = p

-- A counter below the last one is that of a new interface.
abbrev pub grown : ℤ → ℤ → ℤ
grown now last = if ltb_ℤ (sub64 now last) (pos 0) then now else sub64 now last

-- `m[k] += d`
abbrev pub add_to : String → ℤ → Dict String ℤ → Dict String ℤ
add_to key d m = insert key (add64 (int_or_zero (lookup key m)) d) m

pub record Growth : Type 0 where
  pub seen : Dict String (ℤ × ℤ)
  pub rx : Dict String ℤ
  pub tx : Dict String ℤ

abbrev pub measure : (String → ℤ × ℤ) → Session → Growth → Growth
measure iface_bytes s g =
    let bytes = iface_bytes s.ifname in
    let last = pair_or_zero (lookup s.ifname g.seen) in
    record {
      seen = insert s.ifname bytes g.seen;
      rx = add_to s.user (grown bytes.0 last.0) g.rx;
      tx = add_to s.user (grown bytes.1 last.1) g.tx;
    }

unfoldable pub measure_all : (String → ℤ × ℤ) → List Session → Growth → Growth
measure_all iface_bytes [] g = g
measure_all iface_bytes (s ∷ ss) g = measure_all iface_bytes ss (measure iface_bytes s g)

unfoldable pub forget : Dict String (Unit {0}) → Dict String (ℤ × ℤ) → Dict String (ℤ × ℤ)
forget present [] = []
forget present ((ifname, bytes) ∷ seen) =
    let rest = forget present seen in
    if is_some (lookup ifname present) then (ifname, bytes) ∷ rest else rest

abbrev pub address_of : Session → String
address_of s = if s.client_ip == "" then s.tunnel_ip else s.client_ip

-- The addresses, and the first of them.
unfoldable pub note_ips : ℤ → List Session → Dict String ℤ → String → Dict String ℤ × String
note_ips now [] ips endpoint = (ips, endpoint)
note_ips now (s ∷ ss) ips endpoint =
    if address_of s == ""
    then note_ips now ss ips endpoint
    else note_ips now ss (insert (address_of s) now ips)
        (if endpoint == "" then address_of s else endpoint)

abbrev pub credit : ℤ → Growth → String → List Session → State × List Sample → State × List Sample
credit now g user mine (o, samples) =
    let rx = int_or_zero (lookup user g.rx) in
    let tx = int_or_zero (lookup user g.tx) in
    let cum_rx = add_to user rx o.cum_rx in
    let cum_tx = add_to user tx o.cum_tx in
    let noted = note_ips now mine [] "" in
    (
      record o {
        cum_rx = cum_rx;
        cum_tx = cum_tx;
        total_rx = add64 o.total_rx rx;
        total_tx = add64 o.total_tx tx;
        online_ips = insert user noted.0 o.online_ips;
      },
      samples
          ++ record {
            public_key = user;
            email = user;
            rx = int_or_zero (lookup user cum_rx);
            tx = int_or_zero (lookup user cum_tx);
            endpoint_ip = noted.1;
          }
            ∷ [],
    )

unfoldable pub credit_all :
    ℤ → Growth → Dict String (List Session) → State × List Sample → State × List Sample
credit_all now g [] r = r
credit_all now g ((user, mine) ∷ per_user) r = credit_all now g per_user (credit now g user mine r)

-- The state after a poll, the samples for the traffic tracker, and the sessions that are ended.
unfoldable pub poll :
    ℤ → (String → ℤ × ℤ) → List Session → UserStore → State → State × List Sample × List Session
poll now iface_bytes ss store o =
    let per_user = group ss [] in
    let g = measure_all iface_bytes ss (record { seen = o.if_seen; rx = []; tx = [] }) in
    let seen = forget (present_of ss []) g.seen in
    let r = credit_all now g per_user (record o { if_seen = seen; online_ips = [] }, []) in
    (r.0, r.1, enforce_device_limits store per_user)

-- The tracker's part of a poll.
unfoldable pub report : ℕ → List Sample → Tracker → Tracker
report now samples t = if ltb 0 (length samples) then update_stats_batch t samples now else t
