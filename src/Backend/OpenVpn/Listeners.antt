-- ===== src/Backend/OpenVpn/Listeners.antt =====
-- backend/openvpn/config.go: the endpoints of a core, with their defaults and checks. A protocol is
-- the list of its characters. The text `proto/port` that finds duplicates is the pair of both: no
-- protocol that reaches it has a slash.
use hpxnode.Prelude.{ℕ, Bool, true, false, not, ◌&&◌, ◌||◌, List, [], ◌∷◌, if◌then◌else◌, nat_eq}
use hpxnode.Prelude.Int.{ℤ, pos, ltb_ℤ, eq_ℤ}
use hpxnode.Prelude.Text.{codes, to_lower, trim_space}

pub record Listener : Type 0 where
  pub port : ℤ
  pub proto : List ℕ

pub record Endpoints : Type 0 where
  pub port : ℤ
  pub proto : List ℕ
  pub listeners : List Listener

pub data Refusal : Type 0 where
  port_out_of_range : ℤ → Refusal
  unknown_proto : List ℕ → Refusal
  duplicate_listener : Listener → Refusal

pub data Checked (A : Type 0) : Type 0 where
  refused : Refusal → Checked A
  accepted : A → Checked A

unfoldable pub codes_eq : List ℕ → List ℕ → Bool
codes_eq [] [] = true
codes_eq [] (d ∷ t) = false
codes_eq (c ∷ s) [] = false
codes_eq (c ∷ s) (d ∷ t) = nat_eq c d && codes_eq s t

unfoldable pub allowed_proto : List ℕ → Bool
allowed_proto p =
    codes_eq p (codes "udp")
    || (codes_eq p (codes "tcp")
        || (codes_eq p (codes "udp4")
            || (codes_eq p (codes "udp6")
                || (codes_eq p (codes "tcp4") || codes_eq p (codes "tcp6")))))

abbrev pub port_or : ℤ → ℤ → ℤ
port_or default port = if eq_ℤ port (pos 0) then default else port

abbrev pub proto_or : List ℕ → List ℕ → List ℕ
proto_or default [] = default
proto_or default (c ∷ s) = c ∷ s

-- The listener with its port and protocol filled in.
unfoldable pub filled : Endpoints → Listener → Listener
filled c l = record {
  port = port_or c.port l.port;
  proto = proto_or c.proto (to_lower (trim_space l.proto));
}

unfoldable pub same_endpoint : Listener → Listener → Bool
same_endpoint l k = codes_eq l.proto k.proto && eq_ℤ l.port k.port

unfoldable pub seen_before : Listener → List Listener → Bool
seen_before l [] = false
seen_before l (k ∷ seen) = same_endpoint l k || seen_before l seen

unfoldable pub bad_port : ℤ → Bool
bad_port p = not (ltb_ℤ (pos 0) p) || ltb_ℤ (pos 65535) p

abbrev pub then_cons : Listener → Checked (List Listener) → Checked (List Listener)
then_cons l (refused e) = refused e
then_cons l (accepted ls) = accepted (l ∷ ls)

unfoldable pub check_listeners : Endpoints → List Listener → List Listener → Checked (List Listener)
check_listeners c seen [] = accepted []
check_listeners c seen (l ∷ ls) =
    let next = filled c l in
    let rest = check_listeners c (next ∷ seen) ls in
    if bad_port next.port
    then refused (port_out_of_range next.port)
    else (if not (allowed_proto next.proto)
        then refused (unknown_proto next.proto)
        else (if seen_before next seen
            then refused (duplicate_listener next)
            else then_cons next rest))

abbrev pub in_sync : Endpoints → Checked (List Listener) → Checked Endpoints
in_sync c (refused e) = refused e
in_sync c (accepted []) = accepted (record c { listeners = [] })
in_sync c (accepted (l ∷ ls)) =
    accepted (record { port = l.port; proto = l.proto; listeners = l ∷ ls })

unfoldable pub normalize_from : Endpoints → List Listener → Checked Endpoints
normalize_from c [] =
    accepted (record c { listeners = record { port = c.port; proto = c.proto } ∷ [] })
normalize_from c (l ∷ ls) = in_sync c (check_listeners c [] (l ∷ ls))

unfoldable pub normalize_listeners : Endpoints → Checked Endpoints
normalize_listeners c = normalize_from c c.listeners
