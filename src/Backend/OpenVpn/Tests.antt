-- ===== src/Backend/OpenVpn/Tests.antt =====
-- backend/openvpn at concrete inputs: a user with a limit of two devices, two endpoints, and the
-- lines of a connection.
use hpxnode.Prelude.{
  inl, inr, ◌≢◌, ap, map, arith, ℕ, nat_eq, map, List, true, not, ◌&&◌, [], ◌∷◌, none, some, String,
  string_eq, ◌≡◌, refl, inr, arith, ◌≤◌, ◌+◌, ◌-◌, ◌^◌, if◌then◌else◌,
}
use hpxnode.Prelude.Dict.{insert, lookup, elem}
use hpxnode.Backend.OpenVpn.Users.{
  User, UserStore, new_user_store, try_connect, allowed, device_limit_reached, live, ip_limit_of,
  authorized_locked,
}
use hpxnode.Backend.OpenVpn.Subnet.{
  Prefix, split_subnet, bits_needed, bits_len, block_start, masked,
}
use hpxnode.Prelude.Int.{ℤ, pos}
use hpxnode.Prelude.Text.{codes, to_lower, trim_space, trim_left}
use hpxnode.Backend.OpenVpn.Listeners.{Listener, Endpoints, accepted, codes_eq, normalize_listeners}
use hpxnode.Backend.OpenVpn.Endpoint.{completed, with_all, normalize_listeners_lem}
use hpxnode.Backend.OpenVpn.Blocks.{split_subnet-apart}
use hpxnode.Backend.OpenVpn.Sync.{replace_all, entry_of, has}
use hpxnode.Backend.OpenVpn.Serial.{serial_equal, set_string, digits_from, natural}
use hpxnode.Backend.OpenVpn.Excess.{try_connect-IsWithin, IsWithin}
use hpxnode.Backend.OpenVpn.Mgmt.{
  World, new_mgmt, client_auth_nt, run, handle_line, classify, after_prefix, cut, finish_connect,
}
use hpxnode.Backend.OpenVpn.Dialog.{EnvLine}
use hpxnode.Backend.OpenVpn.Group.{Try, fails, works, Event, begun, shut, new_backend, start_all}
use hpxnode.Backend.OpenVpn.AllOrNone.{IsWhole, new_backend-IsWhole}
use hpxnode.Backend.OpenVpn.Stream.{IsKept, run-IsKept}
use hpxnode.Backend.OpenVpn.Allowlist.{replace_all_lem, authorized-replace_all, last_wanted}
use hpxnode.Backend.OpenVpn.Invariant.{
  after_all, after_all-IsKnown, IsKnown, connecting, applying, replacing,
}

abbrev vpn_subnet : Prefix
vpn_subnet = record { addr = 0x0a080000; len = 16 }

split_subnet-apart_example : 0x0a080000 + 2 ^ (32 - 17) ≤ 0x0a088000
unfolding split_subnet bits_needed bits_len block_start masked
split_subnet-apart_example =
    split_subnet-apart vpn_subnet (record { addr = 0x0a080000; len = 17 })
      (record { addr = 0x0a088000; len = 17 }) 0 1 2 (omega arith) (omega arith) (omega arith)
      (omega arith) refl refl

-- A core with a UDP and a TCP endpoint, the second on the default port.
abbrev two_endpoints : Endpoints
two_endpoints = record {
  port = pos 1194;
  proto = codes "udp";
  listeners =
      record { port = pos 1195; proto = codes " UDP" }
      ∷ record { port = pos 0; proto = codes "tcp" }
      ∷ [];
}

udp_and_tcp :
    (p q : ℤ)
    → ◌≢◌ {A = Listener}
        (record { port = p; proto = codes "udp" })
        (record { port = q; proto = codes "tcp" })
unfolding codes_eq
udp_and_tcp p q e = absurd (cc (ap (λ (l : Listener). codes_eq l.proto (codes "udp")) e))

normalize_listeners_lem_example :
    normalize_listeners two_endpoints
    ≡ accepted (
        with_all
          (map (completed two_endpoints) (
            record { port = pos 1195; proto = codes " UDP" }
            ∷ record { port = pos 0; proto = codes "tcp" }
            ∷ []))
          two_endpoints)
unfolding to_lower trim_space trim_left
normalize_listeners_lem_example =
    (normalize_listeners_lem two_endpoints (record { port = pos 1195; proto = codes " UDP" })
        (record { port = pos 0; proto = codes "tcp" } ∷ []) refl).1
      (
        (
          ((omega arith, omega arith), inl refl),
          (((omega arith, omega arith), inr (inl refl)), tt),
        ),
        ((udp_and_tcp (pos 1195) two_endpoints.port, tt), (tt, tt)),
      )

abbrev ann : User
ann = record {
  email = "ann";
  openvpn = some (record { serial = "0a"; fingerprint = ""; username = "ann"; password = "pw" });
  wireguard = none;
  wg_c = none;
  amneziawg = none;
  ikev2 = none;
  pptp = none;
  inbounds = "ovpn" ∷ [];
  ip_limit = 2;
  speed_limit = 0;
}

abbrev three_sessions : UserStore
three_sessions = record {
  inbound_tag = "ovpn";
  users = ("ann", entry_of ann) ∷ [];
  sessions = ("ann", ("1", tt) ∷ ("2", tt) ∷ ("3", tt) ∷ []) ∷ [];
}

abbrev one_session : UserStore
one_session = record three_sessions { sessions = ("ann", ("1", tt) ∷ []) ∷ [] }

-- A pinned hexadecimal serial equals the decimal one that is presented.
serial_equal-hex : serial_equal "0a" "10" ≡ true
unfolding serial_equal set_string digits_from natural
serial_equal-hex = refl

try_connect-full : (try_connect three_sessions "ann" "10" "4" "ann" "pw").1 ≡ device_limit_reached
unfolding try_connect live ip_limit_of authorized_locked lookup entry_of serial_equal set_string
    digits_from natural
try_connect-full = refl

one_session-allowed : (try_connect one_session "ann" "10" "4" "ann" "pw").1 ≡ allowed
unfolding try_connect live ip_limit_of authorized_locked lookup entry_of serial_equal set_string
    digits_from natural
one_session-allowed = refl

try_connect-IsWithin_example : IsWithin (try_connect one_session "ann" "10" "4" "ann" "pw").0 "ann"
unfolding ip_limit_of lookup live entry_of
try_connect-IsWithin_example =
    try_connect-IsWithin one_session "ann" "10" "4" "ann" "pw" "ann" (omega arith)
      (inr (omega arith))

replace_all_lem_example :
    (lookup "ann" (replace_all three_sessions []).0.users
      ≡ last_wanted three_sessions "ann" [] none)
    × ((elem "ann" (replace_all three_sessions []).1
          ≡ (has three_sessions "ann" && not (has (replace_all three_sessions []).0 "ann")))
        × (lookup "ann" (replace_all three_sessions []).0.sessions ≡ (
            if has three_sessions "ann" && not (has (replace_all three_sessions []).0 "ann")
            then none
            else lookup "ann" three_sessions.sessions)))
replace_all_lem_example = replace_all_lem three_sessions [] "ann"

authorized-replace_all_example :
    authorized_locked (replace_all three_sessions (ann ∷ [])).0 "ann" "10" "ann" "pw"
    ≡ authorized_locked (replace_all three_sessions (ann ∷ [])).0 "ann" "10" "eve" "guess"
authorized-replace_all_example =
    authorized-replace_all three_sessions (ann ∷ []) "ann" "10" "ann" "pw" "eve" "guess"

after_all-IsKnown_example :
    IsKnown
      (after_all
        (new_user_store "ovpn")
        (applying ann ∷ connecting "ann" "10" "1" "ann" "pw" ∷ replacing [] ∷ []))
      "ann"
unfolding lookup
after_all-IsKnown_example =
    after_all-IsKnown (applying ann ∷ connecting "ann" "10" "1" "ann" "pw" ∷ replacing [] ∷ [])
      (new_user_store "ovpn") "ann" (λ h. absurd (cc h))

-- Ann connects, with a certificate and a password, and leaves again.
abbrev dialog : List String
dialog =
    ">CLIENT:CONNECT,4,1" ∷ ">CLIENT:ENV,common_name=ann" ∷ ">CLIENT:ENV,tls_serial_0=10"
    ∷ ">CLIENT:ENV,username=ann" ∷ ">CLIENT:ENV,password=pw" ∷ ">CLIENT:ENV,END" ∷ []

abbrev before_dialog : World
before_dialog = record { mgmt = new_mgmt; store = one_session; sent = [] }

dialog-sent : (run before_dialog dialog).sent ≡ client_auth_nt "4" "1" ∷ []
unfolding run handle_line classify after_prefix cut finish_connect try_connect live ip_limit_of
    authorized_locked lookup insert entry_of serial_equal set_string digits_from natural
dialog-sent = refl

run-IsKept_example : IsKept "ann" (run before_dialog dialog)
unfolding ip_limit_of lookup live entry_of
run-IsKept_example = run-IsKept dialog before_dialog "ann" (omega arith, inr (omega arith))

abbrev env_lines : List EnvLine
env_lines =
    record {
      text = ">CLIENT:ENV,common_name=ann";
      assignment = "common_name=ann";
      name = "common_name";
      value = "ann";
    }
    ∷ record {
      text = ">CLIENT:ENV,tls_serial_0=10";
      assignment = "tls_serial_0=10";
      name = "tls_serial_0";
      value = "10";
    }
    ∷ []

-- Two endpoints, of which the second cannot be bound.
abbrev bind_first : List (Event ℕ) → ℕ → Try String ℕ
bind_first log c = if nat_eq c 1194 then works c else fails "in use"

abbrev derive_port : ℕ → ℕ → ℕ → Try String ℕ
derive_port l i total = works l

new_backend-undone :
    new_backend derive_port bind_first 1194 (1194 ∷ 443 ∷ [])
    ≡ (begun 1194 ∷ shut 1194 ∷ [], fails "in use")
unfolding new_backend start_all
new_backend-undone = refl

new_backend-IsWhole_example : IsWhole 2 (new_backend derive_port bind_first 1194 (1194 ∷ 443 ∷ []))
new_backend-IsWhole_example = new_backend-IsWhole derive_port bind_first 1194 (1194 ∷ 443 ∷ [])
