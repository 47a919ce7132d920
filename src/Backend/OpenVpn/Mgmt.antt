-- ===== src/Backend/OpenVpn/Mgmt.antt =====
-- backend/openvpn/mgmt.go: what the client of the management interface makes of each line. The
-- decider is the user store. Log lines, the socket and the channel statusReady are left out; the
-- commands that are sent are a list in their order.
use Prim.Native.Char.{code}
use hpxnode.Prelude.{
  ℕ, Bool, true, false, List, [], ◌∷◌, ◌++◌, Option, none, some, String, string_eq, ◌==◌,
  if◌then◌else◌, nat_eq, leb,
}
use hpxnode.Prelude.Int.{ℤ, pos, negsuc}
use hpxnode.Prelude.Text.{codes}
use hpxnode.Prelude.Dict.{Dict, lookup, insert}
use hpxnode.Backend.OpenVpn.Serial.{set_string}
use hpxnode.Backend.OpenVpn.Users.{
  UserStore, Verdict, allowed, unauthorized, device_limit_reached, try_connect, release_session,
}

-- strings.HasPrefix with strings.TrimPrefix: what follows the prefix, if it is there.
unfoldable pub after_prefix : String → String → Option String
after_prefix String.[] line = some line
after_prefix (String.◌∷◌ p ps) String.[] = none
after_prefix (String.◌∷◌ p ps) (String.◌∷◌ c line) =
    let rest = after_prefix ps line in if nat_eq (code p) (code c) then rest else none

-- strings.Cut and strings.SplitN into two, at one character.
unfoldable pub cut : ℕ → String → Option (String × String)
cut sep String.[] = none
cut sep (String.◌∷◌ c s) =
    let rest = cut sep s in
    if nat_eq (code c) sep
    then some ("", s)
    else elim rest [ none ↦ none | some (before, after) ↦ some (String.◌∷◌ c before, after) ]

-- strings.Split at one character.
unfoldable pub split : ℕ → String → List String
split sep String.[] = "" ∷ []
split sep (String.◌∷◌ c s) =
    let rest = split sep s in
    if nat_eq (code c) sep then "" ∷ rest else elim rest [ [] ↦ [] | f ∷ fs ↦ String.◌∷◌ c f ∷ fs ]

pub record ClientStatus : Type 0 where
  pub common_name : String
  pub real_address : String
  pub virtual_addr : String
  pub bytes_received : ℤ
  pub bytes_sent : ℤ
  pub client_id : String

-- strconv.ParseInt in base 10 for 64 bits, whose error is not read: 0 for what is no number, and
-- the nearest int64 for a number out of range.
unfoldable pub parse_int : Option ℤ → ℤ
parse_int none = pos 0
parse_int (some (pos n)) = if leb n 0x7fffffffffffffff then pos n else pos 0x7fffffffffffffff
parse_int (some (negsuc n)) =
    if leb n 0x7fffffffffffffff then negsuc n else negsuc 0x7fffffffffffffff

-- The row of the fields of a CLIENT_LIST line; fewer than 11 are no row.
abbrev pub row_of : List String → Option ClientStatus
row_of (f0 ∷ f1 ∷ f2 ∷ f3 ∷ f4 ∷ f5 ∷ f6 ∷ f7 ∷ f8 ∷ f9 ∷ f10 ∷ fs) = some (record {
  common_name = f1;
  real_address = f2;
  virtual_addr = f3;
  bytes_received = parse_int (set_string 10 (codes f5));
  bytes_sent = parse_int (set_string 10 (codes f6));
  client_id = f10;
})
row_of _ = none

abbrev pub row_after : String → Option String → Option ClientStatus
row_after line none = none
row_after line (some rest) = row_of (split 9 line)

unfoldable pub parse_status_line : String → Option ClientStatus
parse_status_line line = row_after line (after_prefix "CLIENT_LIST\t" line)

pub data Sent : Type 0 where
  client_auth_nt : String → String → Sent
  client_deny : String → String → Verdict → Sent

pub record Mgmt : Type 0 where
  pub pending_cid : String
  pub pending_kid : String
  pub pending_env : Option (Dict String String)
  pub pending_disconnect : Bool
  pub status_buf : List ClientStatus
  pub last_status : List ClientStatus

abbrev pub new_mgmt : Mgmt
new_mgmt = record {
  pending_cid = "";
  pending_kid = "";
  pending_env = none;
  pending_disconnect = false;
  status_buf = [];
  last_status = [];
}

-- The client, the store that it consults, and what it sent.
pub record World : Type 0 where
  pub mgmt : Mgmt
  pub store : UserStore
  pub sent : List Sent

abbrev pub text_or_empty : Option String → String
text_or_empty none = ""
text_or_empty (some s) = s

abbrev pub env_value : String → Dict String String → String
env_value k env = text_or_empty (lookup k env)

abbrev pub reply : String → String → Verdict → Sent
reply cid kid allowed = client_auth_nt cid kid
reply cid kid unauthorized = client_deny cid kid unauthorized
reply cid kid device_limit_reached = client_deny cid kid device_limit_reached

abbrev pub cleared : Mgmt → Mgmt
cleared m = record m { pending_cid = ""; pending_kid = ""; pending_env = none }

abbrev pub finish_connect_with : Option (Dict String String) → World → World
finish_connect_with none w = record w { mgmt = cleared w.mgmt }
finish_connect_with (some env) w =
    if w.mgmt.pending_cid == ""
    then record w { mgmt = cleared w.mgmt }
    else (let result =
          try_connect w.store (env_value "common_name" env) (env_value "tls_serial_0" env)
            w.mgmt.pending_cid (env_value "username" env) (env_value "password" env) in
        record {
          mgmt = cleared w.mgmt;
          store = result.0;
          sent = w.sent ++ (reply w.mgmt.pending_cid w.mgmt.pending_kid result.1 ∷ []);
        })

unfoldable pub finish_connect : World → World
finish_connect w = finish_connect_with w.mgmt.pending_env w

abbrev pub finish_disconnect_with : Option (Dict String String) → World → World
finish_disconnect_with none w = record w {
  mgmt = record (cleared w.mgmt) { pending_disconnect = false };
}
finish_disconnect_with (some env) w = record w {
  mgmt = record (cleared w.mgmt) { pending_disconnect = false };
  store =
      if w.mgmt.pending_cid == ""
      then w.store
      else release_session w.store (env_value "common_name" env) w.mgmt.pending_cid;
}

unfoldable pub finish_disconnect : World → World
finish_disconnect w = finish_disconnect_with w.mgmt.pending_env w

-- The kinds of lines, with what follows the prefix.
pub data Line : Type 0 where
  connect disconnect env client_list : String → Line
  end_of_list other : Line

abbrev pub or_line : Option String → (String → Line) → Line → Line
or_line none kind next = next
or_line (some rest) kind next = kind rest

unfoldable pub classify : String → Line
classify line = or_line (after_prefix ">CLIENT:CONNECT," line) connect (
    or_line (after_prefix ">CLIENT:REAUTH," line) connect (
      or_line (after_prefix ">CLIENT:DISCONNECT," line) disconnect (
        or_line (after_prefix ">CLIENT:ENV," line) env (
          or_line (after_prefix "CLIENT_LIST\t" line) client_list
            (if line == "END" then end_of_list else other)))))

-- The parts before and after the first comma.
abbrev pub parts_or : String → Option (String × String) → String × String
parts_or rest none = (rest, "")
parts_or rest (some parts) = parts

abbrev pub store_env :
    Option (String × String) → Option (Dict String String) → Option (Dict String String)
store_env none pending = pending
store_env (some (k, v)) none = none
store_env (some (k, v)) (some pending) = some (insert k v pending)

abbrev pub add_row : Option ClientStatus → Mgmt → Mgmt
add_row none m = m
add_row (some row) m = record m { status_buf = m.status_buf ++ (row ∷ []) }

abbrev pub handle : String → Line → World → World
handle line (connect rest) w =
    let parts = parts_or rest (cut b',' rest) in
    record w {
      mgmt = record w.mgmt {
        pending_cid = parts.0;
        pending_kid = parts.1;
        pending_disconnect = false;
        pending_env = some [];
      };
    }
handle line (disconnect rest) w = record w {
  mgmt = record w.mgmt {
    pending_cid = (parts_or rest (cut b',' rest)).0;
    pending_kid = "";
    pending_disconnect = true;
    pending_env = some [];
  };
}
handle line (env e) w =
    if e == "END"
    then (if w.mgmt.pending_disconnect then finish_disconnect w else finish_connect w)
    else record w {
      mgmt = record w.mgmt { pending_env = store_env (cut b'=' e) w.mgmt.pending_env };
    }
handle line (client_list rest) w = record w { mgmt = add_row (parse_status_line line) w.mgmt }
handle line end_of_list w = record w {
  mgmt = record w.mgmt { last_status = w.mgmt.status_buf; status_buf = [] };
}
handle line other w = w

unfoldable pub handle_line : World → String → World
handle_line w line = handle line (classify line) w

unfoldable pub run : World → List String → World
run w [] = w
run w (line ∷ lines) = run (handle_line w line) lines
