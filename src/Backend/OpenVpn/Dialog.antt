-- ===== src/Backend/OpenVpn/Dialog.antt =====
-- backend/openvpn/mgmt.go: the lines of one connection, from CONNECT to the END of its values.
use hpxnode.Prelude.{false, List, [], ◌∷◌, ◌++◌, none, some, String, string_eq, ◌==◌, ◌≡◌}
use hpxnode.Prelude.Dict.{Dict, insert}
use hpxnode.Backend.OpenVpn.Users.{try_connect}
use hpxnode.Backend.OpenVpn.Mgmt.{World, env_value, env, classify, cut, reply}

-- A line that gives a value to a name of the environment.
pub record EnvLine : Type 0 where
  pub text : String
  pub assignment : String
  pub name : String
  pub value : String

abbrev pub IsEnv : EnvLine → Type 0
IsEnv l =
    (classify l.text ≡ env l.assignment)
    × (((l.assignment == "END") ≡ false) × (cut b'=' l.assignment ≡ some (l.name, l.value)))

unfoldable pub values_of : List EnvLine → Dict String String → Dict String String
values_of [] values = values
values_of (l ∷ ls) values = values_of ls (insert l.name l.value values)

abbrev pub with_env : Dict String String → World → World
with_env values w = record w { mgmt = record w.mgmt { pending_env = some values } }

-- The answer to a connection with these values.
abbrev pub connected : String → String → Dict String String → World → World
connected cid kid values w =
    let result =
      try_connect w.store (env_value "common_name" values) (env_value "tls_serial_0" values) cid
        (env_value "username" values) (env_value "password" values) in
    record {
      mgmt = record w.mgmt {
        pending_cid = "";
        pending_kid = "";
        pending_env = none;
        pending_disconnect = false;
      };
      store = result.0;
      sent = w.sent ++ (reply cid kid result.1 ∷ []);
    }
