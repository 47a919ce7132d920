-- ===== src/Controller/Types.antt =====
-- controller/controller.go: the types of backends, the keys of the table of backends, and what decides
-- on them. The environment and the JSON decoder are parameters.
use hpxnode.Prelude.{
  ℕ, Bool, true, false, ◌||◌, List, [], ◌∷◌, Option, none, some, String, string_eq, Eq, ◌==◌,
  if◌then◌else◌, decided, decided_iff,
}
use native.Mathlib.Decide.{ℕ_discrete}
use hpxnode.Prelude.Text.{codes, to_lower, trim_space}

-- The enum of the panel's messages, which a number outside it extends.
pub data BackendType : Type 0 where
  xray wireguard openvpn ikev2 l2tp pptp openconnect sstp wg_c amneziawg gre ssh mtproto :
      BackendType
  unknown : ℕ → BackendType

-- A running core of the table: its type, and the instance that its configuration names.
pub record BackendKey : Type 0 where
  pub typ : BackendType
  pub instance_id : List ℕ

unfoldable pub BackendType-discrete : Discrete BackendType
BackendType-discrete = hlevel (ℕ_discrete)

unfoldable pub BackendKey-discrete : Discrete BackendKey
BackendKey-discrete = hlevel (ℕ_discrete, BackendType-discrete)

unfoldable pub codes-discrete : Discrete (List ℕ)
codes-discrete = hlevel (ℕ_discrete)

instance abbrev pub code_list_eq : Eq (List ℕ)
code_list_eq = record {
  same = λ j k. decided (codes-discrete j k);
  same_iff = λ j k. decided_iff (codes-discrete j k);
}

instance abbrev pub backend_key_eq : Eq BackendKey
backend_key_eq = record {
  same = λ j k. decided (BackendKey-discrete j k);
  same_iff = λ j k. decided_iff (BackendKey-discrete j k);
}

-- HPX_NODE_DISABLE_*
unfoldable pub disable_names : BackendType → List String
disable_names xray = "HPX_NODE_DISABLE_XRAY" ∷ []
disable_names openvpn = "HPX_NODE_DISABLE_OPENVPN" ∷ []
disable_names wireguard = "HPX_NODE_DISABLE_WIREGUARD" ∷ "HPX_NODE_DISABLE_WG" ∷ []
disable_names ikev2 = "HPX_NODE_DISABLE_IKEV2" ∷ []
disable_names l2tp = "HPX_NODE_DISABLE_L2TP" ∷ []
disable_names pptp = "HPX_NODE_DISABLE_PPTP" ∷ []
disable_names openconnect = "HPX_NODE_DISABLE_OPENCONNECT" ∷ []
disable_names sstp = "HPX_NODE_DISABLE_SSTP" ∷ []
disable_names wg_c = "HPX_NODE_DISABLE_WG_C" ∷ "HPX_NODE_DISABLE_WGC" ∷ []
disable_names amneziawg = "HPX_NODE_DISABLE_AMNEZIAWG" ∷ []
disable_names gre = "HPX_NODE_DISABLE_GRE" ∷ []
disable_names ssh = "HPX_NODE_DISABLE_SSH" ∷ []
disable_names mtproto = "HPX_NODE_DISABLE_MTPROTO" ∷ []
disable_names (unknown n) = []

abbrev pub is_on : List ℕ → Bool
is_on v = v == codes "1" || (v == codes "true" || (v == codes "yes" || v == codes "on"))

unfoldable pub some_on : (String → List ℕ) → List String → Bool
some_on env [] = false
some_on env (n ∷ names) = if is_on (to_lower (trim_space (env n))) then true else some_on env names

unfoldable pub backend_disabled : (String → List ℕ) → BackendType → Bool
backend_disabled env t = some_on env (disable_names t)

-- Of the text of a configuration, the value of a field that holds a text; none when the
-- configuration does not parse.
abbrev pub FieldOf : Type 0
FieldOf = String → String → Option (List ℕ)

abbrev pub field_or_empty : Option (List ℕ) → List ℕ
field_or_empty none = []
field_or_empty (some v) = trim_space v

-- The field that names the instance.
unfoldable pub instance_field : BackendType → Option String
instance_field openvpn = some "inbound_tag"
instance_field ikev2 = some "inbound_tag"
instance_field l2tp = some "inbound_tag"
instance_field pptp = some "inbound_tag"
instance_field openconnect = some "inbound_tag"
instance_field sstp = some "inbound_tag"
instance_field gre = some "inbound_tag"
instance_field ssh = some "inbound_tag"
instance_field mtproto = some "inbound_tag"
instance_field wireguard = some "interface_name"
instance_field wg_c = some "interface_name"
instance_field amneziawg = some "interface_name"
instance_field xray = none
instance_field (unknown n) = none

abbrev pub instance_of : FieldOf → String → Option String → List ℕ
instance_of field_of config none = []
instance_of field_of config (some field) = field_or_empty (field_of config field)

unfoldable pub backend_instance_id : FieldOf → BackendType → String → List ℕ
backend_instance_id field_of t config = instance_of field_of config (instance_field t)

-- The String method of a number outside the enum is a parameter.
unfoldable pub backend_type_key : (ℕ → String) → BackendType → String
backend_type_key other xray = "xray"
backend_type_key other openvpn = "openvpn"
backend_type_key other wireguard = "wg"
backend_type_key other ikev2 = "ikev2"
backend_type_key other l2tp = "l2tp"
backend_type_key other pptp = "pptp"
backend_type_key other openconnect = "openconnect"
backend_type_key other sstp = "sstp"
backend_type_key other wg_c = "wg_c"
backend_type_key other amneziawg = "amneziawg"
backend_type_key other gre = "gre"
backend_type_key other ssh = "ssh"
backend_type_key other mtproto = "mtproto"
backend_type_key other (unknown n) = other n
