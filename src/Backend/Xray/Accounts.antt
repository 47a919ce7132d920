-- ===== src/Backend/Xray/Accounts.antt =====
-- backend/xray/api/account.go, setupUserAccount and isActiveInbound of backend/xray/user.go, and
-- EnsureBase64Password of common/helper.go. The parser of UUIDs, base64 and SHA-256 stand outside the
-- repository and are parameters; a UUID is its text. The level of an account is always 0.
use hpxnode.Prelude.{
  ℕ, Bool, false, ◌&&◌, ◌||◌, List, [], ◌∷◌, Option, none, some, String, string_eq, if◌then◌else◌,
  nat_eq,
}
use hpxnode.Prelude.Dict.{elem}
use hpxnode.Prelude.Text.{codes, contains}

-- What the packages that stand outside do: a text as a UUID, the number of bytes that a text in base64
-- stands for, and the first bytes of the SHA-256 digest of a text, in base64.
pub record Codec : Type 0 where
  pub parse_uuid : String → Option String
  pub decoded_len : String → Option ℕ
  pub digest : ℕ → String → String

pub data Account : Type 0 where
  vmess_account : String → String → Account
  vless_account : String → String → String → Account
  trojan_account : String → String → Account
  shadowsocks_tcp_account : String → String → String → Account
  shadowsocks_account : String → String → Account
  hysteria_account : String → String → Account
  any_tls_account : String → String → Account
  tuic_account : String → String → String → Account
  naive_account : String → String → String → Account

abbrev pub get_email : Account → String
get_email (vmess_account email id) = email
get_email (vless_account email id flow) = email
get_email (trojan_account email password) = email
get_email (shadowsocks_tcp_account email password method) = email
get_email (shadowsocks_account email password) = email
get_email (hysteria_account email auth) = email
get_email (any_tls_account email password) = email
get_email (tuic_account email id password) = email
get_email (naive_account email username password) = email

pub record Vless : Type 0 where
  pub id : String
  pub flow : String

pub record Shadowsocks : Type 0 where
  pub password : String
  pub method : String

pub record Tuic : Type 0 where
  pub id : String
  pub password : String

pub record Naive : Type 0 where
  pub username : String
  pub password : String

-- The proxies of a user that the package reads.
pub record Proxies : Type 0 where
  pub vmess : Option String
  pub vless : Option Vless
  pub trojan : Option String
  pub shadowsocks : Option Shadowsocks
  pub hysteria : Option String
  pub anytls : Option String
  pub tuic : Option Tuic
  pub naive : Option Naive

pub record User : Type 0 where
  pub email : String
  pub proxies : Proxies
  pub inbounds : List String
  pub ip_limit : ℕ

abbrev pub cipher_types : List String
cipher_types =
    "aes-128-gcm" ∷ "aes-256-gcm" ∷ "chacha20-poly1305" ∷ "chacha20-ietf-poly1305"
    ∷ "xchacha20-poly1305" ∷ "xchacha20-ietf-poly1305" ∷ "none" ∷ []

abbrev pub tcp_method : String → String
tcp_method method = if elem method cipher_types then method else "none"

abbrev pub mapped : {A B : Type 0} → (A → B) → Option A → Option B
mapped f none = none
mapped f (some x) = some (f x)

abbrev pub bound : {A B : Type 0} → (A → Option B) → Option A → Option B
bound f none = none
bound f (some x) = f x

module _ (c : Codec) (email : String) where
  abbrev pub new_vmess_account : String → Option Account
  new_vmess_account id = mapped (vmess_account email) (c.parse_uuid id)

  abbrev pub new_vless_account : Vless → Option Account
  new_vless_account v = mapped (λ id. vless_account email id v.flow) (c.parse_uuid v.id)

  abbrev pub new_tuic_account : Tuic → Option Account
  new_tuic_account t = mapped (λ id. tuic_account email id t.password) (c.parse_uuid t.id)

  abbrev pub new_shadowsocks_tcp_account : Shadowsocks → Account
  new_shadowsocks_tcp_account s = shadowsocks_tcp_account email s.password (tcp_method s.method)

  abbrev pub new_shadowsocks_account : Shadowsocks → Account
  new_shadowsocks_account s = shadowsocks_account email s.password

  abbrev pub new_trojan_account : String → Account
  new_trojan_account password = trojan_account email password

  abbrev pub new_hysteria_account : String → Account
  new_hysteria_account auth = hysteria_account email auth

  abbrev pub new_any_tls_account : String → Account
  new_any_tls_account password = any_tls_account email password

  abbrev pub new_naive_account : Naive → Account
  new_naive_account n = naive_account email n.username n.password

pub record ProxySettings : Type 0 where
  pub vmess : Option Account
  pub vless : Option Account
  pub trojan : Option Account
  pub shadowsocks : Option Account
  pub shadowsocks2022 : Option Account
  pub hysteria : Option Account
  pub anytls : Option Account
  pub tuic : Option Account
  pub naive : Option Account

abbrev pub setup_user_account : Codec → User → ProxySettings
setup_user_account c u =
    let p = u.proxies in
    record {
      vmess = bound (new_vmess_account c u.email) p.vmess;
      vless = bound (new_vless_account c u.email) p.vless;
      trojan = mapped (new_trojan_account c u.email) p.trojan;
      shadowsocks = mapped (new_shadowsocks_tcp_account c u.email) p.shadowsocks;
      shadowsocks2022 = mapped (new_shadowsocks_account c u.email) p.shadowsocks;
      hysteria = mapped (new_hysteria_account c u.email) p.hysteria;
      anytls = mapped (new_any_tls_account c u.email) p.anytls;
      tuic = bound (new_tuic_account c u.email) p.tuic;
      naive = mapped (new_naive_account c u.email) p.naive;
    }

abbrev pub holds : String → String → Bool
holds part method = contains (codes method) (codes part)

abbrev pub fits : String → Option ℕ → Bool
fits method none = false
fits method (some n) =
    holds "aes-128-gcm" method && nat_eq n 16
    || (holds "aes-256-gcm" method || holds "chacha20-poly1305" method) && nat_eq n 32

unfoldable pub ensure_base64_password : Codec → String → String → String
ensure_base64_password c password method =
    if fits method (c.decoded_len password)
    then password
    else (if holds "aes-128-gcm" method then c.digest 16 password else c.digest 32 password)

-- The account is that of Shadowsocks 2022.
abbrev pub check_shadowsocks2022 : Codec → String → Account → Account
check_shadowsocks2022 c method (shadowsocks_account email password) =
    shadowsocks_account email (ensure_base64_password c password method)
check_shadowsocks2022 c method a = a
