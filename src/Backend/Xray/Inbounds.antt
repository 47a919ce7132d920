-- ===== src/Backend/Xray/Inbounds.antt =====
-- backend/xray/config.go: the client lists of the inbounds, and isActiveInbound of user.go. The lock of
-- an inbound is held by each operation from end to end. Settings are read at "method" only.
use hpxnode.Prelude.{
  Bool, false, not, ◌&&◌, ◌||◌, List, [], ◌∷◌, Option, none, some, String, string_eq, ◌==◌,
  if◌then◌else◌,
}
use hpxnode.Prelude.Dict.{Dict, elem, insert, delete}
use hpxnode.Prelude.Text.{codes, has_prefix}
use hpxnode.Backend.Xray.Accounts.{
  Codec, Account, vmess_account, vless_account, trojan_account, shadowsocks_tcp_account,
  shadowsocks_account, hysteria_account, any_tls_account, tuic_account, naive_account, get_email,
  User, ProxySettings, setup_user_account, mapped, bound, check_shadowsocks2022, new_vmess_account,
  new_vless_account, new_tuic_account, new_shadowsocks_tcp_account, new_shadowsocks_account,
  new_naive_account, new_trojan_account, new_hysteria_account, new_any_tls_account,
}

pub data Protocol : Type 0 where
  vmess : Protocol
  vless : Protocol
  trojan : Protocol
  shadowsocks : Protocol
  hysteria : Protocol
  any_tls : Protocol
  tuic : Protocol
  naive : Protocol
  other : Protocol

-- A map that is nil has no entry.
pub record Inbound : Type 0 where
  pub tag : String
  pub protocol : Protocol
  pub method : Option String
  pub exclude : Bool
  pub clients : Dict String Account

abbrev pub is_2022 : Option String → Bool
is_2022 none = false
is_2022 (some method) = has_prefix (codes method) (codes "2022-blake3")

abbrev pub checked : Codec → Option String → Account → Account
checked c none a = a
checked c (some method) a = check_shadowsocks2022 c method a

-- The account that a protocol takes from the settings of a user.
abbrev pub account_for : Codec → Protocol → Option String → ProxySettings → Option Account
account_for c vmess method p = p.vmess
account_for c vless method p = p.vless
account_for c trojan method p = p.trojan
account_for c shadowsocks method p =
    if is_2022 method then mapped (checked c method) p.shadowsocks2022 else p.shadowsocks
account_for c hysteria method p = p.hysteria
account_for c any_tls method p = p.anytls
account_for c tuic method p = p.tuic
account_for c naive method p = p.naive
account_for c other method p = none

unfoldable pub is_active_inbound : Codec → Inbound → List String → ProxySettings → Option Account
is_active_inbound c i inbounds p =
    if elem i.tag inbounds then account_for c i.protocol i.method p else none

-- The account that a full synchronization makes of a user.
abbrev pub client_of : Codec → Protocol → Option String → User → Option Account
client_of c vmess method u = bound (new_vmess_account c u.email) u.proxies.vmess
client_of c vless method u = bound (new_vless_account c u.email) u.proxies.vless
client_of c trojan method u = mapped (new_trojan_account c u.email) u.proxies.trojan
client_of c shadowsocks method u =
    if is_2022 method
    then mapped (λ s. checked c method (new_shadowsocks_account c u.email s)) u.proxies.shadowsocks
    else mapped (new_shadowsocks_tcp_account c u.email) u.proxies.shadowsocks
client_of c hysteria method u = mapped (new_hysteria_account c u.email) u.proxies.hysteria
client_of c any_tls method u = mapped (new_any_tls_account c u.email) u.proxies.anytls
client_of c tuic method u = bound (new_tuic_account c u.email) u.proxies.tuic
client_of c naive method u = mapped (new_naive_account c u.email) u.proxies.naive
client_of c other method u = none

abbrev pub with_client : String → Option Account → Dict String Account → Dict String Account
with_client email none clients = clients
with_client email (some a) clients = insert email a clients

unfoldable pub sync_clients :
    Codec → Inbound → List User → Dict String Account → Dict String Account
sync_clients c i [] clients = clients
sync_clients c i (u ∷ us) clients = sync_clients c i us (
    with_client u.email (if elem i.tag u.inbounds then client_of c i.protocol i.method u else none)
      clients)

unfoldable pub sync_users : Codec → List User → Inbound → Inbound
sync_users c us i = record i { clients = sync_clients c i us [] }

abbrev pub updated : Codec → Option String → Account → Account
updated c method (shadowsocks_account email password) =
    checked c method (shadowsocks_account email password)
updated c method a = a

unfoldable pub update_user : Codec → Account → Inbound → Inbound
update_user c a i = record i { clients = insert (get_email a) (updated c i.method a) i.clients }

unfoldable pub remove_user : String → Inbound → Inbound
remove_user email i = record i { clients = delete email i.clients }

-- The account that a batch stores, if it is of the protocol's type.
abbrev pub accepted : Codec → Protocol → Option String → Account → Option Account
accepted c vmess method (vmess_account e id) = some (vmess_account e id)
accepted c vless method (vless_account e id flow) = some (vless_account e id flow)
accepted c trojan method (trojan_account e p) = some (trojan_account e p)
accepted c shadowsocks method (shadowsocks_account e p) =
    if is_2022 method then some (checked c method (shadowsocks_account e p)) else none
accepted c shadowsocks method (shadowsocks_tcp_account e p m) =
    if is_2022 method then none else some (shadowsocks_tcp_account e p m)
accepted c hysteria method (hysteria_account e auth) = some (hysteria_account e auth)
accepted c any_tls method (any_tls_account e p) = some (any_tls_account e p)
accepted c tuic method (tuic_account e id p) = some (tuic_account e id p)
accepted c naive method (naive_account e n p) = some (naive_account e n p)
accepted c protocol method a = none

unfoldable pub add_accounts :
    Codec → Inbound → List Account → Dict String Account → Dict String Account
add_accounts c i [] clients = clients
add_accounts c i (a ∷ accounts) clients =
    add_accounts c i accounts (with_client (get_email a) (accepted c i.protocol i.method a) clients)

unfoldable pub delete_emails : List String → Dict String Account → Dict String Account
delete_emails [] clients = clients
delete_emails (email ∷ emails) clients = delete_emails emails (delete email clients)

unfoldable pub update_users : Codec → List Account → List String → Inbound → Inbound
update_users c accounts removed i = record i {
  clients = delete_emails removed (add_accounts c i accounts i.clients);
}

-- What SyncUser does to the clients of one inbound.
abbrev pub set_user : Codec → Option Account → String → Inbound → Inbound
set_user c none email i = remove_user email i
set_user c (some a) email i = update_user c a i

unfoldable pub sync_user_in : Codec → User → Inbound → Inbound
sync_user_in c u i =
    set_user c (is_active_inbound c i u.inbounds (setup_user_account c u)) u.email i

-- The accounts and the emails of an inboundUpdate.
abbrev pub note_user :
    Option Account → String → List Account × List String → List Account × List String
note_user none email (accounts, removed) = (accounts, email ∷ removed)
note_user (some a) email (accounts, removed) = (a ∷ accounts, removed)

unfoldable pub build_update : Codec → Inbound → List User → List Account × List String
build_update c i [] = ([], [])
build_update c i (u ∷ us) =
    note_user (is_active_inbound c i u.inbounds (setup_user_account c u)) u.email
      (build_update c i us)

unfoldable pub update_users_in : Codec → List User → Inbound → Inbound
update_users_in c us i = let update = build_update c i us in update_users c update.0 update.1 i

-- Of two inbounds with one tag, the later one stands in the map of the tags.
unfoldable pub named_later : String → List Inbound → Bool
named_later tag [] = false
named_later tag (i ∷ is) = not i.exclude && i.tag == tag || named_later tag is

unfoldable pub config_sync_users : Codec → List User → List Inbound → List Inbound
config_sync_users c us [] = []
config_sync_users c us (i ∷ is) =
    (if i.exclude then i else sync_users c us i) ∷ config_sync_users c us is

unfoldable pub config_update_users : Codec → List User → List Inbound → List Inbound
config_update_users c us [] = []
config_update_users c us (i ∷ is) =
    (if i.exclude || named_later i.tag is then i else update_users_in c us i)
    ∷ config_update_users c us is
