-- ===== src/Backend/Xray/Tests.antt =====
-- backend/xray on inbounds with one or two users. The digest of a text is the text k16 or k32.
use hpxnode.Prelude.{
  true, false, List, [], ◌∷◌, none, some, String, string_eq, ◌==◌, if◌then◌else◌, nat_eq, ◌≡◌, refl,
}
use hpxnode.Prelude.Dict.{lookup, insert, delete}
use hpxnode.Prelude.Text.{contains, has_prefix}
use hpxnode.Backend.Xray.Accounts.{Codec, User, Proxies, ensure_base64_password, vless_account}
use hpxnode.Backend.Xray.Inbounds.{Inbound, shadowsocks, sync_users, update_users_in}
use hpxnode.Backend.Xray.Password.{HasLengths, ensure_base64_password-idempotent}
use hpxnode.Backend.Xray.OneByOne.{sync_each, lookup-sync_users}
use hpxnode.Backend.Xray.Batch.{lookup-update_users_in}
use hpxnode.Backend.Xray.Limits.{
  Limits, Host, remember_users, remember_each, enforce_ip_limits_once,
}
use hpxnode.Backend.Xray.Kicked.{IsKeyed, remember_users-IsKeyed, lookup-enforce_ip_limits_once}

abbrev codec : Codec
codec = record {
  parse_uuid = λ id. if id == "bad" then none else some id;
  decoded_len =
      λ text. if text == "k16" then some 16 else (if text == "k32" then some 32 else none);
  digest = λ n password. if nat_eq n 16 then "k16" else "k32";
}

codec-HasLengths : HasLengths codec
codec-HasLengths password = (refl, refl)

abbrev proxies : Proxies
proxies = record {
  vmess = none;
  vless = some (record { id = "u1"; flow = "" });
  trojan = none;
  shadowsocks = some (record { password = "secret"; method = "none" });
  hysteria = none;
  anytls = none;
  tuic = none;
  naive = none;
}

abbrev user : String → List String → User
user email inbounds = record { email = email; proxies = proxies; inbounds = inbounds; ip_limit = 2 }

abbrev inbound : Inbound
inbound = record {
  tag = "ss";
  protocol = shadowsocks;
  method = some "2022-blake3-aes-128-gcm";
  exclude = false;
  clients = ("bob", vless_account "bob" "u0" "") ∷ [];
}

abbrev ann_and_bob : List User
ann_and_bob = user "ann" ("ss" ∷ []) ∷ user "bob" [] ∷ []

ensure_base64_password-idempotent_example :
    ensure_base64_password codec
      (ensure_base64_password codec "secret" "2022-blake3-aes-128-gcm")
      "2022-blake3-aes-128-gcm"
    ≡ ensure_base64_password codec "secret" "2022-blake3-aes-128-gcm"
unfolding contains has_prefix
ensure_base64_password-idempotent_example =
    ensure_base64_password-idempotent codec "secret" "2022-blake3-aes-128-gcm" codec-HasLengths refl

lookup-sync_users_example :
    lookup "ann" (sync_users codec ann_and_bob inbound).clients
    ≡ lookup "ann" (sync_each codec ann_and_bob (record inbound { clients = [] })).clients
unfolding contains has_prefix
lookup-sync_users_example =
    lookup-sync_users codec inbound ann_and_bob "ann" codec-HasLengths (λ h. refl)
      (refl, (refl, tt))

lookup-update_users_in_example :
    lookup "bob" (update_users_in codec ann_and_bob inbound).clients
    ≡ lookup "bob" (sync_each codec ann_and_bob inbound).clients
unfolding contains has_prefix
lookup-update_users_in_example =
    lookup-update_users_in codec inbound ann_and_bob "bob" codec-HasLengths (λ h. refl)
      (refl, (refl, tt))

abbrev no_limits : Limits
no_limits = record { user_limits = []; user_by_email = []; kicked = []; log = [] }

abbrev limits : Limits
limits = remember_users ann_and_bob true no_limits

abbrev host : Host
host = record { syncs = λ u. true; online_ips = λ email. some 3 }

no_limits-IsKeyed : IsKeyed no_limits
unfolding lookup
no_limits-IsKeyed = (tt, λ name. tt)

lookup-enforce_ip_limits_once_example :
    lookup "ann" (enforce_ip_limits_once host 100 limits).kicked ≡ some 100
unfolding remember_users remember_each lookup insert delete
lookup-enforce_ip_limits_once_example =
    lookup-enforce_ip_limits_once host 100 limits "ann"
      (remember_users-IsKeyed ann_and_bob true no_limits no_limits-IsKeyed)
