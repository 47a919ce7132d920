-- ===== src/Backend/WireGuard/Sync/Desired.antt =====
-- backend/wireguard/user_common.go: from the panel's users to the peers that the interface is to
-- have. What the packages wgtypes and net do with keys and prefixes is the record Wire, a
-- parameter. The panel's messages hold no nil user. Log lines are left out.
use hpxnode.Prelude.{
  ℕ, Bool, true, false, not, ◌&&◌, ◌||◌, List, [], ◌∷◌, ◌++◌, Option, none, some, String, string_eq,
  ◌==◌, if◌then◌else◌, leb, nat_eq, length,
}
use hpxnode.Prelude.Dict.{Dict, elem, lookup, insert, dict_values}
use hpxnode.Prelude.Text.{codes, trim_space}
use hpxnode.Backend.OpenVpn.Users.{User, Wireguard}
use hpxnode.Backend.WireGuard.PeerStore.{IpNet}

-- wgtypes.Key.String, wgtypes.ParseKey, net.ParseCIDR, IPNet.Contains, IPMask.Size, IPNet.String.
pub record Wire (Key : Type 0) : Type 0 where
  pub key_string : Key → String
  pub parse_key : String → Option Key
  pub parse_cidr : List ℕ → Option IpNet
  pub contains : IpNet → List ℕ → Bool
  pub mask_size : List ℕ → ℕ
  pub net_string : IpNet → String

-- The fields of Config that the synchronization reads.
pub record Config (Key : Type 0) : Type 0 where
  pub interface_name : String
  pub address : List (List ℕ)
  pub proxy_field : String
  pub preshared_key : Option Key

pub record DesiredPeer (Key : Type 0) : Type 0 where
  pub email : String
  pub public_key : String
  pub parsed_key : Key
  pub allowed_ip_nets : List IpNet

pub data SyncError : Type 0 where
  duplicate_ip duplicate_key : String → String → String → SyncError
  owned_key : String → String → SyncError
  user_is_nil not_running apply_failed restart_failed : SyncError

pub data Outcome {ℓ} (A : Type ℓ) : Type ℓ where
  done : A → Outcome A
  failed : SyncError → Outcome A

abbrev pub and_then {ℓ κ} : {A : Type ℓ} {B : Type κ} → Outcome A → (A → Outcome B) → Outcome B
and_then (done a) f = f a
and_then (failed e) f = failed e

unfoldable pub user_wireguard_proxy : User → String → Option Wireguard
user_wireguard_proxy u field =
    if field == "wg_c" then u.wg_c else (if field == "amneziawg" then u.amneziawg else u.wireguard)

abbrev pub usable : Option Wireguard → Bool
usable none = false
usable (some p) = not (p.public_key == "") && not (nat_eq (length p.peer_ips) 0)

unfoldable pub last_by_email : List User → String → Dict String User → Dict String User
last_by_email [] field m = m
last_by_email (u ∷ us) field m =
    last_by_email us field (
      if u.email == "" || not (usable (user_wireguard_proxy u field))
      then m
      else insert u.email u m)

unfoldable pub normalize_users : List User → String → List User
normalize_users us field = dict_values (last_by_email us field [])

unfoldable pub should_include_user_in_interface : User → String → Bool
should_include_user_in_interface u name = elem name u.inbounds

-- The owner, when it is another one.
abbrev pub other_owner : String → Option String → Option String
other_owner email none = none
other_owner email (some owner) = if owner == email then none else some owner

module _ {Key : Type 0} (w : Wire Key) where
  abbrev pub with_network : Option IpNet → List IpNet → List IpNet
  with_network none out = out
  with_network (some net) out = net ∷ out

  unfoldable pub networks_of : List (List ℕ) → List IpNet
  networks_of [] = []
  networks_of (text ∷ texts) =
      let rest = networks_of texts in
      if nat_eq (length (trim_space text)) 0
      then rest
      else with_network (w.parse_cidr (trim_space text)) rest

  unfoldable pub interface_networks : Config Key → List IpNet
  interface_networks c = networks_of c.address

  unfoldable pub in_some_pool : IpNet → List IpNet → Bool
  in_some_pool net [] = false
  in_some_pool net (pool ∷ pools) =
      nat_eq (length net.ip) (length pool.ip)
        && (w.contains pool net.ip && leb (w.mask_size pool.mask) (w.mask_size net.mask))
      || in_some_pool net pools

  unfoldable pub peer_ip_allowed_on_interface : IpNet → List IpNet → Bool
  peer_ip_allowed_on_interface net [] = true
  peer_ip_allowed_on_interface net (pool ∷ pools) = in_some_pool net (pool ∷ pools)

  -- The prefixes claimed so far, by their text, and those of the user at hand.
  abbrev pub Claims : Type 0
  Claims = Dict String String × List IpNet

  abbrev pub Checked : Type 0
  Checked = Outcome (Dict String String × Option (List IpNet))

  abbrev pub claim_net : String → IpNet → Option String → Claims → (Claims → Checked) → Checked
  claim_net email net none (seen, nets) next =
      next (insert (w.net_string net) email seen, nets ++ net ∷ [])
  claim_net email net (some owner) (seen, nets) next =
      failed (duplicate_ip (w.net_string net) owner email)

  abbrev pub check_ip : List IpNet → String → Option IpNet → Claims → (Claims → Checked) → Checked
  check_ip pools email none (seen, nets) next = done (seen, none)
  check_ip pools email (some net) (seen, nets) next =
      if not (peer_ip_allowed_on_interface net pools)
      then next (seen, nets)
      else claim_net email net (other_owner email (lookup (w.net_string net) seen)) (seen, nets)
          next

  -- The loop over a user's addresses. It ends with none at an invalid one.
  unfoldable pub check_ips : List IpNet → String → List String → Claims → Checked
  check_ips pools email [] (seen, nets) = done (seen, some nets)
  check_ips pools email (text ∷ texts) st =
      check_ip pools email (w.parse_cidr (codes text)) st (check_ips pools email texts)

  abbrev pub email_of_desired : Option (DesiredPeer Key) → Option String
  email_of_desired none = none
  email_of_desired (some d) = some d.email

  abbrev pub Collected : Type 0
  Collected = Dict String String × Dict String (DesiredPeer Key)

  abbrev pub desired_of : User → String → Key → List IpNet → DesiredPeer Key
  desired_of u key parsed nets = record {
    email = u.email;
    public_key = key;
    parsed_key = parsed;
    allowed_ip_nets = nets;
  }

  abbrev pub claim_key :
      User → String → Key → List IpNet → Option String → Collected → Outcome Collected
  claim_key u key parsed nets none (seen, desired) =
      done (seen, insert key (desired_of u key parsed nets) desired)
  claim_key u key parsed nets (some owner) (seen, desired) =
      failed (duplicate_key key owner u.email)

  unfoldable pub place_peer :
      User
      → String
      → Key
      → Dict String (DesiredPeer Key)
      → Dict String String × Option (List IpNet)
      → Outcome Collected
  place_peer u key parsed desired (seen, none) = done (seen, desired)
  place_peer u key parsed desired (seen, some []) = done (seen, desired)
  place_peer u key parsed desired (seen, some (net ∷ nets)) =
      claim_key u key parsed (net ∷ nets)
        (other_owner u.email (email_of_desired (lookup key desired))) (seen, desired)

  abbrev pub collect_key :
      Config Key → User → Wireguard → Option Key → Collected → Outcome Collected
  collect_key c u p none st = done st
  collect_key c u p (some parsed) (seen, desired) =
      and_then (check_ips (interface_networks c) u.email p.peer_ips (seen, []))
        (place_peer u p.public_key parsed desired)

  unfoldable pub collect_proxy :
      Config Key → User → Option Wireguard → Collected → Outcome Collected
  collect_proxy c u none st = done st
  collect_proxy c u (some p) st = collect_key c u p (w.parse_key p.public_key) st

  unfoldable pub collect_user : Config Key → User → Collected → Outcome Collected
  collect_user c u st =
      if should_include_user_in_interface u c.interface_name
      then collect_proxy c u (user_wireguard_proxy u c.proxy_field) st
      else done st

  unfoldable pub collect_loop : Config Key → List User → Collected → Outcome Collected
  collect_loop c [] st = done st
  collect_loop c (u ∷ us) st = and_then (collect_user c u st) (collect_loop c us)

  unfoldable pub collect_desired_peers :
      Config Key → List User → Outcome (Dict String (DesiredPeer Key))
  collect_desired_peers c us = and_then (collect_loop c us ([], [])) (λ st. done st.1)
