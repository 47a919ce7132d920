-- ===== src/Controller/Answers.antt =====
-- controller/controller.go and shaper.go: what the node answers about itself and its backends, and the
-- limits that it hands to the shaper. The calls of a backend are parameters.
use hpxnode.Prelude.{
  ℕ, Bool, false, not, ◌&&◌, List, [], ◌∷◌, ◌++◌, Option, none, some, String, string_eq,
  if◌then◌else◌, nat_eq, length,
}
use hpxnode.Prelude.Int.{ℤ, ltb_ℤ}
use hpxnode.Prelude.Dict.{Dict, lookup, insert, dict_values}
use hpxnode.Prelude.Text.{codes, trim_space}
use hpxnode.Backend.Composite.{
  Answer, err, nil, ok, SysStats, int_or_zero, get_sys_stats, get_merged, shaped_clients, started,
}
use hpxnode.Backend.RateLimit.Apply.{Client, Manager, new_manager, apply_state}
use hpxnode.Controller.Types.{
  BackendType, xray, openvpn, wireguard, ikev2, l2tp, pptp, openconnect, sstp, wg_c, amneziawg, gre,
  ssh, mtproto, BackendKey, backend_disabled, backend_type_key,
}
use hpxnode.Controller.Node.{Controller, backend}

-- StatsOnlineIpListResponse
pub record IpList : Type 0 where
  pub ips : Dict String ℤ
  pub ip_protocol : Dict String String

unfoldable pub merge_ips : String → Dict String ℤ → IpList → IpList
merge_ips proto [] r = r
merge_ips proto ((ip, ts) ∷ ips) r = merge_ips proto ips (
    if ltb_ℤ ts (int_or_zero (lookup ip r.ips))
    then r
    else record { ips = insert ip ts r.ips; ip_protocol = insert ip proto r.ip_protocol })

abbrev pub merge_list : {E : Type 0} → String → Answer E (Dict String ℤ) → IpList → IpList
merge_list proto (err e) r = r
merge_list proto nil r = r
merge_list proto (ok ips) r = merge_ips proto ips r

module _ {B E : Type 0} where
  unfoldable pub merge_backends :
      (ℕ → String) → (B → Answer E (Dict String ℤ)) → Dict BackendKey B → IpList → IpList
  merge_backends other ask [] r = r
  merge_backends other ask ((key, b) ∷ backends) r =
      merge_backends other ask backends (merge_list (backend_type_key other key.typ) (ask b) r)

  unfoldable pub user_online_ip_list :
      (ℕ → String) → (B → Answer E (Dict String ℤ)) → Controller B → IpList
  user_online_ip_list other ask s =
      merge_backends other ask s.backends (record { ips = []; ip_protocol = [] })

-- SystemStatsResponse
pub record SystemStats : Type 0 where
  pub mem_total : ℕ
  pub mem_used : ℕ
  pub cpu_cores : ℕ
  pub cpu_usage : ℕ
  pub incoming_bandwidth_speed : ℕ
  pub outgoing_bandwidth_speed : ℕ
  pub uptime : ℕ

abbrev pub no_system_stats : SystemStats
no_system_stats = record {
  mem_total = 0;
  mem_used = 0;
  cpu_cores = 0;
  cpu_usage = 0;
  incoming_bandwidth_speed = 0;
  outgoing_bandwidth_speed = 0;
  uptime = 0;
}

abbrev pub snapshot_or_none : Option SystemStats → SystemStats
snapshot_or_none none = no_system_stats
snapshot_or_none (some s) = s

abbrev pub with_uptime : {E : Type 0} → SystemStats → SysStats × Option E → SystemStats
with_uptime r (stats, some e) = r
with_uptime r (stats, none) = record r { uptime = stats.uptime }

module _ {B E : Type 0} where
  -- The uptime is that of the backend that has been up the longest, when one answers.
  unfoldable pub system_stats :
      (B → B × Answer E SysStats) → Option SystemStats → Controller B → SystemStats
  system_stats ask snapshot s = elim (backend s) [
    | none ↦ snapshot_or_none snapshot
    | some bs ↦ with_uptime (snapshot_or_none snapshot) (get_sys_stats ask bs).1
  ]

  unfoldable pub outbounds_latency :
      {R : Type 0} → (B → B × Answer E (List R)) → Controller B → Answer E (List R)
  outbounds_latency ask s = elim (backend s) [ none ↦ ok [] | some bs ↦ (get_merged ask bs).1 ]

-- What this node can run: a probe of each package, and its version.
pub record Probe : Type 0 where
  pub deps : BackendType → Bool
  pub version : BackendType → String

abbrev pub Capabilities : Type 0
Capabilities = List BackendType × Dict String String

abbrev pub if_available : Bool → BackendType → String → Probe → Capabilities → Capabilities
if_available here t name p (avail, versions) =
    if here then (avail ++ t ∷ [], insert name (p.version t) versions) else (avail, versions)

-- Each type with the name under which its version stands, in the source's order.
abbrev pub probed : List (BackendType × String)
probed =
    (openvpn, "openvpn")
    ∷ (wireguard, "wg")
    ∷ (ikev2, "ikev2")
    ∷ (l2tp, "l2tp")
    ∷ (pptp, "pptp")
    ∷ (openconnect, "openconnect")
    ∷ (sstp, "sstp")
    ∷ (wg_c, "wg_c")
    ∷ (amneziawg, "amneziawg")
    ∷ (gre, "gre")
    ∷ (ssh, "ssh")
    ∷ (mtproto, "mtproto")
    ∷ []

unfoldable pub probe_all :
    (String → List ℕ) → Probe → List (BackendType × String) → Capabilities → Capabilities
probe_all env p [] caps = caps
probe_all env p ((t, name) ∷ rest) caps =
    probe_all env p rest (if_available (not (backend_disabled env t) && p.deps t) t name p caps)

-- xray needs no dependency.
unfoldable pub capabilities : (String → List ℕ) → Probe → Capabilities
capabilities env p =
    probe_all env p probed (if_available (not (backend_disabled env xray)) xray "xray" p ([], []))

-- BaseInfoResponse
pub record BaseInfo : Type 0 where
  pub started : Bool
  pub core_version : String
  pub node_version : String
  pub available_backends : List BackendType
  pub backend_versions : Dict String String

unfoldable pub base_info_response :
    {B : Type 0} → (B → Bool) → (List B → String) → String → Capabilities → Controller B → BaseInfo
base_info_response up version node_version caps s =
    let stopped : BaseInfo = record {
      started = false;
      core_version = "";
      node_version = node_version;
      available_backends = caps.0;
      backend_versions = caps.1;
    } in
    elim (backend s) [
      | none ↦ stopped
      | some bs ↦ record stopped { started = started up bs; core_version = version bs }
    ]

-- shaper.go. The environment and the default route are parameters.
unfoldable pub first_named : List (List ℕ) → List ℕ → List ℕ
first_named [] default = default
first_named (v ∷ vs) default =
    if nat_eq (length (trim_space v)) 0 then first_named vs default else trim_space v

unfoldable pub egress_interface : (String → List ℕ) → List ℕ → List ℕ
egress_interface env route =
    first_named (env "HPX_NODE_WG_NAT_OUTPUT_INTERFACE" ∷ env "HPX_NODE_SHAPING_INTERFACE" ∷ [])
      (if nat_eq (length route) 0 then codes "eth0" else route)

abbrev pub shaped_or_idle : List String → List Client → Option Manager
shaped_or_idle ifaces [] = none
shaped_or_idle ifaces (c ∷ cs) = some (apply_state ifaces (c ∷ cs) new_manager)

-- One pass over the shaped clients; the shaper comes into being with the first of them. The egress
-- interface is never empty, since it falls back to eth0.
unfoldable pub refresh_shaping :
    {B : Type 0}
    → (B → Option (List Client))
    → List String
    → Dict BackendKey B
    → Option Manager
    → Option Manager
refresh_shaping shaped ifaces backends none =
    shaped_or_idle ifaces (shaped_clients shaped (dict_values backends))
refresh_shaping shaped ifaces backends (some m) =
    some (apply_state ifaces (shaped_clients shaped (dict_values backends)) m)
