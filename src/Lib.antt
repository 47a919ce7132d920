-- ===== src/Lib.antt =====
-- Verification library of HPXNODE, the node of a VPN panel: a service that runs VPN backends,
-- keeps them in step with the panel's users, and reports their traffic.
--
-- The program's parts and how they interact. The controller (controller/) receives the panel's
-- calls over gRPC or REST and holds one backend, or a Composite of several (backend/composite.go),
-- to which it hands users on and from which it collects statistics. A backend keeps its own
-- allowlist (backend/openvpn/users.go, backend/wireguard/peer_store.go), counts the traffic of its
-- peers with the tracker of pkg/stats, reports its users' devices to the shared device limit
-- (backend/devicelimit.go), and has its clients' speed limited by the shaper (backend/ratelimit).
--
-- Prelude holds what the models share: tests on native numbers, lists, association lists for Go's
-- maps, int64 with its wrap-around, and text as a list of character codes. A range loop over a map
-- visits the list's entries in order; since Go leaves the order open, the statements are about
-- every list.
--
-- Stats is pkg/stats. Stats.Delta has interface_counters.go (Delta is delta, buildDeltaStats is
-- build_delta_stats); Stats.Entry has the entry of one key and what a sample does to it, piece by
-- piece, and Stats.Tracker the operations of tracker.go under their names in snake_case.
-- Stats.History runs a sequence of calls. Times are nanoseconds since Go's zero time.
--
-- Backend.DeviceLimit is backend/devicelimit.go: enforce_global_device_limits is the list of the
-- KeepDevices calls that one pass makes, with the limiters' answers as the fields of a record.
--
-- Backend.RateLimit is backend/ratelimit: Marks has allocMark, classID and markValue, Apply the
-- state that Manager.Apply leaves, Commands the tc and nft commands that it runs, where a host
-- answers each with an error's text or none.
--
-- Backend.Composite is backend/composite.go. A backend is a state, a call takes it to a new state
-- with an answer. Logs is left out, since it only moves lines between channels.
--
-- Backend.OpenVpn is backend/openvpn: Serial and Users have the session operations of users.go,
-- Sync its synchronization, Mgmt the lines of the management interface (mgmt.go), Subnet
-- splitSubnet and bitsNeeded of listeners.go on a parsed prefix, Listeners normalizeListeners of
-- config.go, Group NewBackend of group.go with the starts and shutdowns as a list of events.
--
-- Backend.WireGuard is backend/wireguard: PeerStore has the operations of peer_store.go, IpLimit
-- those of iplimit.go on the maps that limitMu guards. The key type of the wgtypes package and its
-- String method are parameters; no property of them is assumed. What the kernel answers on a peer
-- is a parameter too.
--
-- Backend.WireGuard.Sync is the synchronization of users: Desired has collectDesiredPeers and what
-- it calls (user_common.go), Diff buildSyncDiff and the configurations of peers, UserSync the full
-- and the partial synchronization (user_full_sync.go, user_partial_sync.go) and the calls of
-- user.go under their names. What wgtypes and net do with the text of a key or an address is the
-- record Wire, whether the kernel accepts a change or a restart succeeds the record Kernel. The
-- theorems assume of a user that its public key, if it parses, is written as it is printed
-- (HasCanonicalKey).
--
-- Backend.L2tp is backend/l2tp: Users has the operations of users.go, Sessions devicelimit.go,
-- shaped.go and enforceDeviceLimits of stats.go, Poll the poll of stats.go. The sessions that the
-- hooks of pppd recorded and the counters of an interface are parameters.
--
-- Backend.Xray is a part of backend/xray: Accounts has the accounts of api/account.go,
-- setupUserAccount of user.go and EnsureBase64Password of common/helper.go, Inbounds the client
-- lists of config.go and isActiveInbound, where sync_user_in is what SyncUser does to one inbound
-- and update_users_in what UpdateUsers does, Limits the device limit of iplimit.go. The parser of
-- UUIDs, base64 and SHA-256 are the record Codec; the theorems assume that base64 keeps lengths
-- (HasLengths).
--
-- Controller is controller: Types has the keys of the table of backends, Node the life cycle of
-- controller.go (StartBackend, Connect, Disconnect, NewRequest, Backend and one tick of
-- keepAliveTracker), where a run of the controller is a sequence of these calls and ticks, each of
-- which ends before the next begins, Answers the merged answers and refreshShaping of shaper.go,
-- Service the checks of rpc/middleware.go with Start of rpc/base.go and SyncUser of rpc/user.go,
-- Chunks BuildUsersFromChunks of users_chunk.go and SyncUsersChunked of rpc/user.go, on the list
-- of what the stream's Recv returns. A backend package is the record Core; the environment, the
-- decoding of a field of a configuration and the parser of UUIDs are parameters.
--
-- Bounds and fuel. bits_len counts at most 64 halvings, which is enough for a machine integer
-- (bits_len-enough in Backend.OpenVpn.Blocks). All other loops recur on a list or on the number of
-- the remaining indexes. uint32 and int64 results wrap where the source's do.
--
-- An operation is one step of a model. Most operations hold their mutex from end to end. Some do
-- not, and their models are calls into which no other call falls: StartBackend and Disconnect of
-- controller/controller.go release the lock while cores are shut down and launched (their sections
-- are take_old, shut_down_old, launch, register, and cancel, shut_down_all, clear of
-- Controller.Node, and a test in Controller.NodeTests shows what two overlapping starts do);
-- enforceIpLimits of backend/wireguard/iplimit.go and enforceIpLimitsOnce of
-- backend/xray/iplimit.go release limitMu between their decisions and each change. Not modelled:
-- the running of commands, sockets, files, processes, logging, the generated message code, JSON,
-- and the backends and handlers that the manifest lists as such.
pub mod Prelude
pub mod Stats
pub mod Backend
pub mod Controller
