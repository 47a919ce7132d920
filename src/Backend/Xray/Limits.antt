-- ===== src/Backend/Xray/Limits.antt =====
-- backend/xray/iplimit.go: the device limit by disconnecting a user for a while. limitMu is held by
-- each operation from end to end but for enforceIpLimitsOnce, which works on a snapshot; the model is
-- a pass into which no other operation falls. Times are seconds. Whether SyncUser succeeds and how many
-- addresses the core shows for a user are parameters.
use hpxnode.Prelude.{
  ℕ, ◌+◌, ◌%◌, Bool, true, false, List, [], ◌∷◌, Option, none, some, String, string_eq, ◌==◌,
  if◌then◌else◌, nat_eq, ltb, leb,
}
use hpxnode.Prelude.Dict.{Dict, lookup, insert, delete}
use hpxnode.Backend.Xray.Accounts.{User}

abbrev pub ip_limit_cooldown : ℕ
ip_limit_cooldown = 60

pub data Event : Type 0 where
  synced : User → Event
  disconnected : String → Event

pub record Limits : Type 0 where
  pub user_limits : Dict String ℕ
  pub user_by_email : Dict String User
  pub kicked : Dict String ℕ
  pub log : List Event

abbrev pub remember : User → Limits → Limits
remember u l = record l {
  user_limits = insert u.email u.ip_limit l.user_limits;
  user_by_email = insert u.email u l.user_by_email;
  kicked = delete u.email l.kicked;
}

unfoldable pub remember_each : List User → Limits → Limits
remember_each [] l = l
remember_each (u ∷ us) l =
    if u.email == "" then remember_each us l else remember_each us (remember u l)

unfoldable pub remember_users : List User → Bool → Limits → Limits
remember_users us true l =
    remember_each us (record l { user_limits = []; user_by_email = []; kicked = [] })
remember_users us false l = remember_each us l

pub record Host : Type 0 where
  pub syncs : User → Bool
  pub online_ips : String → Option ℕ

-- SyncUser remembers the user when it succeeds.
abbrev pub sync_user : Host → User → Limits → Limits
sync_user host u l = record (remember_users (u ∷ []) false l) { log = synced u ∷ l.log }

abbrev pub unkick : String → Limits → Limits
unkick email l = record l { kicked = delete email l.kicked }

abbrev pub readmit : Host → String → Option User → Limits → Limits
readmit host email none l = unkick email l
readmit host email (some u) l =
    if host.syncs u then unkick email (sync_user host u l) else record l { log = synced u ∷ l.log }

abbrev pub kick : ℕ → String → Limits → Limits
kick now email l = record l { kicked = insert email now l.kicked; log = disconnected email ∷ l.log }

abbrev pub check_online : ℕ → String → ℕ → Option ℕ → Limits → Limits
check_online now email limit none l = l
check_online now email limit (some n) l =
    if leb (n % 0x100000000) limit then l else kick now email l

abbrev pub check_limit : Host → ℕ → String → ℕ → Limits → Limits
check_limit host now email limit l =
    if nat_eq limit 0 then l else check_online now email limit (host.online_ips email) l

-- The kick and the user are those of the snapshot.
abbrev pub enforce_user : Host → ℕ → String → ℕ → Option User → Option ℕ → Limits → Limits
enforce_user host now email limit user none l = check_limit host now email limit l
enforce_user host now email limit user (some kicked_at) l =
    if ltb now (kicked_at + ip_limit_cooldown) then l else readmit host email user l

unfoldable pub enforce_all : Host → ℕ → Limits → Dict String ℕ → Limits → Limits
enforce_all host now snap [] l = l
enforce_all host now snap ((email, limit) ∷ limits) l = enforce_all host now snap limits (
    enforce_user host now email limit (lookup email snap.user_by_email) (lookup email snap.kicked)
      l)

unfoldable pub enforce_ip_limits_once : Host → ℕ → Limits → Limits
enforce_ip_limits_once host now l = enforce_all host now l l.user_limits l
