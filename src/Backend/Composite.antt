-- ===== src/Backend/Composite.antt =====
-- backend/composite.go: one call on a node is one call on each of its backends. A backend is its
-- state, and a call of it takes the state to a new one with an answer; ctx is left out. The channel
-- of Logs is not modelled.
use hpxnode.Prelude.{
  ℕ, Bool, true, false, List, [], ◌∷◌, ◌++◌, Option, none, some, String, string_eq, ◌==◌,
  if◌then◌else◌, ltb,
}
use hpxnode.Prelude.Int.{ℤ, pos, add64}
use hpxnode.Prelude.Dict.{Dict, lookup, insert}
mod Fan
mod Tests

-- What a call of a backend answers: an error, or a value, which may be nil.
pub data Answer (E R : Type 0) : Type 0 where
  err : E → Answer E R
  nil : Answer E R
  ok : R → Answer E R

pub record SysStats : Type 0 where
  pub num_goroutine : ℕ
  pub num_gc : ℕ
  pub alloc : ℕ
  pub total_alloc : ℕ
  pub sys : ℕ
  pub mallocs : ℕ
  pub frees : ℕ
  pub live_objects : ℕ
  pub pause_total_ns : ℕ
  pub uptime : ℕ

abbrev pub no_stats : SysStats
no_stats = record {
  num_goroutine = 0;
  num_gc = 0;
  alloc = 0;
  total_alloc = 0;
  sys = 0;
  mallocs = 0;
  frees = 0;
  live_objects = 0;
  pause_total_ns = 0;
  uptime = 0;
}

-- `if err != nil && firstErr == nil { firstErr = err }`
abbrev pub keep_first : {E : Type 0} → Option E → Option E → Option E
keep_first (some e) later = some e
keep_first none later = later

-- NewComposite: nil when there is no backend.
abbrev pub new_composite : {S : Type 0} → List S → Option (List S)
new_composite [] = none
new_composite (b ∷ bs) = some (b ∷ bs)

-- The loop of Restart, SyncUser, SyncUsers, UpdateUsers and UpdateUsersAndRestart.
unfoldable pub fan_out : {S E : Type 0} → (S → S × Option E) → List S → Option E → List S × Option E
fan_out call [] first_err = ([], first_err)
fan_out call (b ∷ bs) first_err =
    let rest = fan_out call bs (keep_first first_err (call b).1) in ((call b).0 ∷ rest.0, rest.1)

-- A call that changes every backend, as SyncUser does.
unfoldable pub each : {S E : Type 0} → (S → S × Option E) → List S → List S × Option E
each call bs = fan_out call bs none

unfoldable pub shutdown : {S : Type 0} → (S → S) → List S → List S
shutdown stop [] = []
shutdown stop (b ∷ bs) = stop b ∷ shutdown stop bs

unfoldable pub started : {S : Type 0} → (S → Bool) → List S → Bool
started up [] = false
started up (b ∷ bs) = if up b then true else started up bs

unfoldable pub versions : {S : Type 0} → (S → String) → List S → List String
versions version [] = []
versions version (b ∷ bs) =
    let rest = versions version bs in if version b == "" then rest else version b ∷ rest

-- The clients of the backends that report shaped ones.
unfoldable pub shaped_clients :
    {S : Type 0} → {C : Type 0} → (S → Option (List C)) → List S → List C
shaped_clients shaped [] = []
shaped_clients shaped (b ∷ bs) = elim (shaped b) [
  | none ↦ shaped_clients shaped bs
  | some cs ↦ cs ++ shaped_clients shaped bs
]

abbrev pub or_best : Option SysStats → SysStats → SysStats
or_best none s = s
or_best (some best) s = if ltb best.uptime s.uptime then s else best

abbrev pub better : {E : Type 0} → Option SysStats → Answer E SysStats → Option SysStats
better best (err e) = best
better best nil = best
better best (ok s) = some (or_best best s)

abbrev pub error_of : {E : Type 0} → {R : Type 0} → Answer E R → Option E
error_of (err e) = some e
error_of nil = none
error_of (ok r) = none

unfoldable pub sys_stats_loop :
    {S E : Type 0}
    → (S → S × Answer E SysStats)
    → List S
    → Option SysStats
    → Option E
    → List S × (Option SysStats × Option E)
sys_stats_loop ask [] best first_err = ([], (best, first_err))
sys_stats_loop ask (b ∷ bs) best first_err =
    let rest =
      sys_stats_loop ask bs (better best (ask b).1) (keep_first first_err (error_of (ask b).1)) in
    ((ask b).0 ∷ rest.0, rest.1)

-- The statistics and the error that are returned together.
abbrev pub best_or_empty : {E : Type 0} → Option SysStats × Option E → SysStats × Option E
best_or_empty (none, first_err) = (no_stats, first_err)
best_or_empty (some best, first_err) = (best, none)

unfoldable pub get_sys_stats :
    {S E : Type 0} → (S → S × Answer E SysStats) → List S → List S × (SysStats × Option E)
get_sys_stats ask bs = let rest = sys_stats_loop ask bs none none in (rest.0, best_or_empty rest.1)

abbrev pub items_of : {E : Type 0} → {R : Type 0} → Answer E (List R) → List R
items_of (err e) = []
items_of nil = []
items_of (ok items) = items

-- The loop of GetStats and GetOutboundsLatency.
unfoldable pub merge_loop :
    {S E : Type 0}
    → {R : Type 0} → (S → S × Answer E (List R))
    → List S
    → List R
    → Option E
    → List S × (List R × Option E)
merge_loop ask [] merged first_err = ([], (merged, first_err))
merge_loop ask (b ∷ bs) merged first_err =
    let rest =
      merge_loop ask bs (merged ++ items_of (ask b).1)
        (keep_first first_err (error_of (ask b).1)) in
    ((ask b).0 ∷ rest.0, rest.1)

abbrev pub merged_or_error : {E : Type 0} → {R : Type 0} → List R × Option E → Answer E (List R)
merged_or_error ([], some e) = err e
merged_or_error ([], none) = ok []
merged_or_error (r ∷ rs, first_err) = ok (r ∷ rs)

unfoldable pub get_merged :
    {S E : Type 0}
    → {R : Type 0} → (S → S × Answer E (List R))
    → List S
    → List S × Answer E (List R)
get_merged ask bs = let rest = merge_loop ask bs [] none in (rest.0, merged_or_error rest.1)

pub record Online (E : Type 0) : Type 0 where
  pub total : ℤ
  pub found : Bool
  pub first_err : Option E

abbrev pub count_answer : {E : Type 0} → Online E → Answer E ℤ → Online E
count_answer o (err e) = record o { first_err = keep_first o.first_err (some e) }
count_answer o nil = o
count_answer o (ok v) = record o { total = add64 o.total v; found = true }

unfoldable pub online_loop :
    {S E : Type 0} → (S → S × Answer E ℤ) → List S → Online E → List S × Online E
online_loop ask [] o = ([], o)
online_loop ask (b ∷ bs) o =
    let rest = online_loop ask bs (count_answer o (ask b).1) in ((ask b).0 ∷ rest.0, rest.1)

abbrev pub found_or_error : {E : Type 0} → {R : Type 0} → Bool → Option E → R → Answer E R
found_or_error false (some e) r = err e
found_or_error false none r = ok r
found_or_error true first_err r = ok r

unfoldable pub get_user_online_stats :
    {S E : Type 0} → (S → S × Answer E ℤ) → List S → List S × Answer E ℤ
get_user_online_stats ask bs =
    let rest = online_loop ask bs (record { total = pos 0; found = false; first_err = none }) in
    (rest.0, found_or_error rest.1.found rest.1.first_err rest.1.total)

abbrev pub int_or_zero : Option ℤ → ℤ
int_or_zero none = pos 0
int_or_zero (some v) = v

-- `merged[ip] += v`
unfoldable pub add_ips : Dict String ℤ → Dict String ℤ → Dict String ℤ
add_ips [] merged = merged
add_ips ((ip, v) ∷ ips) merged =
    add_ips ips (insert ip (add64 (int_or_zero (lookup ip merged)) v) merged)

pub record OnlineIps (E : Type 0) : Type 0 where
  pub ips : Dict String ℤ
  pub found : Bool
  pub first_err : Option E

abbrev pub merge_answer : {E : Type 0} → OnlineIps E → Answer E (Dict String ℤ) → OnlineIps E
merge_answer o (err e) = record o { first_err = keep_first o.first_err (some e) }
merge_answer o nil = o
merge_answer o (ok ips) = record o { ips = add_ips ips o.ips; found = true }

unfoldable pub ip_list_loop :
    {S E : Type 0}
    → (S → S × Answer E (Dict String ℤ))
    → List S
    → OnlineIps E
    → List S × OnlineIps E
ip_list_loop ask [] o = ([], o)
ip_list_loop ask (b ∷ bs) o =
    let rest = ip_list_loop ask bs (merge_answer o (ask b).1) in ((ask b).0 ∷ rest.0, rest.1)

unfoldable pub get_user_online_ip_list_stats :
    {S E : Type 0} → (S → S × Answer E (Dict String ℤ)) → List S → List S × Answer E (Dict String ℤ)
get_user_online_ip_list_stats ask bs =
    let rest = ip_list_loop ask bs (record { ips = []; found = false; first_err = none }) in
    (rest.0, found_or_error rest.1.found rest.1.first_err rest.1.ips)
