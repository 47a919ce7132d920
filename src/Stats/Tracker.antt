-- ===== src/Stats/Tracker.antt =====
-- pkg/stats/tracker.go: the operations of the tracker, which maps each public key to its entry.
use hpxnode.Prelude.{
  ℕ, ◌/◌, Bool, true, false, ◌&&◌, ◌||◌, List, [], ◌∷◌, ◌++◌, Option, none, some, String,
  if◌then◌else◌, ltb, nat_eq, ◌==◌, string_eq,
}
use hpxnode.Prelude.Int.{ℤ, sub64, ltb_ℤ, eq_ℤ, sub_ℕ}
use hpxnode.Prelude.Dict.{Dict, lookup, insert, delete}
use hpxnode.Stats.Delta.{Stat, build_delta_stats}
use hpxnode.Stats.Entry.{Entry, Sample, new_entry, update_entry}

-- The lock is held by each operation from end to end.
abbrev pub Tracker : Type 0
Tracker = Dict String Entry

abbrev pub entry_or_new : Option Entry → String → Entry
entry_or_new none email = new_entry email
entry_or_new (some e) email = e

unfoldable pub apply_sample : Tracker → Sample → ℕ → Tracker
apply_sample st s active_at =
    insert s.public_key (update_entry (entry_or_new (lookup s.public_key st) s.email) s active_at)
      st

unfoldable pub update_stats_batch : Tracker → List Sample → ℕ → Tracker
update_stats_batch st [] now = st
update_stats_batch st (s ∷ samples) now = update_stats_batch (apply_sample st s now) samples now

-- The lines that an entry has to report: its counters above the baselines.
unfoldable pub entry_stats : String → Entry → List Stat
entry_stats key e =
    build_delta_stats e.email key (sub64 e.current_rx e.base_rx) (sub64 e.current_tx e.base_tx)

unfoldable pub reset_entry : Entry → Entry
reset_entry e = record e { base_rx = e.current_rx; base_tx = e.current_tx }

-- A reset moves the baselines up to the counters, and drops a deleted entry.
unfoldable pub after_read : Bool → String → Entry → Tracker → Tracker
after_read reset key e st =
    if reset then (if e.is_deleted then delete key st else insert key (reset_entry e) st) else st

abbrev pub read_found : Bool → String → Option Entry → Tracker → Tracker × List Stat
read_found reset key none st = (st, [])
read_found reset key (some e) st = (after_read reset key e st, entry_stats key e)

unfoldable pub get_stats : Bool → List String → Tracker → Tracker × List Stat
get_stats reset [] st = (st, [])
get_stats reset (key ∷ keys) st =
    let (st₁, out) = read_found reset key (lookup key st) st in
    let (st₂, rest) = get_stats reset keys st₁ in (st₂, out ++ rest)

-- The range loop over all entries, which resets or deletes the entry that it stands at.
unfoldable pub get_users_stats : Bool → Tracker → Tracker × List Stat
get_users_stats reset [] = ([], [])
get_users_stats reset ((key, e) ∷ st) =
    let (st', rest) = get_users_stats reset st in
    (
      if reset then (if e.is_deleted then st' else (key, reset_entry e) ∷ st') else (key, e) ∷ st',
      entry_stats key e ++ rest,
    )

abbrev pub add_found : String → Option Entry → Dict String Entry → Dict String Entry
add_found key none result = result
add_found key (some e) result = insert key e result

unfoldable pub collect_entries : List String → Tracker → Dict String Entry → Dict String Entry
collect_entries [] st result = result
collect_entries (key ∷ keys) st result =
    collect_entries keys st (add_found key (lookup key st) result)

unfoldable pub get_stats_entries : List String → Tracker → Dict String Entry
get_stats_entries keys st = collect_entries keys st []

abbrev pub active_after : Option Entry → ℕ → Bool
active_after none cutoff = false
active_after (some e) cutoff = ltb cutoff e.last_active_time

unfoldable pub any_active_since : List String → ℕ → Tracker → Bool
any_active_since [] cutoff st = false
any_active_since (key ∷ keys) cutoff st =
    active_after (lookup key st) cutoff || any_active_since keys cutoff st

-- `Unix()`: the seconds since 1970, from the nanoseconds since the zero time.
unfoldable pub unix : ℕ → ℤ
unix t = sub_ℕ (t / 1_000_000_000) 62_135_596_800

abbrev pub newer : Option ℤ → ℤ → Bool
newer none ts = true
newer (some prev) ts = ltb_ℤ prev ts

unfoldable pub note_endpoint : Option Entry → Dict String ℤ → Dict String ℤ
note_endpoint none result = result
note_endpoint (some e) result =
    if e.endpoint_ip == "" || nat_eq e.last_active_time 0
    then result
    else (if newer (lookup e.endpoint_ip result) (unix e.last_active_time)
        then insert e.endpoint_ip (unix e.last_active_time) result
        else result)

unfoldable pub endpoint_loop : List String → Tracker → Dict String ℤ → Dict String ℤ
endpoint_loop [] st result = result
endpoint_loop (key ∷ keys) st result = endpoint_loop keys st (note_endpoint (lookup key st) result)

-- A nil map and an empty one read alike.
unfoldable pub endpoint_activity : List String → Tracker → Dict String ℤ
endpoint_activity keys st = endpoint_loop keys st []

unfoldable pub mark_removed : Entry → Entry
mark_removed e = record e {
  last_delta_rx = sub64 e.current_rx e.base_rx;
  last_delta_tx = sub64 e.current_tx e.base_tx;
  is_deleted = true;
  last_active_time = 0;
}

abbrev pub remove_found : String → Option Entry → Tracker → Tracker
remove_found key none st = st
remove_found key (some e) st = insert key (mark_removed e) st

unfoldable pub remove_stats : String → Tracker → Tracker
remove_stats key st = remove_found key (lookup key st) st

abbrev pub clear_all_stats : Tracker → Tracker
clear_all_stats st = []

unfoldable pub is_settled : Entry → Bool
is_settled e = e.is_deleted && (eq_ℤ e.current_rx e.base_rx && eq_ℤ e.current_tx e.base_tx)

unfoldable pub cleanup_deleted_entries : Tracker → Tracker
cleanup_deleted_entries [] = []
cleanup_deleted_entries ((key, e) ∷ st) =
    let rest = cleanup_deleted_entries st in if is_settled e then rest else (key, e) ∷ rest
