-- ===== src/Stats/Shape.antt =====
-- pkg/stats/tracker.go: the shape of the tracker's map under every call.
use hpxnode.Prelude.{Bool, true, List, [], ◌∷◌, Option, none, some, String, string_eq, arith}
use hpxnode.Prelude.Dict.{keys, lookup, IsDict, insert-IsDict, delete-IsDict}
use hpxnode.Stats.Entry.{Entry}
use hpxnode.Stats.Tracker.{
  Tracker, apply_sample, get_stats, read_found, after_read, remove_found, remove_stats, reset_entry,
  cleanup_deleted_entries,
}
use hpxnode.Stats.AllUsers.{get_users_stats-get_stats}
use hpxnode.Stats.Calls.{cleanup_lookup}
use hpxnode.Stats.History.{Call, samples, reads, reads_all, removes, cleans, step}

after_read-IsDict :
    (reset : Bool) (k : String) (e : Entry) (st : Tracker)
    → IsDict st
    → IsDict (after_read reset k e st)
unfolding after_read
after_read-IsDict reset k e st d =
    ground (arith, delete-IsDict k st d, insert-IsDict k (reset_entry e) st d)

read_found-IsDict :
    (reset : Bool) (k : String) (o : Option Entry) (st : Tracker)
    → IsDict st
    → IsDict (read_found reset k o st).0
read_found-IsDict reset k none st d = d
read_found-IsDict reset k (some e) st d = after_read-IsDict reset k e st d

get_stats-IsDict :
    (reset : Bool) (ks : List String) (st : Tracker) → IsDict st → IsDict (get_stats reset ks st).0
unfolding get_stats
get_stats-IsDict reset [] st d = d
get_stats-IsDict reset (k ∷ ks) st d =
    get_stats-IsDict reset ks (read_found reset k (lookup k st) st).0
      (read_found-IsDict reset k (lookup k st) st d)

remove_found-IsDict :
    (k : String) (o : Option Entry) (st : Tracker) → IsDict st → IsDict (remove_found k o st)
remove_found-IsDict k none st d = d
remove_found-IsDict k (some e) st d = insert-IsDict k _ st d

cleanup-IsDict : (st : Tracker) → IsDict st → IsDict (cleanup_deleted_entries st)
unfolding cleanup_deleted_entries
cleanup-IsDict [] d = d
cleanup-IsDict ((k, e) ∷ st) d = ground (arith, cleanup-IsDict st d.1, cleanup_lookup k st d.0)

pub step-IsDict : (st : Tracker) (c : Call) → IsDict st → IsDict (step st c).0
unfolding step apply_sample remove_stats
step-IsDict st (samples s now) d = insert-IsDict s.public_key _ st d
step-IsDict st (reads keys) d = get_stats-IsDict true keys st d
step-IsDict st reads_all d =
    rw (get_users_stats-get_stats true st d) (get_stats-IsDict true (keys st) st d)
step-IsDict st (removes key) d = remove_found-IsDict key (lookup key st) st d
step-IsDict st cleans d = cleanup-IsDict st d
