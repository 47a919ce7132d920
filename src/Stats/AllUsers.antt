-- ===== src/Stats/AllUsers.antt =====
-- pkg/stats/tracker.go: `GetUsersStats` beside `GetStats`.
use hpxnode.Prelude.{
  ◌≡◌, refl, Bool, true, false, List, [], ◌∷◌, Option, none, some, String, ◌==◌, string_eq, arith,
  All, if◌then◌else◌,
}
use hpxnode.Prelude.Dict.{lookup, insert, delete, IsDict, keys, beq_refl, delete_absent, keys_apart}
use hpxnode.Stats.Entry.{Entry}
use hpxnode.Stats.Tracker.{Tracker, get_stats, get_users_stats, read_found, after_read, reset_entry}
use text.Mathlib.TextEquality.{eq_iff}

-- Reading another key leaves the first entry in its place.
read_found_skip :
    (reset : Bool) (j : String) (o : Option Entry) (k : String) (e : Entry) (st : Tracker)
    → (j == k) ≡ false
    → read_found reset j o ((k, e) ∷ st)
      ≡ ((k, e) ∷ (read_found reset j o st).0, (read_found reset j o st).1)
unfolding after_read insert delete
read_found_skip reset j none k e st h = refl
read_found_skip reset j (some v) k e st h = ground (arith, eq_iff j k, eq_iff k j)

get_stats_skip :
    (reset : Bool) (js : List String) (k : String) (e : Entry) (st : Tracker)
    → All (λ j. (j == k) ≡ false) js
    → get_stats reset js ((k, e) ∷ st)
      ≡ ((k, e) ∷ (get_stats reset js st).0, (get_stats reset js st).1)
unfolding get_stats lookup
get_stats_skip reset [] k e st h = refl
get_stats_skip reset (j ∷ js) k e st h =
    rw (skip, read_found_skip reset j (lookup j st) k e st h.0)
      (rw (get_stats_skip reset js k e (read_found reset j (lookup j st) st).0 h.1))
  where
    skip : lookup j ((k, e) ∷ st) ≡ lookup j st
    skip = ground (arith, eq_iff j k, eq_iff k j)

-- What a read leaves of the entry that it stands at.
abbrev kept : Bool → String → Entry → Tracker → Tracker
kept reset k e st =
    if reset then (if e.is_deleted then st else (k, reset_entry e) ∷ st) else (k, e) ∷ st

after_read_head :
    (reset : Bool) (k : String) (e : Entry) (st : Tracker)
    → lookup k st ≡ none
    → after_read reset k e ((k, e) ∷ st) ≡ kept reset k e st
unfolding after_read insert delete
after_read_head reset k e st h = ground (arith, beq_refl k, delete_absent k st h)

get_stats-kept :
    (reset : Bool) (js : List String) (k : String) (e : Entry) (st : Tracker)
    → All (λ j. (j == k) ≡ false) js
    → get_stats reset js (kept reset k e st)
      ≡ (kept reset k e (get_stats reset js st).0, (get_stats reset js st).1)
get_stats-kept false js k e st h = get_stats_skip false js k e st h
get_stats-kept true js k e st h = ground (arith, get_stats_skip true js k (reset_entry e) st h)

-- On a tracker with one entry for each key, a read of all users is a read of every key of the
-- tracker: it leaves the same tracker and reports the same lines in the same order, with and
-- without a reset.
pub get_users_stats-get_stats :
    (reset : Bool) (st : Tracker)
    → IsDict st
    → get_users_stats reset st ≡ get_stats reset (keys st) st
unfolding get_users_stats get_stats lookup
get_users_stats-get_stats reset [] d = refl
get_users_stats-get_stats reset ((k, e) ∷ st) d =
    rw (beq_refl k, after_read_head reset k e st d.0)
      (rw (
        get_stats-kept reset (keys st) k e st (keys_apart k st d.0),
        get_users_stats-get_stats reset st d.1,
      ))
