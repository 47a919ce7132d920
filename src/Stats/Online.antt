-- ===== src/Stats/Online.antt =====
-- What pkg/stats/tracker.go says of the activity of a user's keys.
use hpxnode.Prelude.{
  ℕ, ◌≡◌, refl, ap, sym, ◌∙◌, false, ◌||◌, List, [], ◌∷◌, Option, none, some, String, ◌==◌,
  string_eq, arith, Option-cases, inl, inr, if◌then◌else◌, Bool-cases, nat_eq,
}
use hpxnode.Prelude.Int.{ℤ, ltb_ℤ}
use hpxnode.Prelude.Dict.{Dict, lookup, lookup-insert}
use hpxnode.Stats.Entry.{Entry}
use hpxnode.Stats.Tracker.{
  Tracker, active_after, any_active_since, remove_stats, mark_removed, endpoint_loop, note_endpoint,
  endpoint_activity, unix,
}
use text.Mathlib.TextEquality.{eq_iff}

active_after-remove_stats :
    (key k : String) (cutoff : ℕ) (st : Tracker)
    → active_after (lookup key (remove_stats k st)) cutoff
      ≡ (if k == key then false else active_after (lookup key st) cutoff)
unfolding remove_stats mark_removed
active_after-remove_stats key k cutoff st = elim (Option-cases (lookup k st)) [
  | inl e ↦ rw e (elim (Bool-cases (k == key)) [
    | inl same ↦ rw (same, ap (λ j. lookup j st) (sym ((eq_iff k key).0 same)) ∙ e)
    | inr other ↦ rw other
  ])
  | inr (v, e) ↦ rw (e, lookup-insert k key (mark_removed v) st) (ground arith)
]

-- The keys other than one.
abbrev pub without : String → List String → List String
without k [] = []
without k (key ∷ keys) = let rest = without k keys in if k == key then rest else key ∷ rest

-- A removed key is inactive at once, whatever the cutoff, and the other keys answer as before.
pub any_active_since-remove_stats :
    (keys : List String) (k : String) (cutoff : ℕ) (st : Tracker)
    → any_active_since keys cutoff (remove_stats k st) ≡ any_active_since (without k keys) cutoff st
unfolding any_active_since
any_active_since-remove_stats [] k cutoff st = refl
any_active_since-remove_stats (key ∷ keys) k cutoff st =
    rw (active_after-remove_stats key k cutoff st, any_active_since-remove_stats keys k cutoff st)
      (ground arith)

-- The time at which an entry was last seen at an address: none without an address or a time.
abbrev pub seen_at : String → Option Entry → Option ℤ
seen_at ip none = none
seen_at ip (some e) =
    if e.endpoint_ip == "" || nat_eq e.last_active_time 0
    then none
    else (if e.endpoint_ip == ip then some (unix e.last_active_time) else none)

abbrev pub later : Option ℤ → Option ℤ → Option ℤ
later a none = a
later none (some t) = some t
later (some s) (some t) = if ltb_ℤ s t then some t else some s

-- The latest time at which one of the keys was seen at an address.
unfoldable pub last_seen : String → List String → Tracker → Option ℤ → Option ℤ
last_seen ip [] st best = best
last_seen ip (key ∷ keys) st best = last_seen ip keys st (later best (seen_at ip (lookup key st)))

lookup-note_endpoint :
    (ip : String) (o : Option Entry) (result : Dict String ℤ)
    → lookup ip (note_endpoint o result) ≡ later (lookup ip result) (seen_at ip o)
unfolding note_endpoint
lookup-note_endpoint ip none result = ground arith
lookup-note_endpoint ip (some e) result = ground (
  arith,
  eq_iff e.endpoint_ip ip,
  lookup-insert e.endpoint_ip ip (unix e.last_active_time) result,
)

lookup-endpoint_loop :
    (ip : String) (keys : List String) (st : Tracker) (result : Dict String ℤ)
    → lookup ip (endpoint_loop keys st result) ≡ last_seen ip keys st (lookup ip result)
unfolding endpoint_loop last_seen
lookup-endpoint_loop ip [] st result = refl
lookup-endpoint_loop ip (key ∷ keys) st result =
    lookup-endpoint_loop ip keys st (note_endpoint (lookup key st) result)
    ∙ ap (last_seen ip keys st) (lookup-note_endpoint ip (lookup key st) result)

-- For each address the result holds the latest time at which one of the keys was seen there, and
-- no entry for an address where none was.
pub lookup-endpoint_activity :
    (ip : String) (keys : List String) (st : Tracker)
    → lookup ip (endpoint_activity keys st) ≡ last_seen ip keys st none
unfolding endpoint_activity lookup
lookup-endpoint_activity ip keys st = lookup-endpoint_loop ip keys st []
