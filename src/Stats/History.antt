-- ===== src/Stats/History.antt =====
-- pkg/stats/tracker.go driven by a history of calls, seen from one public key.
use hpxnode.Prelude.{
  ℕ, ◌+◌, ◌≡◌, true, List, [], ◌∷◌, ◌++◌, Option, none, some, String, ◌&&◌, if◌then◌else◌, ◌==◌,
  string_eq,
}
use hpxnode.Prelude.Int.{pos_part}
use hpxnode.Prelude.Dict.{lookup}
use hpxnode.Stats.Delta.{Stat}
use hpxnode.Stats.Entry.{Entry, Sample}
use hpxnode.Stats.Tracker.{
  Tracker, entry_or_new, apply_sample, get_stats, get_users_stats, remove_stats,
  cleanup_deleted_entries,
}
use hpxnode.Stats.Accounting.{Ledger, growth, IsCounter}

-- The calls that change a tracker. A read that does not reset leaves it alone.
pub data Call : Type 0 where
  samples : Sample → ℕ → Call
  reads : List String → Call
  reads_all : Call
  removes : String → Call
  cleans : Call

unfoldable pub step : Tracker → Call → Tracker × List Stat
step st (samples s now) = (apply_sample st s now, [])
step st (reads keys) = get_stats true keys st
step st reads_all = get_users_stats true st
step st (removes key) = (remove_stats key st, [])
step st cleans = (cleanup_deleted_entries st, [])

unfoldable pub run : Tracker → List Call → Tracker × List Stat
run st [] = (st, [])
run st (c ∷ cs) = let (st₁, out) = step st c in let (st₂, rest) = run st₁ cs in (st₂, out ++ rest)

-- The bytes that a list of lines reports for a key in one direction.
unfoldable pub reported : String → String → List Stat → ℕ
reported key type [] = 0
reported key type (s ∷ out) =
    (if s.link == key && s.type == type then pos_part s.value else 0) + reported key type out

-- What a tracker owes for a key, downlink and uplink.
abbrev pub OwesEntry : Option Entry → ℕ → ℕ → Type 0
OwesEntry none rx tx = (rx ≡ 0) × (tx ≡ 0)
OwesEntry (some e) rx tx = Ledger e rx tx

abbrev pub OwesKey : String → Tracker → ℕ → ℕ → Type 0
OwesKey key st rx tx = OwesEntry (lookup key st) rx tx

-- The bytes that a call adds for a key, and those of a history.
abbrev pub call_growth : String → Tracker → Call → ℕ × ℕ
call_growth key st (samples s now) =
    if s.public_key == key then growth (entry_or_new (lookup key st) s.email) s else (0, 0)
call_growth key st (reads keys) = (0, 0)
call_growth key st reads_all = (0, 0)
call_growth key st (removes k) = (0, 0)
call_growth key st cleans = (0, 0)

unfoldable pub run_growth : String → Tracker → List Call → ℕ × ℕ
run_growth key st [] = (0, 0)
run_growth key st (c ∷ cs) =
    let (rx, tx) = run_growth key (step st c).0 cs in
    ((call_growth key st c).0 + rx, (call_growth key st c).1 + tx)

-- The samples of a history carry kernel counters.
abbrev pub CallCounts : Call → Type 0
CallCounts (samples s now) = IsCounter s.rx × IsCounter s.tx
CallCounts (reads keys) = Unit
CallCounts reads_all = Unit
CallCounts (removes key) = Unit
CallCounts cleans = Unit
