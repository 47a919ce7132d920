-- ===== src/Stats/Conservation.antt =====
-- pkg/stats/tracker.go: what a key's reads report over a history of calls.
use hpxnode.Prelude.{ℕ, ◌+◌, ◌<◌, List, [], ◌∷◌, String, true, arith, All, string_eq}
use hpxnode.Prelude.Dict.{IsDict, keys}
use hpxnode.Stats.Tracker.{Tracker}
use hpxnode.Stats.Shape.{step-IsDict}
use hpxnode.Stats.AllUsers.{get_users_stats-get_stats}
use hpxnode.Stats.Calls.{
  Settles, samples-OwesKey, get_stats-Settles, removes-OwesKey, cleans-OwesKey, reported-append,
}
use hpxnode.Stats.History.{
  Call, samples, reads, reads_all, removes, cleans, step, run, reported, OwesKey, call_growth,
  run_growth, CallCounts,
}

step-Settles :
    (key : String) (st : Tracker) (c : Call) (rx tx : ℕ)
    → IsDict st
    → CallCounts c
    → OwesKey key st rx tx
    → rx + (call_growth key st c).0 < 0x8000000000000000
    → tx + (call_growth key st c).1 < 0x8000000000000000
    → Settles key (step st c) (rx + (call_growth key st c).0) (tx + (call_growth key st c).1)
unfolding step reported
step-Settles key st (samples s now) rx tx d h o small_rx small_tx =
    (_, _, samples-OwesKey key st s now rx tx o h.0 h.1 small_rx small_tx, omega arith, omega arith)
step-Settles key st (reads ks) rx tx d h o small_rx small_tx =
    let (rx', tx', after, down, up) = get_stats-Settles key ks st rx tx o in
    (rx', tx', after, omega (arith, down), omega (arith, up))
step-Settles key st reads_all rx tx d h o small_rx small_tx =
    let (rx', tx', after, down, up) = get_stats-Settles key (keys st) st rx tx o in
    rw (get_users_stats-get_stats true st d)
      (rx', tx', after, omega (arith, down), omega (arith, up))
step-Settles key st (removes k) rx tx d h o small_rx small_tx =
    (rx, tx, removes-OwesKey key k st rx tx o, omega arith, omega arith)
step-Settles key st cleans rx tx d h o small_rx small_tx =
    (rx, tx, cleans-OwesKey key st rx tx d o, omega arith, omega arith)

-- Along any history of samples, reads with reset (of given keys or of all), removals and clean-ups,
-- what a key's reads report together with what it owes at the end is what it owed at the start
-- together with what its samples add, in each direction. A sample adds what the counter grew by since
-- the entry's last sample (the whole counter, for a key without an entry), except that a sample
-- adds nothing in either direction if one of the two counters lies below its last value, or if the
-- key was removed with traffic to report. (The tracker has one entry for each key, the counters
-- of the samples are int64 values that are not negative, and neither total reaches 2^63.)
pub run-Settles :
    (key : String) (st : Tracker) (cs : List Call) (rx tx : ℕ)
    → IsDict st
    → All CallCounts cs
    → OwesKey key st rx tx
    → rx + (run_growth key st cs).0 < 0x8000000000000000
    → tx + (run_growth key st cs).1 < 0x8000000000000000
    → Settles key (run st cs) (rx + (run_growth key st cs).0) (tx + (run_growth key st cs).1)
unfolding run run_growth reported
run-Settles key st [] rx tx d h o small_rx small_tx = (rx, tx, o, omega arith, omega arith)
run-Settles key st (c ∷ cs) rx tx d h o small_rx small_tx =
    let (rx₁, tx₁, o₁, down₁, up₁) =
      step-Settles key st c rx tx d h.0 o (omega arith) (omega arith) in
    let (rx₂, tx₂, o₂, down₂, up₂) =
      run-Settles key (step st c).0 cs rx₁ tx₁ (step-IsDict st c d) h.1 o₁ (omega (arith, down₁))
        (omega (arith, up₁)) in
    (
      rx₂,
      tx₂,
      o₂,
      omega (
        arith,
        down₁,
        down₂,
        reported-append key "downlink" (step st c).1 (run (step st c).0 cs).1,
      ),
      omega (arith, up₁, up₂, reported-append key "uplink" (step st c).1 (run (step st c).0 cs).1),
    )
