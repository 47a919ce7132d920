-- ===== src/Stats/Tests.antt =====
-- The theorems on pkg/stats at concrete inputs, and runs of its code.
use hpxnode.Prelude.{ℕ, ◌+◌, ◌≡◌, refl, true, false, List, [], ◌∷◌, String, string_eq, arith}
use hpxnode.Prelude.Int.{pos, sub64}
use hpxnode.Prelude.Dict.{lookup, insert, delete, keys}
use hpxnode.Stats.Delta.{build_delta_stats}
use hpxnode.Stats.Entry.{Sample, update_entry}
use hpxnode.Stats.Tracker.{
  Tracker, apply_sample, update_stats_batch, get_stats, get_users_stats, any_active_since,
  remove_stats, after_read, reset_entry, mark_removed, entry_stats, endpoint_activity,
  cleanup_deleted_entries, is_settled,
}
use hpxnode.Stats.History.{Call, samples, reads, reads_all, removes, cleans, run, step, run_growth}
use hpxnode.Stats.Calls.{Settles}
use hpxnode.Stats.Conservation.{run-Settles}
use hpxnode.Stats.AllUsers.{get_users_stats-get_stats}
use hpxnode.Stats.Online.{}
use hpxnode.Stats.Interface.{based, Poll, poll_all, poll_all-based}

program : Unit {0}
unfolding build_delta_stats update_entry apply_sample update_stats_batch get_stats get_users_stats
    any_active_since remove_stats after_read reset_entry mark_removed entry_stats endpoint_activity
    cleanup_deleted_entries is_settled lookup insert delete sub64 run step run_growth
program = tt

abbrev sample : String → ℕ → ℕ → Sample
sample key rx tx = record {
  public_key = key;
  email = "u";
  rx = pos rx;
  tx = pos tx;
  endpoint_ip = "10.0.0.1";
}

-- A key is sampled, removed and added again before the panel reads, and its counter starts again.
abbrev history : List Call
history =
    samples (sample "a" 1000 2000) 5
    ∷ samples (sample "b" 7 7) 5
    ∷ removes "a"
    ∷ samples (sample "a" 40 0) 6
    ∷ samples (sample "a" 50 3) 7
    ∷ reads ("a" ∷ [])
    ∷ cleans
    ∷ samples (sample "a" 20 0) 8
    ∷ reads_all
    ∷ []

abbrev two_keys : Tracker
two_keys = update_stats_batch [] (sample "a" 1000 2000 ∷ sample "b" 7 7 ∷ []) 5

run-Settles_example :
    Settles "a"
      (run [] history)
      (0 + (run_growth "a" [] history).0)
      (0 + (run_growth "a" [] history).1)
unfolding program
run-Settles_example =
    run-Settles "a" [] history 0 0 tt (omega arith) (refl, refl) (omega arith) (omega arith)

growth_of_history : run_growth "a" [] history ≡ (1010, 2003)
unfolding program
growth_of_history = refl

get_users_stats-get_stats_example :
    get_users_stats true two_keys ≡ get_stats true (keys two_keys) two_keys
unfolding program
get_users_stats-get_stats_example = get_users_stats-get_stats true two_keys (refl, (refl, tt))

abbrev polls : List Poll
polls =
    record { rx = 120; tx = 30; reset = false }
    ∷ record { rx = 150; tx = 30; reset = true }
    ∷ record { rx = 160; tx = 90; reset = true }
    ∷ []

poll_all-based_example :
    (poll_all (based 100 20) polls).0
    ≡ based (100 + (poll_all (based 100 20) polls).1) (20 + (poll_all (based 100 20) polls).2)
poll_all-based_example = poll_all-based 100 20 polls (omega arith)
