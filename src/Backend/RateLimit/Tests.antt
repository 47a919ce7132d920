-- ===== src/Backend/RateLimit/Tests.antt =====
-- The theorems on backend/ratelimit at concrete inputs, and runs of its code.
use hpxnode.Prelude.{ℕ, true, ◌≡◌, refl, List, [], ◌∷◌, none, String, string_eq, arith}
use hpxnode.Prelude.Dict.{lookup, insert, delete}
use hpxnode.Prelude.Text.{to_lower, contains, has_prefix}
use hpxnode.Backend.RateLimit.Marks.{fresh_mark, alloc_mark, release_mark, class_minor, mark_value}
use hpxnode.Backend.RateLimit.MarkLaws.{PoolCall, allocates, releases}
use hpxnode.Backend.RateLimit.Apply.{
  Client, Manager, new_manager, wanted_from, drop_departed, apply_addr, apply_addrs, insert_addr,
  sort_addrs, set_of, apply_state,
}
use hpxnode.Backend.RateLimit.Commands.{already_exists}
use hpxnode.Backend.RateLimit.Reconcile.{IsCoherent, new_manager-IsCoherent}
use hpxnode.Backend.RateLimit.Exact.{last_shaped, apply_state-IsCoherent, lookup-apply_state}

program : Unit {0}
unfolding lookup insert delete to_lower contains has_prefix fresh_mark alloc_mark release_mark
    class_minor mark_value wanted_from drop_departed apply_addr apply_addrs insert_addr sort_addrs
    set_of apply_state already_exists
program = tt

abbrev client : String → ℕ → Client
client address kbps = record { user = "u"; address = address; limit_kbps = kbps }

abbrev first_pass : List Client
first_pass = client "10.8.0.3" 800 ∷ client "10.8.0.2" 500 ∷ client "10.8.0.4" 0 ∷ []

abbrev second_pass : List Client
second_pass = client "10.8.0.5" 900 ∷ client "10.8.0.3" 700 ∷ []

abbrev after_first : Manager
after_first = apply_state ("eth0" ∷ []) first_pass new_manager

-- The mark of the client that left is handed to the one that came.
marks_after_second :
    (apply_state ("eth0" ∷ []) second_pass after_first).pool.marks
    ≡ ("10.8.0.3", 0x100001) ∷ ("10.8.0.5", 0x100000) ∷ []
unfolding program
marks_after_second = refl

tc_error : already_exists "Error: Exclusivity flag on, cannot modify." ≡ true
unfolding program
tc_error = refl

after_first-IsCoherent : IsCoherent after_first
after_first-IsCoherent =
    apply_state-IsCoherent ("eth0" ∷ []) first_pass new_manager new_manager-IsCoherent

abbrev pool_calls : List PoolCall
pool_calls = allocates "10.8.0.2" ∷ releases "10.8.0.2" ∷ allocates "10.8.0.3" ∷ []

apply_state-IsCoherent_example :
    IsCoherent (apply_state ("eth0" ∷ "tun0" ∷ []) second_pass after_first)
apply_state-IsCoherent_example =
    apply_state-IsCoherent ("eth0" ∷ "tun0" ∷ []) second_pass after_first after_first-IsCoherent

lookup-apply_state_example :
    lookup "10.8.0.3" (apply_state ("eth0" ∷ []) second_pass after_first).applied
    ≡ last_shaped "10.8.0.3" second_pass none
unfolding program
lookup-apply_state_example =
    lookup-apply_state ("eth0" ∷ []) second_pass after_first "10.8.0.3" after_first-IsCoherent
      (omega arith)
