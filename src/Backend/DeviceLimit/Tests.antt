-- ===== src/Backend/DeviceLimit/Tests.antt =====
-- The theorems on backend/devicelimit.go at concrete inputs, and a run of a pass.
use hpxnode.Prelude.{
  ◌⊎◌, ℕ, ◌≡◌, refl, List, [], ◌∷◌, Option, none, some, String, string_eq, ◌==◌, if◌then◌else◌,
  arith,
}
use hpxnode.Prelude.Dict.{lookup, insert}
use hpxnode.Backend.DeviceLimit.{
  Limiter, device_proto_rank, insert_by_rank, sort_by_rank, add_users, collect_users, find_limit,
  total_devices, hand_out, enforce_user, enforce_users, enforce_global_device_limits,
}
use hpxnode.Backend.DeviceLimit.Kept.{kept, total_kept, IsDistinct}
use hpxnode.Backend.DeviceLimit.Limits.{total_kept-enforce}
use hpxnode.Backend.DeviceLimit.Priority.{enforce-ByPriority}
use mathlib.Core.List.{mem-cons_self, mem-cons_of_mem}

program : Unit {0}
unfolding lookup insert device_proto_rank insert_by_rank sort_by_rank add_users collect_users
    find_limit total_devices hand_out enforce_user enforce_users enforce_global_device_limits
program = tt

abbrev limit_of : String → Option ℕ
limit_of user = if user == "ann" then some 3 else (if user == "bob" then some 0 else none)

abbrev l2tp : Limiter
l2tp = record {
  id = 0;
  protocol = "l2tp";
  online_device_counts = ("ann", 2) ∷ ("bob", 9) ∷ [];
  user_limit = limit_of;
}

abbrev openvpn : Limiter
openvpn = record {
  id = 1;
  protocol = "openvpn";
  online_device_counts = ("bob", 4) ∷ ("ann", 2) ∷ [];
  user_limit = limit_of;
}

abbrev ikev2 : Limiter
ikev2 = record {
  id = 2;
  protocol = "ikev2";
  online_device_counts = ("ann", 5) ∷ [];
  user_limit = limit_of;
}

abbrev node : List Limiter
node = l2tp ∷ openvpn ∷ ikev2 ∷ []

node-IsDistinct : IsDistinct node
node-IsDistinct = ((refl, (refl, tt)), ((refl, tt), (tt, tt)))

pass :
    enforce_global_device_limits node
    ≡ record { limiter = 2; user = "ann"; keep = 1 }
      ∷ record { limiter = 0; user = "ann"; keep = 0 }
      ∷ []
unfolding program
pass = refl

total_kept-enforce_example : total_kept "ann" (enforce_global_device_limits node) node ≡ 3
unfolding program
total_kept-enforce_example =
    total_kept-enforce "ann" 3 node node-IsDistinct (omega arith) refl (omega arith) (omega arith)

enforce-ByPriority_example :
    (total_kept "ann" (enforce_global_device_limits node) node ≡ 3)
    × ((kept 1 "ann" (enforce_global_device_limits node) 2 ≡ 2)
        ⊎ (kept 0 "ann" (enforce_global_device_limits node) 2 ≡ 0))
unfolding program
enforce-ByPriority_example =
    enforce-ByPriority "ann" 3 node openvpn l2tp node-IsDistinct (omega arith) refl (omega arith)
      (omega arith) (mem-cons_of_mem l2tp mem-cons_self) mem-cons_self (omega arith)
