-- ===== src/Backend/RateLimit/Apply.antt =====
-- backend/ratelimit/ratelimit.go, apply.go and nft.go: Apply, Close and the commands that they run.
-- What the host answers to a command, an error's text or none, is a parameter; log lines and the
-- error's wrapping are left out.
use hpxnode.Prelude.{
  ℕ, ◌||◌, List, [], ◌∷◌, Option, none, some, String, string_eq, ◌==◌, if◌then◌else◌, nat_eq,
  is_some,
}
use Prim.Native.String.{compare}
use text.Mathlib.Text.{is_lt}
use hpxnode.Prelude.Dict.{Dict, lookup, insert, delete}
use hpxnode.Backend.RateLimit.Marks.{Direction, Pool, new_pool, alloc_mark, release_mark}

pub record Client : Type 0 where
  pub user : String
  pub address : String
  pub limit_kbps : ℕ

-- The commands, by what they say of the interface, the class (its minor number), the filter (its
-- mark) and the rate.
pub data Command : Type 0 where
  add_root : String → Command
  replace_default_class : String → Command
  replace_class : String → ℕ → ℕ → Command
  replace_filter : String → ℕ → ℕ → Command
  del_filter : String → ℕ → Command
  del_class : String → ℕ → Command
  del_root : String → Command
  add_table : Command
  add_chain : Command
  flush_chain : Command
  add_rule : String → Direction → ℕ → Command
  delete_table : Command

abbrev pub Host : Type 0
Host = Command → Option String

pub record Manager : Type 0 where
  pub applied : Dict String Client
  pub pool : Pool
  pub iface_set : Dict String (Unit {0})

abbrev pub new_manager : Manager
new_manager = record { applied = []; pool = new_pool; iface_set = [] }

-- The clients with an address and a limit, the last for each address.
unfoldable pub wanted_from : List Client → Dict String Client → Dict String Client
wanted_from [] wanted = wanted
wanted_from (c ∷ clients) wanted =
    wanted_from clients
      (if c.address == "" || nat_eq c.limit_kbps 0 then wanted else insert c.address c wanted)

-- An applied address that is not wanted gives up its mark and leaves the applied set.
unfoldable pub drop_departed : Dict String Client → Dict String Client → Manager → Manager
drop_departed [] wanted m = m
drop_departed ((addr, c) ∷ applied) wanted m = drop_departed applied wanted (
    if is_some (lookup addr wanted)
    then m
    else record m { applied = delete addr m.applied; pool = release_mark addr m.pool })

-- One wanted address: it gets a mark and is applied, or there is no mark left.
abbrev pub apply_marked : String → Client → Manager → Option (Pool × ℕ) → Manager
apply_marked addr c m none = m
apply_marked addr c m (some (pool, mark)) = record m {
  applied = insert addr c m.applied;
  pool = pool;
}

unfoldable pub apply_addr : String → Client → Manager → Manager
apply_addr addr c m = apply_marked addr c m (alloc_mark addr m.pool)

unfoldable pub apply_addrs : Dict String Client → Manager → Manager
apply_addrs [] m = m
apply_addrs ((addr, c) ∷ addrs) m = apply_addrs addrs (apply_addr addr c m)

unfoldable pub set_of : List String → Dict String (Unit {0})
set_of [] = []
set_of (i ∷ ifaces) = insert i tt (set_of ifaces)

-- `sort.Strings` of the wanted addresses.
unfoldable pub insert_addr : String → Client → Dict String Client → Dict String Client
insert_addr addr c [] = (addr, c) ∷ []
insert_addr addr c ((a, d) ∷ sorted) =
    let rest = insert_addr addr c sorted in
    if is_lt (compare addr a) then (addr, c) ∷ (a, d) ∷ sorted else (a, d) ∷ rest

unfoldable pub sort_addrs : Dict String Client → Dict String Client
sort_addrs [] = []
sort_addrs ((addr, c) ∷ wanted) = insert_addr addr c (sort_addrs wanted)

abbrev pub or_teardown : Dict String Client → Manager → Manager
or_teardown [] m = new_manager
or_teardown (w ∷ wanted) m = m

-- The state that Apply leaves: no answer of the host decides over it. With nothing to shape it is
-- that of a new manager.
unfoldable pub apply_state : List String → List Client → Manager → Manager
apply_state ifaces clients m =
    let wanted = wanted_from clients [] in
    or_teardown wanted
      (record (apply_addrs (sort_addrs wanted) (drop_departed m.applied wanted m)) {
        iface_set = set_of ifaces;
      })
