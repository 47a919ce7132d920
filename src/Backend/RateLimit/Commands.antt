-- ===== src/Backend/RateLimit/Commands.antt =====
-- backend/ratelimit/ratelimit.go, apply.go and nft.go: the commands that Apply and Close run, and
-- the first error.
use hpxnode.Prelude.{
  ℕ, Bool, ◌||◌, List, [], ◌∷◌, ◌++◌, Option, none, some, String, string_eq, is_some, if◌then◌else◌,
}
use hpxnode.Prelude.Dict.{Dict, lookup, insert, keys}
use hpxnode.Prelude.Text.{codes, to_lower, contains}
use hpxnode.Backend.RateLimit.Marks.{
  Direction, download, upload, Pool, alloc_mark, class_minor, mark_value,
}
use hpxnode.Backend.RateLimit.Apply.{
  Client, Command, add_root, replace_default_class, replace_class, replace_filter, del_filter,
  del_class, del_root, add_table, add_chain, flush_chain, add_rule, delete_table, Host, Manager,
  wanted_from, drop_departed, apply_addr, sort_addrs, apply_state,
}

-- The commands that were run, and the error that came back.
abbrev pub Ran : Type 0
Ran = List Command × Option String

abbrev pub after_answer : Command → Option String → Ran → Ran
after_answer c (some err) rest = (c ∷ [], some err)
after_answer c none rest = (c ∷ rest.0, rest.1)

-- Commands in a row, up to the first that fails.
unfoldable pub run_until_error : Host → List Command → Ran
run_until_error host [] = ([], none)
run_until_error host (c ∷ cs) = let rest = run_until_error host cs in after_answer c (host c) rest

abbrev pub first_error : Option String → Option String → Option String
first_error none e = e
first_error (some err) e = some err

-- Two pieces of work that both run; the first error is kept.
abbrev pub both : Ran → Ran → Ran
both a b = (a.0 ++ b.0, first_error a.1 b.1)

-- Commands whose errors nobody reads.
abbrev pub unchecked : List Command → Ran
unchecked cs = (cs, none)

unfoldable pub already_exists : String → Bool
already_exists err =
    let s = to_lower (codes err) in
    contains s (codes "file exists") || contains s (codes "exclusivity flag")

abbrev pub after_root : Host → String → Option String → Ran
after_root host iface none =
    both (unchecked (add_root iface ∷ [])) (run_until_error host (replace_default_class iface ∷ []))
after_root host iface (some err) =
    if already_exists err
    then both (unchecked (add_root iface ∷ []))
        (run_until_error host (replace_default_class iface ∷ []))
    else (add_root iface ∷ [], some err)

unfoldable pub ensure_root : Host → String → Ran
ensure_root host iface = after_root host iface (host (add_root iface))

unfoldable pub ensure_roots : Host → List String → Ran
ensure_roots host [] = ([], none)
ensure_roots host (i ∷ ifaces) = both (ensure_root host i) (ensure_roots host ifaces)

unfoldable pub ensure_class : Host → String → ℕ → Direction → ℕ → Ran
ensure_class host iface mark dir kbps = run_until_error host (
    replace_class iface (class_minor mark dir) kbps
    ∷ replace_filter iface (mark_value mark dir) (class_minor mark dir)
    ∷ [])

unfoldable pub ensure_classes : Host → List String → ℕ → ℕ → Ran
ensure_classes host [] mark kbps = ([], none)
ensure_classes host (i ∷ ifaces) mark kbps =
    both (ensure_class host i mark download kbps)
      (both (ensure_class host i mark upload kbps) (ensure_classes host ifaces mark kbps))

unfoldable pub del_classes : List String → ℕ → List Command
del_classes [] mark = []
del_classes (i ∷ ifaces) mark =
    del_filter i (mark_value mark download)
    ∷ del_class i (class_minor mark download)
    ∷ del_filter i (mark_value mark upload)
    ∷ del_class i (class_minor mark upload)
    ∷ del_classes ifaces mark

-- The interfaces of the last pass, then the current ones that are not among them.
unfoldable pub add_ifaces : List String → Dict String (Unit {0}) → Dict String (Unit {0})
add_ifaces [] seen = seen
add_ifaces (i ∷ ifaces) seen = add_ifaces ifaces (insert i tt seen)

unfoldable pub iface_list : List String → Manager → List String
iface_list ifaces m = keys (add_ifaces ifaces m.iface_set)

abbrev pub del_marked : List String → Option ℕ → List Command
del_marked ifaces none = []
del_marked ifaces (some mark) = del_classes ifaces mark

unfoldable pub drop_commands :
    List String → Dict String Client → Dict String Client → Manager → List Command
drop_commands ifaces [] wanted m = []
drop_commands ifaces ((addr, c) ∷ applied) wanted m =
    let rest = drop_commands ifaces applied wanted m in
    if is_some (lookup addr wanted)
    then rest
    else del_marked (iface_list ifaces m) (lookup addr m.pool.marks) ++ rest

abbrev pub too_many : String
too_many = "too many shaped clients (max 254)"

abbrev pub classes_or_error : Host → List String → Client → Option (Pool × ℕ) → Ran
classes_or_error host ifaces c none = ([], some too_many)
classes_or_error host ifaces c (some (pool, mark)) = ensure_classes host ifaces mark c.limit_kbps

unfoldable pub apply_commands : Host → List String → Dict String Client → Manager → Ran
apply_commands host ifaces [] m = ([], none)
apply_commands host ifaces ((addr, c) ∷ addrs) m =
    both (classes_or_error host ifaces c (alloc_mark addr m.pool))
      (apply_commands host ifaces addrs (apply_addr addr c m))

abbrev pub rules_of : String → Option ℕ → List Command
rules_of addr none = []
rules_of addr (some mark) =
    add_rule addr download (mark_value mark download)
    ∷ add_rule addr upload (mark_value mark upload)
    ∷ []

unfoldable pub rules : List String → Dict String ℕ → List Command
rules [] marks = []
rules (addr ∷ addrs) marks = rules_of addr (lookup addr marks) ++ rules addrs marks

unfoldable pub sync_marks : Host → Manager → Ran
sync_marks host m =
    run_until_error host (add_table ∷ add_chain ∷ flush_chain ∷ rules (keys m.applied) m.pool.marks)

unfoldable pub del_roots : List String → List Command
del_roots [] = []
del_roots (i ∷ ifaces) = del_root i ∷ del_roots ifaces

unfoldable pub teardown_all : List String → Manager → List Command
teardown_all ifaces m = del_roots (iface_list ifaces m) ++ delete_table ∷ []

abbrev pub install_or_teardown : Host → List String → Dict String Client → Manager → Manager → Ran
install_or_teardown host ifaces [] dropped done = unchecked (teardown_all ifaces dropped)
install_or_teardown host ifaces (w ∷ wanted) dropped done =
    both (ensure_roots host ifaces)
      (both (apply_commands host ifaces (sort_addrs (w ∷ wanted)) dropped) (sync_marks host done))

-- Apply: the new state, the commands and the first error.
unfoldable pub apply : Host → List String → List Client → Manager → Manager × Ran
apply host ifaces clients m =
    let wanted = wanted_from clients [] in
    let dropped = drop_departed m.applied wanted m in
    let done = apply_state ifaces clients m in
    (
      done,
      both (unchecked (drop_commands ifaces m.applied wanted m))
          (install_or_teardown host ifaces wanted dropped done),
    )
