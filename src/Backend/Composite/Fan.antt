-- ===== src/Backend/Composite/Fan.antt =====
-- backend/composite.go: which backends a call reaches, and what is made of their answers.
use hpxnode.Prelude.{
  ℕ, ◌≤◌, List, [], ◌∷◌, ◌++◌, Option, none, some, map, All, arith, ◌≡◌, refl, ap, subst,
}
use hpxnode.Backend.Composite.{
  Answer, err, nil, ok, SysStats, keep_first, fan_out, each, better, error_of, sys_stats_loop,
  items_of, merge_loop, merged_or_error, get_merged, best_or_empty, get_sys_stats,
}

-- The first error of the calls.
unfoldable pub first_error : {E : Type 0} → List (Option E) → Option E
first_error [] = none
first_error (none ∷ es) = first_error es
first_error (some e ∷ es) = some e

fan_out-map :
    {S E : Type 0} (call : S → S × Option E) (bs : List S) (e : Option E)
    → fan_out call bs e
      ≡ (map (λ b. (call b).0) bs, keep_first e (first_error (map (λ b. (call b).1) bs)))
unfolding fan_out first_error
fan_out-map call [] none = refl
fan_out-map call [] (some e) = refl
fan_out-map call (b ∷ bs) none = ground (arith, fan_out-map call bs (call b).1)
fan_out-map call (b ∷ bs) (some e) = ground (arith, fan_out-map call bs (some e))

-- A call of the whole reaches every backend, whatever the others answer, and its error is the
-- first one, in the order of the backends.
pub each-map :
    {S E : Type 0} (call : S → S × Option E) (bs : List S)
    → each call bs ≡ (map (λ b. (call b).0) bs, first_error (map (λ b. (call b).1) bs))
unfolding each
each-map call bs = fan_out-map call bs none

abbrev pub uptime_of : {E : Type 0} → Answer E SysStats → ℕ
uptime_of (err e) = 0
uptime_of nil = 0
uptime_of (ok s) = s.uptime

abbrev pub best_uptime : Option SysStats → ℕ
best_uptime none = 0
best_uptime (some s) = s.uptime

better-grows :
    {E : Type 0} (best : Option SysStats) (a : Answer E SysStats)
    → (best_uptime best ≤ best_uptime (better best a)) × (uptime_of a ≤ best_uptime (better best a))
better-grows none (err e) = ground arith
better-grows none nil = ground arith
better-grows none (ok s) = ground arith
better-grows (some b) (err e) = ground arith
better-grows (some b) nil = ground arith
better-grows (some b) (ok s) = ground arith

sys_stats_loop-greatest :
    {S E : Type 0} (ask : S → S × Answer E SysStats) (bs : List S) (best : Option SysStats)
    (e : Option E)
    → (best_uptime best ≤ best_uptime (sys_stats_loop ask bs best e).1.0)
      × All (λ b. uptime_of (ask b).1 ≤ best_uptime (sys_stats_loop ask bs best e).1.0) bs
unfolding sys_stats_loop
sys_stats_loop-greatest ask [] best e = (omega arith, tt)
sys_stats_loop-greatest ask (b ∷ bs) best e =
    let rest =
      sys_stats_loop-greatest ask bs (better best (ask b).1) (keep_first e (error_of (ask b).1)) in
    let grown = better-grows best (ask b).1 in
    (omega (arith, rest.0, grown.0), (omega (arith, rest.0, grown.1), rest.1))

best_or_empty-uptime :
    {E : Type 0} (r : Option SysStats × Option E) → best_uptime r.0 ≡ (best_or_empty r).0.uptime
best_or_empty-uptime (none, e) = refl
best_or_empty-uptime (some s, e) = refl

-- The statistics that are returned have at least the uptime of those of every backend that
-- answers.
pub get_sys_stats-greatest :
    {S E : Type 0} (ask : S → S × Answer E SysStats) (bs : List S)
    → All (λ b. uptime_of (ask b).1 ≤ (get_sys_stats ask bs).1.0.uptime) bs
unfolding get_sys_stats
get_sys_stats-greatest ask bs =
    subst (λ n. All (λ b. uptime_of (ask b).1 ≤ n) bs)
      (best_or_empty-uptime (sys_stats_loop ask bs none none).1)
      (sys_stats_loop-greatest ask bs none none).1

unfoldable pub concat : {R : Type 0} → List (List R) → List R
concat [] = []
concat (xs ∷ xss) = xs ++ concat xss

append_assoc : {R : Type 0} (xs ys zs : List R) → (xs ++ ys) ++ zs ≡ xs ++ (ys ++ zs)
append_assoc [] ys zs = refl
append_assoc (x ∷ xs) ys zs = ap (λ l. x ∷ l) (append_assoc xs ys zs)

append_nil : {R : Type 0} (xs : List R) → xs ++ [] ≡ xs
append_nil [] = refl
append_nil (x ∷ xs) = ap (λ l. x ∷ l) (append_nil xs)

merge_loop-concat :
    {S E R : Type 0} (ask : S → S × Answer E (List R)) (bs : List S) (merged : List R)
    (e : Option E)
    → merge_loop ask bs merged e ≡ (
      map (λ b. (ask b).0) bs,
      (
        merged ++ concat (map (λ b. items_of (ask b).1) bs),
        keep_first e (first_error (map (λ b. error_of (ask b).1) bs)),
      ),
    )
unfolding merge_loop concat first_error
merge_loop-concat ask [] merged none = ground (arith, append_nil merged)
merge_loop-concat ask [] merged (some e) = ground (arith, append_nil merged)
merge_loop-concat ask (b ∷ bs) merged none = ground (
  arith,
  merge_loop-concat ask bs (merged ++ items_of (ask b).1) (error_of (ask b).1),
  append_assoc merged (items_of (ask b).1) (concat (map (λ b. items_of (ask b).1) bs)),
)
merge_loop-concat ask (b ∷ bs) merged (some e) = ground (
  arith,
  merge_loop-concat ask bs (merged ++ items_of (ask b).1) (some e),
  append_assoc merged (items_of (ask b).1) (concat (map (λ b. items_of (ask b).1) bs)),
)

-- The merged answer holds the items of every backend that answers, in their order; it is an error,
-- the first one, exactly when there is no item and some backend fails.
pub get_merged-concat :
    {S E R : Type 0} (ask : S → S × Answer E (List R)) (bs : List S)
    → get_merged ask bs ≡ (
      map (λ b. (ask b).0) bs,
      merged_or_error (
        concat (map (λ b. items_of (ask b).1) bs),
        first_error (map (λ b. error_of (ask b).1) bs),
      ),
    )
unfolding get_merged
get_merged-concat ask bs = ap (λ r. (r.0, merged_or_error r.1)) (merge_loop-concat ask bs [] none)
