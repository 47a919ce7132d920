-- ===== src/Backend/OpenVpn/AllOrNone.antt =====
-- backend/openvpn/group.go: which servers of a core run after its start.
use hpxnode.Prelude.{
  ℕ, ◌+◌, List, [], ◌∷◌, ◌++◌, leb, length, length-append, map, arith, ◌≡◌, refl, sym, ap, ◌∙◌, inl,
  inr, Bool-cases,
}
use hpxnode.Backend.OpenVpn.Group.{
  Try, fails, works, Event, begun, shut, shutdown_all, Group, single, composite, new_derived,
  start_all, grouped, alone, new_backend,
}

-- As many servers as asked for were begun, run, and are in the result, or all that were begun were
-- shut down again.
abbrev pub IsAllOrNone : {B E : Type 0} → ℕ → List (Event B) × Try E (List B) → Type 0
IsAllOrNone {B} n (log, fails e) = (bs : List B) × (log ≡ map begun bs ++ map shut bs)
IsAllOrNone n (log, works bs) = (log ≡ map begun bs) × (length bs ≡ n)

-- The same of a group.
abbrev pub IsWhole : {B E : Type 0} → ℕ → List (Event B) × Try E (Group B) → Type 0
IsWhole {B} n (log, fails e) = (bs : List B) × (log ≡ map begun bs ++ map shut bs)
IsWhole n (log, works (single b)) = log ≡ begun b ∷ []
IsWhole n (log, works (composite bs)) = (log ≡ map begun bs) × (length bs ≡ n)

shutdown_all-map : {B : Type 0} (bs : List B) → shutdown_all bs ≡ map shut bs
shutdown_all-map [] = refl
shutdown_all-map (b ∷ bs) = ap (λ l. shut b ∷ l) (shutdown_all-map bs)

map-snoc :
    {B : Type 0} (bs : List B) (b : B) → map begun (bs ++ (b ∷ [])) ≡ map begun bs ++ (begun b ∷ [])
map-snoc [] b = refl
map-snoc (c ∷ bs) b = ap (λ l. begun c ∷ l) (map-snoc bs b)

start_all-IsAllOrNone :
    {C L B E : Type 0} (derive : L → ℕ → ℕ → Try E C) (new : List (Event B) → C → Try E B)
    (total i n : ℕ) (ls : List L) (started : List B) (log : List (Event B))
    → log ≡ map begun started
    → length started + length ls ≡ n
    → IsAllOrNone n (start_all derive new total i ls started log)
unfolding start_all
start_all-IsAllOrNone derive new total i n [] started log so_far size =
    (so_far, omega (arith, size))
start_all-IsAllOrNone {B = B} {E = E} derive new total i n (l ∷ ls) started log so_far size =
    elim (new_derived derive new log (derive l i total))
      as (λ r.
        let next : List (Event B) × Try E (List B) = elim r [
          | fails e ↦ (log ++ shutdown_all started, fails e)
          | works b ↦
              start_all derive new total (i + 1) ls (started ++ (b ∷ [])) (log ++ (begun b ∷ []))
        ] in
        IsAllOrNone n next) [
          | fails e ↦ (
            started,
            ap (λ x. x ++ shutdown_all started) so_far
                ∙ ap (λ x. map begun started ++ x) (shutdown_all-map started),
          )
          | works b ↦
              start_all-IsAllOrNone derive new total (i + 1) n ls (started ++ (b ∷ []))
                (log ++ (begun b ∷ []))
                (ap (λ x. x ++ (begun b ∷ [])) so_far ∙ sym (map-snoc started b))
                (omega (arith, size, length-append started (b ∷ [])))
        ]

grouped-IsWhole :
    {B E : Type 0} (n : ℕ) (r : List (Event B) × Try E (List B))
    → IsAllOrNone n r
    → IsWhole n (grouped r)
grouped-IsWhole n (log, fails e) h = h
grouped-IsWhole n (log, works bs) h = h

alone-IsWhole : {B E : Type 0} (n : ℕ) (r : Try E B) → IsWhole n (alone r)
alone-IsWhole n (fails e) = ([], refl)
alone-IsWhole n (works b) = refl

-- Whatever derive and New answer, a core starts with one server, or with one for each of its
-- listeners, all running; or it fails, and every server that was begun is shut down again, in the
-- order of their start.
pub new_backend-IsWhole :
    {C L B E : Type 0} (derive : L → ℕ → ℕ → Try E C) (new : List (Event B) → C → Try E B)
    (config : C) (listeners : List L)
    → IsWhole (length listeners) (new_backend derive new config listeners)
unfolding new_backend
new_backend-IsWhole derive new config listeners = elim (Bool-cases (leb (length listeners) 1)) [
  | inl few ↦ rw few (alone-IsWhole (length listeners) (new [] config))
  | inr many ↦ rw many (
      grouped-IsWhole (length listeners) (start_all derive new (length listeners) 0 listeners [] [])
        (start_all-IsAllOrNone derive new (length listeners) 0 (length listeners) listeners [] []
          refl (omega arith)))
]
