-- ===== src/Backend/Composite/Tests.antt =====
-- backend/composite.go over two backends, of which the first fails.
use hpxnode.Prelude.{ℕ, ◌+◌, List, [], ◌∷◌, Option, none, some, if◌then◌else◌, nat_eq}
use hpxnode.Backend.Composite.{Answer, err, ok, SysStats, no_stats}
use hpxnode.Backend.Composite.Fan.{}

-- A backend is a number; the call fails on 0 and counts the others up.
abbrev bump : ℕ → ℕ × Option ℕ
bump n = if nat_eq n 0 then (0, some 7) else (n + 1, none)

abbrev ask_uptime : ℕ → ℕ × Answer ℕ SysStats
ask_uptime n = if nat_eq n 0 then (0, err 7) else (n, ok (record no_stats { uptime = n }))

abbrev ask_items : ℕ → ℕ × Answer ℕ (List ℕ)
ask_items n = if nat_eq n 0 then (0, err 7) else (n, ok (n ∷ []))
