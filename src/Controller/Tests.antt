-- ===== src/Controller/Tests.antt =====
-- controller/rpc/user.go on three chunks that arrive out of order.
use hpxnode.Prelude.{
  ℕ, ◌≤◌, Bool, true, false, List, [], ◌∷◌, ◌++◌, ℕ_eq, if◌then◌else◌, ltb, length, map, arith, ◌≡◌,
  refl,
}
use hpxnode.Controller.Chunks.{Chunk, received, answer, sync_users_chunked}
use hpxnode.Controller.Chunked.{sync_users_chunked_lem, arrives, in_order, users_at}

-- The backend keeps the users it was last given.
abbrev take_users : List ℕ → List ℕ → List ℕ × Bool
take_users us s = (us, true)

abbrev chunk : ℕ → List ℕ → Bool → Chunk ℕ
chunk i us last = record { index = i; users = us; last = last }

covers :
    (j : ℕ)
    → j ≤ 2
    → arrives j (chunk 1 (7 ∷ []) false ∷ chunk 0 (5 ∷ 6 ∷ []) false ∷ chunk 2 [] true ∷ []) ≡ true
unfolding arrives
covers j h = ground (arith, h)

sync_users_chunked_lem_example :
    sync_users_chunked take_users take_users [] (
      map received (chunk 1 (7 ∷ []) false ∷ chunk 0 (5 ∷ 6 ∷ []) false ∷ [])
      ++ (received (chunk 2 [] true) ∷ []))
    ≡ answer (
        if ltb 100 (length {A = ℕ} (5 ∷ 6 ∷ 7 ∷ []))
        then take_users (5 ∷ 6 ∷ 7 ∷ []) []
        else take_users (5 ∷ 6 ∷ 7 ∷ []) [])
unfolding in_order users_at
sync_users_chunked_lem_example =
    sync_users_chunked_lem take_users take_users []
      (chunk 1 (7 ∷ []) false ∷ chunk 0 (5 ∷ 6 ∷ []) false ∷ []) (chunk 2 [] true) [] 5 (6 ∷ 7 ∷ [])
      (refl, (refl, tt)) refl covers refl
