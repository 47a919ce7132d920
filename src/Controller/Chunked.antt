-- ===== src/Controller/Chunked.antt =====
-- controller/users_chunk.go and controller/rpc/user.go: from chunks in any order to the users.
use hpxnode.Prelude.{
  ℕ, zero, suc, ◌+◌, ◌<◌, ◌≤◌, Bool, true, false, List, [], ◌∷◌, ◌++◌, ◌==◌, ℕ_eq, if◌then◌else◌,
  ltb, nat_eq_iff, length, map, All, is_some, arith, ◌≡◌, refl, sym, ap, ◌∙◌, subst, inl, inr,
  Bool-cases,
}
use native.Mathlib.Decide.{dec_lt}
use hpxnode.Prelude.Dict.{Dict, lookup, lookup-insert}
use hpxnode.Controller.Chunks.{
  Chunk, Received, received, bad, built, gathered, missing_index, invalid_argument, users_or_empty,
  with_chunk, collect_chunks, build_users_from_chunks, add_chunk, receive, answer,
  sync_users_chunked,
}

module _ {A : Type 0} where
  -- The users of the chunks of one index, in the order of their arrival.
  unfoldable pub users_at : ℕ → List (Chunk A) → List A
  users_at i [] = []
  users_at i (c ∷ cs) = let rest = users_at i cs in if c.index == i then c.users ++ rest else rest

  unfoldable pub arrives : ℕ → List (Chunk A) → Bool
  arrives i [] = false
  arrives i (c ∷ cs) = if c.index == i then true else arrives i cs

  -- The users of the indexes from i on, `count` of them.
  unfoldable pub in_order : List (Chunk A) → ℕ → ℕ → List A
  in_order cs i zero = []
  in_order cs i (suc count) = users_at i cs ++ in_order cs (i + 1) count

  unfoldable pub add_all : List (Chunk A) → Dict ℕ (List A) → Dict ℕ (List A)
  add_all [] chunks = chunks
  add_all (c ∷ cs) chunks = add_all cs (add_chunk c chunks)

  append_assoc : (xs ys zs : List A) → (xs ++ ys) ++ zs ≡ xs ++ (ys ++ zs)
  append_assoc [] ys zs = refl
  append_assoc (x ∷ xs) ys zs = ap (λ l. x ∷ l) (append_assoc xs ys zs)

  append_nil : (xs : List A) → xs ++ [] ≡ xs
  append_nil [] = refl
  append_nil (x ∷ xs) = ap (λ l. x ∷ l) (append_nil xs)

  users-add_all :
      (cs : List (Chunk A)) (chunks : Dict ℕ (List A)) (i : ℕ)
      → users_or_empty (lookup i (add_all cs chunks))
        ≡ users_or_empty (lookup i chunks) ++ users_at i cs
  unfolding add_all users_at
  users-add_all [] chunks i = sym (append_nil (users_or_empty (lookup i chunks)))
  users-add_all (c ∷ cs) chunks i = ground (
    arith,
    users-add_all cs (add_chunk c chunks) i,
    lookup-insert {V = List A} c.index i (users_or_empty (lookup c.index chunks) ++ c.users) chunks,
    append_assoc (users_or_empty (lookup c.index chunks)) c.users (users_at i cs),
    nat_eq_iff c.index i,
  )

  present-add_all :
      (cs : List (Chunk A)) (chunks : Dict ℕ (List A)) (i : ℕ)
      → is_some (lookup i (add_all cs chunks))
        ≡ (if is_some (lookup i chunks) then true else arrives i cs)
  unfolding add_all arrives
  present-add_all [] chunks i = ground arith
  present-add_all (c ∷ cs) chunks i = ground (
    arith,
    present-add_all cs (add_chunk c chunks) i,
    lookup-insert {V = List A} c.index i (users_or_empty (lookup c.index chunks) ++ c.users) chunks,
  )

  receive-add_all :
      (cs : List (Chunk A)) (final : Chunk A) (rest : List (Received A)) (chunks : Dict ℕ (List A))
      → All (λ c. c.last ≡ false) cs
      → final.last ≡ true
      → receive chunks (map received cs ++ (received final ∷ rest))
        ≡ gathered (add_all (cs ++ (final ∷ [])) chunks) final.index true
  unfolding receive add_all
  receive-add_all [] final rest chunks plain last = rw last refl
  receive-add_all (c ∷ cs) final rest chunks plain last =
      rw plain.0 (receive-add_all cs final rest (add_chunk c chunks) plain.1 last)

  collect_chunks-in_order :
      (cs : List (Chunk A)) (i count : ℕ)
      → ((j : ℕ) → i ≤ j → j < i + count → arrives j cs ≡ true)
      → collect_chunks (add_all cs []) i count ≡ built (in_order cs i count)
  unfolding collect_chunks in_order lookup
  collect_chunks-in_order cs i zero all = refl
  collect_chunks-in_order cs i (suc count) all = ground (
    arith,
    all i (omega arith) (omega arith),
    present-add_all cs [] i,
    users-add_all cs [] i,
    collect_chunks-in_order cs (i + 1) count
        (λ j above below. all j (omega (arith, above)) (omega (arith, below))),
  )

  collect_chunks-missing :
      (cs : List (Chunk A)) (i count k : ℕ)
      → i ≤ k
      → k < i + count
      → ((j : ℕ) → i ≤ j → j < k → arrives j cs ≡ true)
      → arrives k cs ≡ false
      → collect_chunks (add_all cs []) i count ≡ bad (missing_index k)
  unfolding collect_chunks lookup
  collect_chunks-missing cs i zero k above below all miss = absurd (omega (arith, above, below))
  collect_chunks-missing cs i (suc count) k above below all miss = elim (dec_lt i k) [
    | yes before ↦ ground (
      arith,
      all i (omega arith) before,
      present-add_all cs [] i,
      collect_chunks-missing cs (i + 1) count k (omega (arith, before)) (omega (arith, below))
          (λ j more less. all j (omega (arith, more)) less) miss,
    )
    | no here ↦
        let equal : k ≡ i = omega (arith, here, above) in
        subst
          (λ x.
            with_chunk x (lookup x (add_all cs [])) (collect_chunks (add_all cs []) (i + 1) count)
            ≡ bad (missing_index k))
          equal (ground (arith, miss, present-add_all cs [] k))
  ]

  module _ {S : Type 0} (update_users update_and_restart : List A → S → S × Bool) where
    -- When the chunk that is marked as the last arrives after chunks that are not, and every index
    -- up to its own has arrived, in whatever order, with some user among them, the backend gets
    -- the users in the order of the indexes: by a restart when they are more than 100, and by the
    -- plain update otherwise.
    pub sync_users_chunked_lem :
        (s : S) (cs : List (Chunk A)) (final : Chunk A) (rest : List (Received A)) (u : A)
        (us : List A)
        → All (λ c. c.last ≡ false) cs
        → final.last ≡ true
        → ((j : ℕ) → j ≤ final.index → arrives j (cs ++ (final ∷ [])) ≡ true)
        → in_order (cs ++ (final ∷ [])) 0 (final.index + 1) ≡ u ∷ us
        → sync_users_chunked update_users update_and_restart s
            (map received cs ++ (received final ∷ rest))
          ≡ answer (
              if ltb 100 (length (u ∷ us))
              then update_and_restart (u ∷ us) s
              else update_users (u ∷ us) s)
    unfolding sync_users_chunked build_users_from_chunks
    sync_users_chunked_lem s cs final rest u us plain last all order =
        let chunks = add_all (cs ++ (final ∷ [])) [] in
        let whole : collect_chunks chunks 0 (final.index + 1) ≡ built (u ∷ us) =
          collect_chunks-in_order (cs ++ (final ∷ [])) 0 (final.index + 1)
            (λ j above below. all j (omega (arith, below)))
          ∙ ap built order in
        rw (receive-add_all cs final rest [] plain last, whole)
          (elim (Bool-cases (ltb 100 (length (u ∷ us)))) [
            | inl many ↦ rw many refl
            | inr few ↦ rw few refl
          ])

    -- When the chunk that is marked as the last arrives after chunks that are not, and an index
    -- before its own has not arrived, the first such index is reported and the backend is left
    -- alone.
    pub sync_users_chunked-missing :
        (s : S) (cs : List (Chunk A)) (final : Chunk A) (rest : List (Received A)) (k : ℕ)
        → All (λ c. c.last ≡ false) cs
        → final.last ≡ true
        → k < final.index
        → ((j : ℕ) → j < k → arrives j (cs ++ (final ∷ [])) ≡ true)
        → arrives k (cs ++ (final ∷ [])) ≡ false
        → sync_users_chunked update_users update_and_restart s
            (map received cs ++ (received final ∷ rest))
          ≡ (s, invalid_argument (missing_index k))
    unfolding sync_users_chunked build_users_from_chunks
    sync_users_chunked-missing s cs final rest k plain last below all miss =
        rw
          (
            receive-add_all cs final rest [] plain last,
            collect_chunks-missing (cs ++ (final ∷ [])) 0 (final.index + 1) k (omega arith)
                (omega (arith, below)) (λ j above less. all j less) miss,
          )
          refl
