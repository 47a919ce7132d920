-- ===== src/Controller/Chunks.antt =====
-- controller/users_chunk.go and SyncUsersChunked of controller/rpc/user.go. The stream is the list
-- of what Recv returns, and ends with io.EOF. The backend's two calls are parameters, each with the
-- backend's state and whether it succeeds.
use hpxnode.Prelude.{
  ℕ, zero, suc, ◌+◌, Bool, true, false, not, List, [], ◌∷◌, ◌++◌, Option, none, some, ℕ_eq,
  if◌then◌else◌, ltb, length,
}
use hpxnode.Prelude.Dict.{Dict, lookup, insert}

pub record Chunk (A : Type 0) : Type 0 where
  pub index : ℕ
  pub users : List A
  pub last : Bool

pub data Received (A : Type 0) : Type 0 where
  received : Chunk A → Received A
  end_of_stream failed : Received A

pub data ChunkError : Type 0 where
  missing_final : ChunkError
  missing_index : ℕ → ChunkError
  no_users : ChunkError

pub data Built (A : Type 0) : Type 0 where
  bad : ChunkError → Built A
  built : List A → Built A

-- What the receiving loop ends with: the chunks, the index of the last one and whether it came.
pub data Gathered (A : Type 0) : Type 0 where
  broken : Gathered A
  gathered : Dict ℕ (List A) → ℕ → Bool → Gathered A

pub data Status : Type 0 where
  receive_failed : Status
  invalid_argument : ChunkError → Status
  update_failed done : Status

abbrev pub answer : {S : Type 0} → S × Bool → S × Status
answer (s, ok) = (s, if ok then done else update_failed)

module _ {A : Type 0} where
  abbrev pub users_or_empty : Option (List A) → List A
  users_or_empty none = []
  users_or_empty (some us) = us

  abbrev pub prepend_built : List A → Built A → Built A
  prepend_built us (bad e) = bad e
  prepend_built us (built vs) = built (us ++ vs)

  abbrev pub with_chunk : ℕ → Option (List A) → Built A → Built A
  with_chunk i none rest = bad (missing_index i)
  with_chunk i (some us) rest = prepend_built us rest

  -- The `count` chunks from index i on.
  unfoldable pub collect_chunks : Dict ℕ (List A) → ℕ → ℕ → Built A
  collect_chunks chunks i zero = built []
  collect_chunks chunks i (suc count) =
      with_chunk i (lookup i chunks) (collect_chunks chunks (i + 1) count)

  abbrev pub or_no_users : Built A → Built A
  or_no_users (bad e) = bad e
  or_no_users (built []) = bad no_users
  or_no_users (built (u ∷ us)) = built (u ∷ us)

  unfoldable pub build_users_from_chunks : Dict ℕ (List A) → ℕ → Bool → Built A
  build_users_from_chunks chunks last_index saw_last =
      if not saw_last
      then bad missing_final
      else or_no_users (collect_chunks chunks 0 (last_index + 1))

  -- `chunks[i] = append(chunks[i], users...)`
  abbrev pub add_chunk : Chunk A → Dict ℕ (List A) → Dict ℕ (List A)
  add_chunk c chunks = insert c.index (users_or_empty (lookup c.index chunks) ++ c.users) chunks

  unfoldable pub receive : Dict ℕ (List A) → List (Received A) → Gathered A
  receive chunks [] = gathered chunks 0 false
  receive chunks (end_of_stream ∷ rest) = gathered chunks 0 false
  receive chunks (failed ∷ rest) = broken
  receive chunks (received c ∷ rest) =
      let more = receive (add_chunk c chunks) rest in
      if c.last then gathered (add_chunk c chunks) c.index true else more

  module _ {S : Type 0} (update_users update_and_restart : List A → S → S × Bool) where
    abbrev pub deliver : S → Built A → S × Status
    deliver s (bad e) = (s, invalid_argument e)
    deliver s (built us) =
        if ltb 100 (length us) then answer (update_and_restart us s) else answer (update_users us s)

    abbrev pub deliver_gathered : S → Gathered A → S × Status
    deliver_gathered s broken = (s, receive_failed)
    deliver_gathered s (gathered chunks last_index saw_last) =
        deliver s (build_users_from_chunks chunks last_index saw_last)

    unfoldable pub sync_users_chunked : S → List (Received A) → S × Status
    sync_users_chunked s stream = deliver_gathered s (receive [] stream)
