-- ===== src/Backend/RateLimit/MarkLaws.antt =====
-- backend/ratelimit/apply.go: who holds which mark.
use hpxnode.Prelude.{
  ℕ, ◌+◌, ◌%◌, ◌≤◌, ◌<◌, ◌≡◌, refl, ap, sym, subst, ◌⊎◌, inl, inr, ◌&&◌, List, [], ◌∷◌, Option,
  none, some, String, string_eq, ◌==◌, if◌then◌else◌, ltb, leb, length, arith, Option-cases,
}
use hpxnode.Prelude.Dict.{
  lookup, insert, IsDict, insert-IsDict, delete-IsDict, lookup-insert, lookup-delete,
}
use hpxnode.Prelude.DictLaws.{length-insert, length-delete}
use native.Mathlib.Decide.{dec_lt}
use text.Mathlib.TextEquality.{eq_iff}
use hpxnode.Backend.RateLimit.Marks.{
  first_mark, max_clients, Pool, new_pool, fresh_mark, mark_or_fresh, alloc_mark, release_mark,
}
use hpxnode.Backend.RateLimit.Values.{one_if, count, values, count-insert, count-delete}

-- A mark was handed out before, if it lies below the next one.
abbrev pub was_issued : ℕ → ℕ → ℕ
was_issued x next = one_if (leb first_mark x && ltb x next)

-- Each mark that was handed out is held by one address or is free, and not both; other marks are
-- neither. At most `max_clients` marks were handed out.
pub record IsSound (p : Pool) : Type 0 where
  pub dict : IsDict p.marks
  pub once : (x : ℕ) → count x (values p.marks) + count x p.freed ≡ was_issued x p.next_mark
  pub size : length p.marks + length p.freed + first_mark ≡ p.next_mark
  pub bounded : p.next_mark ≤ first_mark + max_clients

pub new_pool-IsSound : IsSound new_pool
new_pool-IsSound = record {
  dict = tt;
  once = λ x. ground arith;
  size = omega arith;
  bounded = omega arith;
}

module _ (addr : String) (p : Pool) (v : IsSound p) (new : lookup addr p.marks ≡ none) where
  taken-IsSound :
      (mark : ℕ) (freed : List ℕ)
      → p.freed ≡ mark ∷ freed
      → IsSound (record p { marks = insert addr mark p.marks; freed = freed })
  taken-IsSound mark freed f = record {
    dict = insert-IsDict addr mark p.marks v.dict;
    once = λ x. omega (arith, v.once x, ap (count x) f, count-insert x addr mark p.marks new);
    size = omega (arith, v.size, ap length f, length-insert addr mark p.marks new);
    bounded = v.bounded;
  }

  next-IsSound :
      p.next_mark < first_mark + max_clients
      → IsSound (record p {
        marks = insert addr p.next_mark p.marks;
        next_mark = (p.next_mark + 1) % 0x100000000;
      })
  next-IsSound room = record {
    dict = insert-IsDict addr p.next_mark p.marks v.dict;
    once = λ x. ground (arith, v.once x, count-insert x addr p.next_mark p.marks new, v.size);
    size = omega (arith, v.size, length-insert addr p.next_mark p.marks new, room);
    bounded = omega (arith, room);
  }

-- What an allocation for an address comes to: it fails, for a new address, when all marks are
-- held; or the address has a mark then, and the other addresses have what they had.
abbrev pub Allocated : String → Pool → Option (Pool × ℕ) → Type 0
Allocated addr p r =
    ((r ≡ none) × (lookup addr p.marks ≡ none) × (length p.marks ≡ max_clients))
    ⊎ ((q : Pool) × (mark : ℕ) × (r ≡ some (q, mark))
        × IsSound q
        × ((a : String) → lookup a q.marks ≡ (if addr == a then some mark else lookup a p.marks)))

fresh_mark-Allocated :
    (addr : String) (p : Pool) (freed : List ℕ)
    → IsSound p
    → lookup addr p.marks ≡ none
    → p.freed ≡ freed
    → Allocated addr p (fresh_mark addr p freed)
unfolding fresh_mark
fresh_mark-Allocated addr p (mark ∷ freed) v new f = inr (
  record p { marks = insert addr mark p.marks; freed = freed },
  mark,
  refl,
  taken-IsSound addr p v new mark freed f,
  λ a. lookup-insert addr a mark p.marks,
)
fresh_mark-Allocated addr p [] v new f = elim (dec_lt p.next_mark (first_mark + max_clients)) [
  | yes room ↦ inr (
    record p {
      marks = insert addr p.next_mark p.marks;
      next_mark = (p.next_mark + 1) % 0x100000000;
    },
    p.next_mark,
    ground (arith, v.size),
    next-IsSound addr p v new room,
    λ a. lookup-insert addr a p.next_mark p.marks,
  )
  | no full ↦ inl (ground (arith, v.bounded), new, omega (arith, v.size, v.bounded, ap length f))
]

-- From a sound pool an allocation fails only for a new address while 254 others hold all marks;
-- otherwise the address holds the mark that is returned, the other addresses keep theirs, and the
-- pool is sound again.
pub alloc_mark-Allocated :
    (addr : String) (p : Pool) → IsSound p → Allocated addr p (alloc_mark addr p)
unfolding alloc_mark
alloc_mark-Allocated addr p v = elim (Option-cases (lookup addr p.marks)) [
  | inl new ↦
      subst (Allocated addr p) (sym (ap (mark_or_fresh addr p) new))
        (fresh_mark-Allocated addr p p.freed v new refl)
  | inr (mark, old) ↦ inr (p, mark, rw old, v, λ a. ground (arith, eq_iff addr a))
]

pub release_mark-IsSound : (addr : String) (p : Pool) → IsSound p → IsSound (release_mark addr p)
unfolding release_mark
release_mark-IsSound addr p v = elim (Option-cases (lookup addr p.marks)) [
  | inl e ↦ rw e v
  | inr (mark, e) ↦ rw e (record {
    dict = delete-IsDict addr p.marks v.dict;
    once = λ x. omega (arith, v.once x, count-delete x addr mark p.marks v.dict e);
    size = omega (arith, v.size, length-delete addr mark p.marks v.dict e);
    bounded = v.bounded;
  })
]

pub lookup-release_mark :
    (addr a : String) (p : Pool)
    → lookup a (release_mark addr p).marks ≡ (if addr == a then none else lookup a p.marks)
unfolding release_mark
lookup-release_mark addr a p = elim (Option-cases (lookup addr p.marks)) [
  | inl e ↦ rw e (ground (arith, eq_iff addr a))
  | inr (mark, e) ↦ rw e (lookup-delete addr a p.marks)
]

-- The calls that change a pool, for an address.
pub data PoolCall : Type 0 where
  allocates : String → PoolCall
  releases : String → PoolCall

abbrev pub pool_or : Pool → Option (Pool × ℕ) → Pool
pool_or p none = p
pool_or p (some (q, mark)) = q

abbrev pub pool_step : Pool → PoolCall → Pool
pool_step p (allocates addr) = pool_or p (alloc_mark addr p)
pool_step p (releases addr) = release_mark addr p

abbrev pub pool_run : Pool → List PoolCall → Pool
pool_run p [] = p
pool_run p (c ∷ cs) = pool_run (pool_step p c) cs
