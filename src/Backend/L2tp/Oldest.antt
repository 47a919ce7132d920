-- ===== src/Backend/L2tp/Oldest.antt =====
-- backend/l2tp/devicelimit.go and stats.go: which sessions are ended.
use hpxnode.Prelude.{
  ℕ, suc, zero, ◌⊎◌, ◌≤◌, ◌<◌, true, false, List, [], ◌∷◌, ◌++◌, leb, leb→le, length-take-le,
  length, take, drop, All, arith, ◌≡◌, refl, ap, sym, subst, Bool-cases, inl, inr,
}
use hpxnode.Prelude.Int.{ℤ, ltb_ℤ, ◌≤ℤ◌}
use hpxnode.Backend.L2tp.Sessions.{
  Session, insert_by_start, sort_by_start, terminated, enforce_user,
}
use mathlib.Core.List.{Perm, append-nil}
use mathlib.Core.List.Perm

-- No session of the list started before the time.
abbrev pub After : ℤ → List Session → Type 0
After time ss = All (λ s. time ≤ℤ s.started) ss

-- The starts do not fall.
abbrev pub IsOldestFirst : List Session → Type 0
IsOldestFirst [] = Unit
IsOldestFirst (s ∷ ss) = After s.started ss × IsOldestFirst ss

After-weaken : (a b : ℤ) (ss : List Session) → a ≤ℤ b → After b ss → After a ss
After-weaken a b [] h ps = tt
After-weaken a b (s ∷ ss) h ps = (omega arith, After-weaken a b ss h ps.1)

insert_by_start-After :
    (a : ℤ) (s : Session) (ss : List Session)
    → a ≤ℤ s.started
    → After a ss
    → After a (insert_by_start s ss)
unfolding insert_by_start
insert_by_start-After a s [] h ps = (h, tt)
insert_by_start-After a s (t ∷ ts) h ps = elim (Bool-cases (ltb_ℤ t.started s.started)) [
  | inl older ↦ rw older (ps.0, insert_by_start-After a s ts h ps.1)
  | inr newer ↦ rw newer (h, ps)
]

insert_by_start-IsOldestFirst :
    (s : Session) (ss : List Session) → IsOldestFirst ss → IsOldestFirst (insert_by_start s ss)
unfolding insert_by_start
insert_by_start-IsOldestFirst s [] o = (tt, tt)
insert_by_start-IsOldestFirst s (t ∷ ts) o = elim (Bool-cases (ltb_ℤ t.started s.started)) [
  | inl older ↦ rw older (
    insert_by_start-After t.started s ts (ground arith) o.0,
    insert_by_start-IsOldestFirst s ts o.1,
  )
  | inr newer ↦
      let le : s.started ≤ℤ t.started = ground arith in
      rw newer ((le, After-weaken s.started t.started ts le o.0), o)
]

sort_by_start-IsOldestFirst : (ss : List Session) → IsOldestFirst (sort_by_start ss)
unfolding sort_by_start
sort_by_start-IsOldestFirst [] = tt
sort_by_start-IsOldestFirst (s ∷ ss) =
    insert_by_start-IsOldestFirst s (sort_by_start ss) (sort_by_start-IsOldestFirst ss)

insert_by_start-perm : (s : Session) (ss : List Session) → Perm (insert_by_start s ss) (s ∷ ss)
unfolding insert_by_start
insert_by_start-perm s [] = Perm.refl (s ∷ [])
insert_by_start-perm s (t ∷ ts) = elim (Bool-cases (ltb_ℤ t.started s.started)) [
  | inl older ↦ rw older (Perm.trans (Perm.cons t (insert_by_start-perm s ts)) (Perm.swap s t ts))
  | inr newer ↦ rw newer (Perm.refl (s ∷ t ∷ ts))
]

sort_by_start-perm : (ss : List Session) → Perm (sort_by_start ss) ss
unfolding sort_by_start
sort_by_start-perm [] = Perm.refl []
sort_by_start-perm (s ∷ ss) =
    Perm.trans (insert_by_start-perm s (sort_by_start ss)) (Perm.cons s (sort_by_start-perm ss))

-- Sessions parted into the oldest ones, of a number at most, and those to be ended.
pub record Parted (limit : ℕ) (ss ended : List Session) : Type 0 where
  pub kept : List Session
  pub excess : List Session
  pub all : Perm (kept ++ excess) ss
  pub within : length kept ≤ limit
  pub full : excess ≡ [] ⊎ (length kept ≡ limit)
  pub oldest : All (λ s. After s.started excess) kept
  pub ends : ended ≡ terminated excess

take-drop : (n : ℕ) (ss : List Session) → (take n ss ++ drop n ss) ≡ ss
take-drop zero ss = refl
take-drop (suc n) [] = refl
take-drop (suc n) (s ∷ ss) = ap (λ r. s ∷ r) (take-drop n ss)

take-length : (n : ℕ) (ss : List Session) → drop n ss ≡ [] ⊎ (length (take n ss) ≡ n)
take-length zero ss = inr refl
take-length (suc n) [] = inl refl
take-length (suc n) (s ∷ ss) = elim (take-length n ss) [
  | inl none_left ↦ inl none_left
  | inr full ↦ inr (omega arith)
]

After-drop : (a : ℤ) (n : ℕ) (ss : List Session) → After a ss → After a (drop n ss)
After-drop a zero ss ps = ps
After-drop a (suc n) [] ps = tt
After-drop a (suc n) (s ∷ ss) ps = After-drop a n ss ps.1

take-oldest :
    (n : ℕ) (ss : List Session)
    → IsOldestFirst ss
    → All (λ s. After s.started (drop n ss)) (take n ss)
take-oldest zero ss o = tt
take-oldest (suc n) [] o = tt
take-oldest (suc n) (s ∷ ss) o = (After-drop s.started n ss o.0, take-oldest n ss o.1)

parted : (n : ℕ) (ss : List Session) → Parted n ss (terminated (drop n (sort_by_start ss)))
parted n ss =
    let sorted = sort_by_start ss in
    record {
      kept = take n sorted;
      excess = drop n sorted;
      all = subst (λ r. Perm r ss) (sym (take-drop n sorted)) (sort_by_start-perm ss);
      within = length-take-le n sorted;
      full = take-length n sorted;
      oldest = take-oldest n sorted (sort_by_start-IsOldestFirst ss);
      ends = refl;
    }

nothing_over : (ss : List Session) → All (λ s. After s.started []) ss
nothing_over [] = tt
nothing_over (s ∷ ss) = (tt, nothing_over ss)

kept_whole : (n : ℕ) (ss : List Session) → length ss ≤ n → Parted n ss []
unfolding terminated
kept_whole n ss h = record {
  kept = ss;
  excess = [];
  all = subst (λ r. Perm r ss) (sym (append-nil ss)) (Perm.refl ss);
  within = h;
  full = inl refl;
  oldest = nothing_over ss;
  ends = refl;
}

under :
    (limit : ℕ) (mine : List Session)
    → 0 < limit
    → length mine < 0x100000000
    → leb (length mine) limit ≡ true
    → enforce_user limit mine ≡ []
unfolding enforce_user
under limit mine limited small few = ground arith

over :
    (limit : ℕ) (mine : List Session)
    → 0 < limit
    → length mine < 0x100000000
    → leb (length mine) limit ≡ false
    → enforce_user limit mine ≡ terminated (drop limit (sort_by_start mine))
unfolding enforce_user
over limit mine limited small many = ground arith

-- A poll ends, of the sessions of a user with a limit, which are fewer than 2^32, those that a host
-- can end beyond the oldest ones: the limit at most, and that many if any are over.
pub enforce_user-oldest :
    (limit : ℕ) (mine : List Session)
    → 0 < limit
    → length mine < 0x100000000
    → Parted limit mine (enforce_user limit mine)
enforce_user-oldest limit mine limited small = elim (Bool-cases (leb (length mine) limit)) [
  | inl few ↦
      subst (Parted limit mine) (sym (under limit mine limited small few))
        (kept_whole limit mine (leb→le (length mine) limit few))
  | inr many ↦
      subst (Parted limit mine) (sym (over limit mine limited small many)) (parted limit mine)
]
