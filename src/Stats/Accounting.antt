-- ===== src/Stats/Accounting.antt =====
-- The traffic that an entry has still to report, in pkg/stats/tracker.go.
use hpxnode.Prelude.{
  ℕ, ◌+◌, ◌-◌, ◌≤◌, ◌<◌, ◌≡◌, refl, ◌⊎◌, inl, inr, true, false, not, ◌||◌, arith, if◌then◌else◌,
  Bool-cases, String, List, [], ◌∷◌, ◌++◌, ltb,
}
use hpxnode.Prelude.Int.{
  ℤ, pos, pos_part, neg_part, sub64, ltb_ℤ, eq_ℤ, sub64_parts, parts_disjoint, eq_of_parts,
}
use hpxnode.Stats.Entry.{Entry, Sample, has_pending, update_entry, new_entry}
use hpxnode.Stats.Delta.{Stat, build_delta_stats}
use hpxnode.Stats.Tracker.{mark_removed, reset_entry, entry_stats, is_settled}
use native.Mathlib.Nat.{add-zero}

-- One direction of an entry owes `owed` bytes: the counter stands that far above the baseline.
pub record Owes (current base : ℤ) (owed : ℕ) : Type 0 where
  pub counts : neg_part current ≡ 0
  pub fits : pos_part current < 0x8000000000000000
  pub small : owed < 0x8000000000000000
  pub above : pos_part current + neg_part base ≡ pos_part base + owed

-- What an entry owes in both directions, with the deltas saved in a deleted entry equal to that.
pub record Ledger (e : Entry) (rx tx : ℕ) : Type 0 where
  pub down : Owes e.current_rx e.base_rx rx
  pub up : Owes e.current_tx e.base_tx tx
  pub saved :
      ((e.last_delta_rx ≡ pos 0) × (e.last_delta_tx ≡ pos 0))
      ⊎ ((e.is_deleted ≡ true) × (e.last_delta_rx ≡ pos rx) × (e.last_delta_tx ≡ pos tx))

-- A counter that an int64 holds and that is not negative.
abbrev pub IsCounter : ℤ → Type 0
IsCounter a = (neg_part a ≡ 0) × (pos_part a < 0x8000000000000000)

-- The bytes that a sample adds to what is owed: those since the last sample, unless a saved delta
-- is restored or either counter went back.
abbrev pub growth : Entry → Sample → ℕ × ℕ
growth e s =
    if (not (eq_ℤ e.last_delta_rx (pos 0)) || not (eq_ℤ e.last_delta_tx (pos 0)))
      || (ltb_ℤ s.rx e.current_rx || ltb_ℤ s.tx e.current_tx)
    then (0, 0)
    else (pos_part s.rx - pos_part e.current_rx, pos_part s.tx - pos_part e.current_tx)

abbrev added : Entry → Sample → ℕ × ℕ
added e s =
    if has_pending e || (ltb_ℤ s.rx e.current_rx || ltb_ℤ s.tx e.current_tx)
    then (0, 0)
    else (pos_part s.rx - pos_part e.current_rx, pos_part s.tx - pos_part e.current_tx)

-- The delta that a read reports is what is owed.
pub sub64-Owes : (c b : ℤ) (n : ℕ) → Owes c b n → sub64 c b ≡ pos n
sub64-Owes c b n h =
    eq_of_parts (sub64 c b) (pos n)
      (omega (arith, sub64_parts c b, parts_disjoint (sub64 c b), parts_disjoint b, h.above))

-- A baseline put `n` below a counter makes it owe `n`.
pub Owes-sub64 : (c : ℤ) (n : ℕ) → IsCounter c → n < 0x8000000000000000 → Owes c (sub64 c (pos n)) n
Owes-sub64 c n h k = record {
  counts = h.0;
  fits = h.1;
  small = k;
  above = omega (arith, sub64_parts c (pos n), h.0, h.1);
}

pub Owes-grow :
    (c c' b : ℤ) (n : ℕ)
    → Owes c b n
    → IsCounter c'
    → pos_part c ≤ pos_part c'
    → n + (pos_part c' - pos_part c) < 0x8000000000000000
    → Owes c' b (n + (pos_part c' - pos_part c))
Owes-grow c c' b n h k le small = record {
  counts = k.0;
  fits = k.1;
  small = small;
  above = omega (arith, h.above);
}

-- A saved delta is what the entry owes.
saved_owed :
    (e : Entry) (rx tx : ℕ)
    → Ledger e rx tx
    → has_pending e ≡ true
    → (e.last_delta_rx ≡ pos rx) × (e.last_delta_tx ≡ pos tx)
unfolding has_pending
saved_owed e rx tx l h = ground arith

module _ (e : Entry) (s : Sample) (now rx tx : ℕ) (l : Ledger e rx tx) where
  module _ (hr : IsCounter s.rx) (ht : IsCounter s.tx) where
    restored-Ledger : has_pending e ≡ true → Ledger (update_entry e s now) rx tx
    unfolding update_entry
    restored-Ledger h = record {
      down = ground (arith, Owes-sub64 s.rx rx hr l.down.small, saved_owed e rx tx l h);
      up = ground (arith, Owes-sub64 s.tx tx ht l.up.small, saved_owed e rx tx l h);
      saved = inl (ground arith, ground arith);
    }

    rolled_back-Ledger :
        has_pending e ≡ false
        → (ltb_ℤ s.rx e.current_rx || ltb_ℤ s.tx e.current_tx) ≡ true
        → Ledger (update_entry e s now) rx tx
    unfolding update_entry
    rolled_back-Ledger h back = record {
      down =
          ground (
            arith,
            Owes-sub64 s.rx rx hr l.down.small,
            sub64-Owes e.current_rx e.base_rx rx l.down,
          );
      up =
          ground
            (arith, Owes-sub64 s.tx tx ht l.up.small, sub64-Owes e.current_tx e.base_tx tx l.up);
      saved = inl (ground arith, ground arith);
    }

    grown-Ledger :
        has_pending e ≡ false
        → (ltb_ℤ s.rx e.current_rx || ltb_ℤ s.tx e.current_tx) ≡ false
        → rx + (pos_part s.rx - pos_part e.current_rx) < 0x8000000000000000
        → tx + (pos_part s.tx - pos_part e.current_tx) < 0x8000000000000000
        → Ledger
            (update_entry e s now)
            (rx + (pos_part s.rx - pos_part e.current_rx))
            (tx + (pos_part s.tx - pos_part e.current_tx))
    unfolding update_entry
    grown-Ledger h on small_rx small_tx = record {
      down =
          ground (arith, Owes-grow e.current_rx s.rx e.base_rx rx l.down hr, l.down.counts, hr.0);
      up = ground (arith, Owes-grow e.current_tx s.tx e.base_tx tx l.up ht, l.up.counts, ht.0);
      saved = inl (ground arith, ground arith);
    }

update_entry-added :
    (e : Entry) (s : Sample) (now rx tx : ℕ)
    → Ledger e rx tx
    → IsCounter s.rx
    → IsCounter s.tx
    → rx + (added e s).0 < 0x8000000000000000
    → tx + (added e s).1 < 0x8000000000000000
    → Ledger (update_entry e s now) (rx + (added e s).0) (tx + (added e s).1)
update_entry-added e s now rx tx l hr ht small_rx small_tx = elim (Bool-cases (has_pending e)) [
  | inl h ↦ rw (h, add-zero, add-zero) (restored-Ledger e s now rx tx l hr ht h)
  | inr h ↦ elim (Bool-cases (ltb_ℤ s.rx e.current_rx || ltb_ℤ s.tx e.current_tx)) [
    | inl back ↦ rw (h, back, add-zero, add-zero) (rolled_back-Ledger e s now rx tx l hr ht h back)
    | inr on ↦
        rw (h, on)
          (grown-Ledger e s now rx tx l hr ht h on (rw (h, on) at small_rx)
            (rw (h, on) at small_tx))
  ]
]

-- A sample adds its growth to what an entry owes, and loses nothing that was owed before.
pub update_entry-Ledger :
    (e : Entry) (s : Sample) (now rx tx : ℕ)
    → Ledger e rx tx
    → IsCounter s.rx
    → IsCounter s.tx
    → rx + (growth e s).0 < 0x8000000000000000
    → tx + (growth e s).1 < 0x8000000000000000
    → Ledger (update_entry e s now) (rx + (growth e s).0) (tx + (growth e s).1)
unfolding has_pending
update_entry-Ledger e s now rx tx l hr ht small_rx small_tx =
    update_entry-added e s now rx tx l hr ht small_rx small_tx

-- The lines that report `rx` bytes down and `tx` bytes up.
abbrev pub owed_stats : String → String → ℕ → ℕ → List Stat
owed_stats email key rx tx =
    (if ltb 0 tx
      then record { name = email; type = "uplink"; link = key; value = pos tx } ∷ []
      else [])
    ++ (if ltb 0 rx
        then record { name = email; type = "downlink"; link = key; value = pos rx } ∷ []
        else [])

-- A read reports exactly what the entry owes, and no line for a direction that owes nothing.
pub entry_stats-Ledger :
    (key : String) (e : Entry) (rx tx : ℕ)
    → Ledger e rx tx
    → entry_stats key e ≡ owed_stats e.email key rx tx
unfolding entry_stats build_delta_stats
entry_stats-Ledger key e rx tx l =
    rw (sub64-Owes e.current_rx e.base_rx rx l.down, sub64-Owes e.current_tx e.base_tx tx l.up)
      (ground arith)

pub reset_entry-Ledger :
    (e : Entry) (rx tx : ℕ) → Ledger e rx tx → e.is_deleted ≡ false → Ledger (reset_entry e) 0 0
unfolding reset_entry
reset_entry-Ledger e rx tx l live = ground arith

pub mark_removed-Ledger : (e : Entry) (rx tx : ℕ) → Ledger e rx tx → Ledger (mark_removed e) rx tx
unfolding mark_removed
mark_removed-Ledger e rx tx l = record {
  down = l.down;
  up = l.up;
  saved = inr (
    refl,
    sub64-Owes e.current_rx e.base_rx rx l.down,
    sub64-Owes e.current_tx e.base_tx tx l.up,
  );
}

pub new_entry-Ledger : (email : String) → Ledger (new_entry email) 0 0
new_entry-Ledger email = ground arith

-- An entry that the clean-up drops owes nothing.
pub is_settled-Ledger :
    (e : Entry) (rx tx : ℕ) → Ledger e rx tx → is_settled e ≡ true → (rx ≡ 0) × (tx ≡ 0)
unfolding is_settled
is_settled-Ledger e rx tx l h = ground arith
