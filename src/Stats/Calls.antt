-- ===== src/Stats/Calls.antt =====
-- What each call of pkg/stats/tracker.go does to the traffic that a key has still to report.
use hpxnode.Prelude.{
  ℕ, ◌+◌, ◌<◌, ◌≡◌, refl, ap, sym, ◌∙◌, subst, true, false, List, [], ◌∷◌, ◌++◌, Option, none, some,
  String, if◌then◌else◌, ◌==◌, string_eq, arith, inl, inr, Bool-cases, Option-cases,
}
use hpxnode.Prelude.Dict.{lookup, lookup-insert, lookup-delete, IsDict}
use hpxnode.Stats.Delta.{Stat, build_delta_stats}
use hpxnode.Stats.Entry.{Entry, Sample}
use hpxnode.Stats.Tracker.{
  Tracker, entry_or_new, apply_sample, get_stats, remove_stats, read_found, after_read, entry_stats,
  cleanup_deleted_entries, is_settled, mark_removed,
}
use hpxnode.Stats.Accounting.{
  Ledger, IsCounter, owed_stats, update_entry-Ledger, entry_stats-Ledger, reset_entry-Ledger,
  mark_removed-Ledger, new_entry-Ledger, is_settled-Ledger,
}
use hpxnode.Stats.History.{samples, reported, OwesEntry, OwesKey, call_growth}
use native.Mathlib.Nat.{add-zero}
use text.Mathlib.TextEquality.{eq_iff}

pub reported-append :
    (key type : String) (xs ys : List Stat)
    → reported key type (xs ++ ys) ≡ reported key type xs + reported key type ys
unfolding reported
reported-append key type [] ys = omega arith
reported-append key type (x ∷ xs) ys = omega (arith, reported-append key type xs ys)

-- What an entry's lines report for a key: all that is owed, if the entry is the key's.
reported-owed_stats :
    (key k email : String) (rx tx : ℕ)
    → (reported key "downlink" (owed_stats email k rx tx) ≡ (if k == key then rx else 0))
      × (reported key "uplink" (owed_stats email k rx tx) ≡ (if k == key then tx else 0))
unfolding reported
reported-owed_stats key k email rx tx = (ground arith, ground arith)

entry_or_new-Ledger :
    (o : Option Entry) (email : String) (rx tx : ℕ)
    → OwesEntry o rx tx
    → Ledger (entry_or_new o email) rx tx
entry_or_new-Ledger none email rx tx h = rw (h.0, h.1) (new_entry-Ledger email)
entry_or_new-Ledger (some e) email rx tx h = h

-- A sample adds its growth to what its key owes.
pub samples-OwesKey :
    (key : String) (st : Tracker) (s : Sample) (now rx tx : ℕ)
    → OwesKey key st rx tx
    → IsCounter s.rx
    → IsCounter s.tx
    → rx + (call_growth key st (samples s now)).0 < 0x8000000000000000
    → tx + (call_growth key st (samples s now)).1 < 0x8000000000000000
    → OwesKey key
        (apply_sample st s now)
        (rx + (call_growth key st (samples s now)).0)
        (tx + (call_growth key st (samples s now)).1)
unfolding apply_sample
samples-OwesKey key st s now rx tx o hr ht small_rx small_tx =
    elim (Bool-cases (s.public_key == key)) [
      | inl same ↦
          let at_key : lookup s.public_key st ≡ lookup key st =
            ap (λ k. lookup k st) ((eq_iff s.public_key key).0 same) in
          rw (lookup-insert s.public_key key _ st, same, at_key)
            (update_entry-Ledger (entry_or_new (lookup key st) s.email) s now rx tx
              (entry_or_new-Ledger (lookup key st) s.email rx tx o) hr ht (rw same at small_rx)
              (rw same at small_tx))
      | inr other ↦ simp (lookup-insert {V = Entry} s.public_key key, other, add-zero) o
    ]

-- The lines of another key's entry report nothing for the key.
reported_other :
    (key k type : String) (e : Entry) → (k == key) ≡ false → reported key type (entry_stats k e) ≡ 0
unfolding reported entry_stats build_delta_stats
reported_other key k type e other = ground arith

-- What a tracker owes for a key after a call that put `out` on the wire: the two together are what
-- it owed before.
abbrev pub Settles : String → Tracker × List Stat → ℕ → ℕ → Type 0
Settles key (st, out) rx tx =
    (rx' tx' : ℕ) × OwesKey key st rx' tx'
    × (rx' + reported key "downlink" out ≡ rx)
    × (tx' + reported key "uplink" out ≡ tx)

read_own :
    (key k : String) (st : Tracker) (e : Entry) (rx tx : ℕ)
    → (k == key) ≡ true
    → Ledger e rx tx
    → Settles key (after_read true k e st, entry_stats k e) rx tx
unfolding after_read
read_own key k st e rx tx same l = (
  0,
  0,
  elim (Bool-cases e.is_deleted) [
    | inl dead ↦ rw (dead, lookup-delete k key st, same) (refl, refl)
    | inr live ↦
        simp (live, lookup-insert {V = Entry} k key, same) (reset_entry-Ledger e rx tx l live)
  ],
  rw (entry_stats-Ledger k e rx tx l, (reported-owed_stats key k e.email rx tx).0, same)
      (omega arith),
  rw (entry_stats-Ledger k e rx tx l, (reported-owed_stats key k e.email rx tx).1, same)
      (omega arith),
)

read_other :
    (key k : String) (st : Tracker) (e : Entry) (rx tx : ℕ)
    → (k == key) ≡ false
    → OwesKey key st rx tx
    → Settles key (after_read true k e st, entry_stats k e) rx tx
unfolding after_read
read_other key k st e rx tx other o = (
  rx,
  tx,
  elim (Bool-cases e.is_deleted) [
    | inl dead ↦ rw (dead, lookup-delete k key st, other) o
    | inr live ↦ simp (live, lookup-insert {V = Entry} k key, other) o
  ],
  rw (reported_other key k "downlink" e other) (omega arith),
  rw (reported_other key k "uplink" e other) (omega arith),
)

-- One read with reset reports what its key owed, and the key owes nothing after it.
read_found-Settles :
    (key k : String) (st : Tracker) (rx tx : ℕ)
    → OwesKey key st rx tx
    → Settles key (read_found true k (lookup k st) st) rx tx
unfolding reported
read_found-Settles key k st rx tx o = elim (Option-cases (lookup k st)) [
  | inl e ↦ rw e (rx, tx, o, omega arith, omega arith)
  | inr (v, e) ↦ rw e (elim (Bool-cases (k == key)) [
    | inl same ↦
        read_own key k st v rx tx same (
          subst (λ w. OwesEntry w rx tx) (ap (λ j. lookup j st) (sym ((eq_iff k key).0 same)) ∙ e)
            o)
    | inr other ↦ read_other key k st v rx tx other o
  ])
]

pub get_stats-Settles :
    (key : String) (ks : List String) (st : Tracker) (rx tx : ℕ)
    → OwesKey key st rx tx
    → Settles key (get_stats true ks st) rx tx
unfolding get_stats reported
get_stats-Settles key [] st rx tx o = (rx, tx, o, omega arith, omega arith)
get_stats-Settles key (k ∷ ks) st rx tx o =
    let (rx₁, tx₁, o₁, down₁, up₁) = read_found-Settles key k st rx tx o in
    let (rx₂, tx₂, o₂, down₂, up₂) =
      get_stats-Settles key ks (read_found true k (lookup k st) st).0 rx₁ tx₁ o₁ in
    (
      rx₂,
      tx₂,
      o₂,
      omega (
        arith,
        down₁,
        down₂,
        reported-append key "downlink" (read_found true k (lookup k st) st).1
            (get_stats true ks (read_found true k (lookup k st) st).0).1,
      ),
      omega (
        arith,
        up₁,
        up₂,
        reported-append key "uplink" (read_found true k (lookup k st) st).1
            (get_stats true ks (read_found true k (lookup k st) st).0).1,
      ),
    )

pub removes-OwesKey :
    (key k : String) (st : Tracker) (rx tx : ℕ)
    → OwesKey key st rx tx
    → OwesKey key (remove_stats k st) rx tx
unfolding remove_stats
removes-OwesKey key k st rx tx o = elim (Option-cases (lookup k st)) [
  | inl e ↦ rw e o
  | inr (v, e) ↦
      rw (e, lookup-insert k key (mark_removed v) st)
        (elim (Bool-cases (k == key)) [
          | inl same ↦ rw same (
              mark_removed-Ledger v rx tx (
                subst (λ w. OwesEntry w rx tx)
                  (ap (λ j. lookup j st) (sym ((eq_iff k key).0 same)) ∙ e) o))
          | inr other ↦ rw other o
        ])
]

pub cleanup_lookup :
    (key : String) (st : Tracker)
    → lookup key st ≡ none
    → lookup key (cleanup_deleted_entries st) ≡ none
unfolding lookup cleanup_deleted_entries
cleanup_lookup key [] h = refl
cleanup_lookup key ((k, e) ∷ st) h = ground (arith, cleanup_lookup key st)

pub cleans-OwesKey :
    (key : String) (st : Tracker) (rx tx : ℕ)
    → IsDict st
    → OwesKey key st rx tx
    → OwesKey key (cleanup_deleted_entries st) rx tx
unfolding lookup cleanup_deleted_entries
cleans-OwesKey key [] rx tx d o = o
cleans-OwesKey key ((k, e) ∷ st) rx tx d o = elim (Bool-cases (k == key)) [
  | inl same ↦ elim (Bool-cases (is_settled e)) [
    | inl settled ↦ rw settled (
        subst (λ w. OwesEntry w rx tx) (sym (cleanup_lookup key st (gone same)))
          (is_settled-Ledger e rx tx (rw same at o) settled))
    | inr live ↦ rw (live, same) (rw same at o)
  ]
  | inr other ↦ elim (Bool-cases (is_settled e)) [
    | inl settled ↦ rw settled (cleans-OwesKey key st rx tx d.1 (rw other at o))
    | inr live ↦ rw (live, other) (cleans-OwesKey key st rx tx d.1 (rw other at o))
  ]
]
  where
    gone : (k == key) ≡ true → lookup key st ≡ none
    gone same = subst (λ j. lookup j st ≡ none) ((eq_iff k key).0 same) d.0
