-- ===== src/Backend/OpenVpn/Group.antt =====
-- backend/openvpn/group.go: one server for each listener of a core, all of them or none. What derive
-- and New answer is a parameter; New may answer by what was started and shut down before.
use hpxnode.Prelude.{ℕ, ◌+◌, List, [], ◌∷◌, ◌++◌, if◌then◌else◌, leb, length}

pub data Try (E A : Type 0) : Type 0 where
  fails : E → Try E A
  works : A → Try E A

-- What happens to the servers, in its order.
pub data Event (B : Type 0) : Type 0 where
  begun shut : B → Event B

abbrev pub shutdown_all : {B : Type 0} → List B → List (Event B)
shutdown_all [] = []
shutdown_all (b ∷ bs) = shut b ∷ shutdown_all bs

-- A single backend, or a composite of several.
pub data Group (B : Type 0) : Type 0 where
  single : B → Group B
  composite : List B → Group B

abbrev pub grouped :
    {B E : Type 0} → List (Event B) × Try E (List B) → List (Event B) × Try E (Group B)
grouped (log, fails e) = (log, fails e)
grouped (log, works bs) = (log, works (composite bs))

abbrev pub alone : {B E : Type 0} → Try E B → List (Event B) × Try E (Group B)
alone (fails e) = ([], fails e)
alone (works b) = (begun b ∷ [], works (single b))

module _ {C L B E : Type 0} (derive : L → ℕ → ℕ → Try E C)
    (new : List (Event B) → C → Try E B) where
  abbrev pub new_derived : List (Event B) → Try E C → Try E B
  new_derived log (fails e) = fails e
  new_derived log (works c) = new log c

  -- The loop over the listeners, from the i-th of `total` on.
  unfoldable pub start_all :
      ℕ → ℕ → List L → List B → List (Event B) → List (Event B) × Try E (List B)
  start_all total i [] started log = (log, works started)
  start_all total i (l ∷ ls) started log = elim (new_derived log (derive l i total)) [
    | fails e ↦ (log ++ shutdown_all started, fails e)
    | works b ↦ start_all total (i + 1) ls (started ++ (b ∷ [])) (log ++ (begun b ∷ []))
  ]

  -- NewBackend, on a config that is there.
  unfoldable pub new_backend : C → List L → List (Event B) × Try E (Group B)
  new_backend config listeners =
      if leb (length listeners) 1
      then alone (new [] config)
      else grouped (start_all (length listeners) 0 listeners [] [])
