-- ===== src/Scheduler/FairScheduler/Cycle.antt =====
-- What `next` promises over a cycle: weighted shares, a round in order, or first come first served.
use mini.Base.{
  ℕ, zero, suc, ◌+◌, ◌%◌, ◌≡◌, false, pos, Text, codes, text_eq, List, [], ◌∷◌, ◌++◌, length,
  replicate, Option, none, some,
}
use mini.Scheduler.FairScheduler.{Entry, FairScheduler, next}

-- The requests that `n` calls of `next` serve, in order, and the state they leave.
unfoldable pub serve : ℕ → FairScheduler → Option (FairScheduler × List Text)
serve zero s = some (s, [])
serve (suc n) s = elim (next s) [
  | none ↦ none
  | some (t, rid) ↦ elim (serve n t) [ none ↦ none | some (u, rids) ↦ some (u, rid ∷ rids) ]
]

-- The mode is neither of the two that the code tests for.
abbrev pub IsWeighted : Text → Type 0
IsWeighted mode =
    (text_eq mode (codes "fifo") ≡ false) × (text_eq mode (codes "round_robin") ≡ false)

-- An entry of weight `w` ≥ 1 with its full credit.
abbrev pub full : Text × ℕ → Entry
full (rid, w) = record { rid = rid; weight = pos (suc w); credits = pos (suc w) }

abbrev pub fulls : List (Text × ℕ) → List Entry
fulls [] = []
fulls (x ∷ xs) = full x ∷ fulls xs

-- Each request as often as its weight, one after the other.
abbrev pub shares : List (Text × ℕ) → List Text
shares [] = []
shares ((rid, w) ∷ xs) = replicate (suc w) rid ++ shares xs

abbrev pub total : List (Text × ℕ) → ℕ
total [] = 0
total ((rid, w) ∷ xs) = suc w + total xs

-- The cursor stands on `e`, behind `before`.
abbrev pub state : Text → List Entry → ℕ → FairScheduler
state mode q cursor = record { mode = mode; q = q; cursor = cursor }

-- The cursor stands on `e`, behind `before`.
abbrev at : Text → List Entry → Entry → List Entry → FairScheduler
at mode before e after = state mode (before ++ e ∷ after) (length before)

abbrev wrapped : Text → List Entry → Entry → List Entry → FairScheduler
wrapped mode before e after =
    state mode (before ++ e ∷ after) ((length before + 1) % length (before ++ e ∷ after))

abbrev with_credits : Text → ℕ → ℕ → Entry
with_credits rid w k = record { rid = rid; weight = pos (suc w); credits = pos (suc k) }

abbrev all_rids : List Entry → List Text
all_rids [] = []
all_rids (e ∷ q) = e.rid ∷ all_rids q

abbrev round_robin : Text
round_robin = codes "round_robin"
