-- ===== src/Scheduler/FairScheduler.antt =====
-- `FairScheduler` (cpp/common/scheduler.hpp, scheduler.cpp): which request gets the next production
-- slot. The mutex makes each call one step. An `int` is an integer, and a read of `q_` out of bounds,
-- which the code does not guard, is the fault `none`.
pub mod Safety
pub mod Cycle
use mini.Base.{
  ℕ, zero, suc, ◌+◌, ◌%◌, Bool, true, false, leb, if◌then◌else◌, ℤ, pos, ltb_ℤ, eqb_ℤ, ◌-ℤ◌, Text,
  codes, text_eq, List, [], ◌∷◌, ◌++◌, length, get_elem?, set, Option, none, some,
}

pub record Entry : Type 0 where
  pub rid : Text
  pub weight : ℤ
  pub credits : ℤ

pub record FairScheduler : Type 0 where
  pub mode : Text
  pub q : List Entry
  pub cursor : ℕ

unfoldable pub make : Text → FairScheduler
make mode = record { mode = mode; q = []; cursor = 0 }

-- The loop of `add`: a known request gets a new weight and keeps its credits.
unfoldable pub add_to : Text → ℤ → List Entry → List Entry
add_to rid weight [] = record { rid = rid; weight = weight; credits = weight } ∷ []
add_to rid weight (e ∷ q) =
    if text_eq e.rid rid then record e { weight = weight } ∷ q else e ∷ add_to rid weight q

unfoldable pub add : FairScheduler → Text → ℤ → FairScheduler
add s rid weight = record s { q = add_to rid weight s.q }

-- The loop of `remove`, without the first entry of the request.
unfoldable pub remove_from : Text → List Entry → Option (List Entry)
remove_from rid [] = none
remove_from rid (e ∷ q) =
    let rest = remove_from rid q in
    if text_eq e.rid rid then some q else elim rest [ none ↦ none | some q' ↦ some (e ∷ q') ]

unfoldable pub remove : FairScheduler → Text → FairScheduler
remove s rid = elim (remove_from rid s.q) [
  | none ↦ s
  | some q ↦ record s { q = q; cursor = if leb (length q) s.cursor then 0 else s.cursor }
]

-- `cursor_ = (cursor_ + 1) % q_.size();`
unfoldable pub advance : FairScheduler → FairScheduler
advance s = record s { cursor = (s.cursor + 1) % length s.q }

-- `e.credits = n;` at the cursor.
unfoldable pub credit : FairScheduler → Entry → ℤ → FairScheduler
credit s e n = record s { q = set s.q s.cursor (record e { credits = n }) }

-- The slot goes to the entry at the cursor, which has credits left.
unfoldable pub spend : FairScheduler → Entry → FairScheduler × Text
unfolding advance credit
spend s e =
    if eqb_ℤ (e.credits -ℤ pos 1) (pos 0)
    then (advance (credit s e e.weight), e.rid)
    else (credit s e (e.credits -ℤ pos 1), e.rid)

-- The loop of `next` over a queue with front `first`, with `rounds` rounds left.
unfoldable pub next_from : ℕ → Text → FairScheduler → Option (FairScheduler × Text)
unfolding spend advance credit
next_from zero first s = some (s, first)
next_from (suc rounds) first s = elim (get_elem? s.q s.cursor) [
  | none ↦ none
  | some e ↦
      let later = next_from rounds first (advance (credit s e e.weight)) in
      if text_eq s.mode (codes "fifo")
      then some (s, first)
      else if text_eq s.mode (codes "round_robin")
      then some (advance s, e.rid)
      else if ltb_ℤ (pos 0) e.credits
      then some (spend s e)
      else later
]

-- `while (tries <= q_.size())` makes size + 1 rounds at most. No request is the empty text.
unfoldable pub next_of : List Entry → FairScheduler → Option (FairScheduler × Text)
unfolding next_from
next_of [] s = some (s, [])
next_of (e ∷ q) s = next_from (suc (length (e ∷ q))) e.rid s

unfoldable pub next : FairScheduler → Option (FairScheduler × Text)
unfolding next_of
next s = next_of s.q s

unfoldable pub size : FairScheduler → ℕ
size s = length s.q
