-- ===== src/Scheduler/ChunkSizer/Calls.antt =====
-- Histories of calls of one `ChunkSizer`.
use mini.Base.{ℕ, ℤ, Text, List, [], ◌∷◌}
use mini.Scheduler.ChunkSizer.{ChunkSizer, decide, forget}

-- One call of the sizer.
pub data Call : Type 0 where
  pull : Text → ℤ → ℕ → Call
  drop_of : Text → Call

abbrev pub caller : Call → Text
caller (pull rid hint now) = rid
caller (drop_of rid) = rid

unfoldable pub apply : ChunkSizer → Call → ChunkSizer
apply c (pull rid hint now) = (decide c rid hint now).0
apply c (drop_of rid) = forget c rid

-- The sizes that a history serves, in order.
unfoldable pub served : ChunkSizer → List Call → List ℤ
served c [] = []
served c (pull rid hint now ∷ ks) =
    (decide c rid hint now).1 ∷ served (apply c (pull rid hint now)) ks
served c (drop_of rid ∷ ks) = served (apply c (drop_of rid)) ks

unfoldable pub after : ChunkSizer → List Call → ChunkSizer
after c [] = c
after c (k ∷ ks) = after (apply c k) ks
