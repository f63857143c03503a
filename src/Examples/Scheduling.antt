-- ===== src/Examples/Scheduling.antt =====
-- Chunk sizes of two requests, and the slots of a small queue (cpp/common/scheduler.cpp).
use mini.Base.{
  ℕ, ◌≡◌, refl, arith, inl, inr, true, pos, Text, codes, List, [], ◌∷◌, All, some, text_eq, ap,
  get_or,
}
use mini.Scheduler.ChunkSizer.{ChunkSizer, make, decide}
use mini.Scheduler.ChunkSizer.Calls.{Call, pull, drop_of, after, served}
use mini.Scheduler.ChunkSizer.Bounds.{Between, make-served_bounds}
use mini.Scheduler.ChunkSizer.Pacing.{decide_isolated}
use mini.Scheduler.FairScheduler
use mini.Scheduler.FairScheduler.{FairScheduler, Entry, next, size}
use mini.Scheduler.FairScheduler.Safety.{
  IsValid, Serves, run, make-run-IsValid, next-Serves, add_of, remove_of, next_slot,
}
use mini.Scheduler.FairScheduler.Cycle.{state, fulls}

abbrev calls : List Call
calls =
    pull (codes "a") (pos 0) 0
    ∷ pull (codes "b") (pos 100) 5
    ∷ drop_of (codes "b")
    ∷ pull (codes "a") (pos 0) 1_000_000
    ∷ []

make-served_bounds_example :
    All (Between (pos 16) (pos 4096)) (served (make (pos 64) (pos 16) (pos 4096) (pos 25)) calls)
make-served_bounds_example =
    make-served_bounds (pos 64) (pos 16) (pos 4096) (pos 25) calls (omega arith) (omega arith)
      (omega arith) (omega arith)

-- Request "a" has pulled once, at time 0.
abbrev started : ChunkSizer
started = record {
  initial = pos 64;
  min_rows = pos 16;
  max_rows = pos 4096;
  target_ms = pos 25;
  paces = (codes "a", record { cur = pos 64; last = 0; has_last = true }) ∷ [];
}

decide_isolated_example :
    (decide
      (after started (pull (codes "b") (pos 9) 3 ∷ drop_of (codes "c") ∷ []))
      (codes "a")
      (pos 0)
      4).1
    ≡ (decide started (codes "a") (pos 0) 4).1
unfolding text_eq codes
decide_isolated_example =
    decide_isolated started (codes "a") (pull (codes "b") (pos 9) 3 ∷ drop_of (codes "c") ∷ [])
      (pos 0) 4 (refl, (refl, tt))

make-run-IsValid_example :
    (t : FairScheduler) × (run (FairScheduler.make (codes "weighted_round_robin")) (
        add_of (codes "a") (pos 2)
        ∷ add_of (codes "b") (pos 1)
        ∷ next_slot
        ∷ remove_of (codes "a")
        ∷ [])
      ≡ some t)
    × IsValid t
make-run-IsValid_example = make-run-IsValid (codes "weighted_round_robin") (
    add_of (codes "a") (pos 2)
    ∷ add_of (codes "b") (pos 1)
    ∷ next_slot
    ∷ remove_of (codes "a")
    ∷ [])

abbrev queue : List (Text × ℕ)
queue = (codes "a", 1) ∷ (codes "b", 0) ∷ []

queue-IsValid : IsValid (state (codes "fifo") (fulls queue) 1)
unfolding codes
queue-IsValid = record {
  inside = omega arith;
  distinct = (
    λ m. elim m [ inl e ↦ absurd (omega (arith, ap (λ (t : Text). get_or t 0 0) e)) | inr x ↦ x ],
    (λ m. m, tt),
  );
}

next-Serves_example :
    Serves (state (codes "fifo") (fulls queue) 1) (next (state (codes "fifo") (fulls queue) 1))
unfolding size
next-Serves_example = next-Serves (state (codes "fifo") (fulls queue) 1) queue-IsValid (omega arith)
