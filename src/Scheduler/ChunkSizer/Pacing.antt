-- ===== src/Scheduler/ChunkSizer/Pacing.antt =====
-- A request's chunk size depends on its own pulls only.
use mini.Base.{ℕ, ◌≡◌, refl, ℤ, Text, false, List, [], ◌∷◌, at_or, at_or-put, at_or-erase, text_eq}
use mini.Scheduler.ChunkSizer.{ChunkSizer, fresh, adapt, current, choose, decide, forget}
use mini.Scheduler.ChunkSizer.Calls.{Call, pull, drop_of, caller, apply, after}

abbrev pub AreOthers : Text → List Call → Type 0
AreOthers rid [] = Unit
AreOthers rid (k ∷ ks) = (text_eq (caller k) rid ≡ false) × AreOthers rid ks

-- Two sizers that serve `rid` alike.
pub record Agree (rid : Text) (c d : ChunkSizer) : Type 0 where
  pub pace : at_or rid fresh c.paces ≡ at_or rid fresh d.paces
  pub initial : c.initial ≡ d.initial
  pub min_rows : c.min_rows ≡ d.min_rows
  pub max_rows : c.max_rows ≡ d.max_rows
  pub target_ms : c.target_ms ≡ d.target_ms

apply-Agree :
    (rid : Text) (c d : ChunkSizer) (k : Call)
    → text_eq (caller k) rid ≡ false
    → Agree rid c d
    → Agree rid (apply c k) d
unfolding apply decide forget
apply-Agree rid c d (pull other hint now) ne a = record {
  pace = rw (at_or-put other rid fresh _ c.paces, ne) a.pace;
  initial = a.initial;
  min_rows = a.min_rows;
  max_rows = a.max_rows;
  target_ms = a.target_ms;
}
apply-Agree rid c d (drop_of other) ne a = record {
  pace = rw (at_or-erase other rid fresh c.paces, ne) a.pace;
  initial = a.initial;
  min_rows = a.min_rows;
  max_rows = a.max_rows;
  target_ms = a.target_ms;
}

after-Agree :
    (rid : Text) (c d : ChunkSizer) (ks : List Call)
    → AreOthers rid ks
    → Agree rid c d
    → Agree rid (after c ks) d
unfolding after
after-Agree rid c d [] o a = a
after-Agree rid c d (k ∷ ks) o a =
    after-Agree rid (apply c k) d ks o.1 (apply-Agree rid c d k o.0 a)

Agree-decide :
    (rid : Text) (c d : ChunkSizer) (hint : ℤ) (now : ℕ)
    → Agree rid c d
    → (decide c rid hint now).1 ≡ (decide d rid hint now).1
unfolding decide choose adapt current
Agree-decide rid c d hint now a = rw (a.pace, a.initial, a.min_rows, a.max_rows, a.target_ms)

-- No calls of other requests, their pulls and their drops, in any number and order, change the size
-- that a request is served next.
pub decide_isolated :
    (c : ChunkSizer) (rid : Text) (others : List Call) (hint : ℤ) (now : ℕ)
    → AreOthers rid others
    → (decide (after c others) rid hint now).1 ≡ (decide c rid hint now).1
decide_isolated c rid others hint now o = Agree-decide rid _ c hint now (
    after-Agree rid c c others o
      (record { pace = refl; initial = refl; min_rows = refl; max_rows = refl; target_ms = refl }))
