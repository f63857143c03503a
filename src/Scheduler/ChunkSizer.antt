-- ===== src/Scheduler/ChunkSizer.antt =====
-- `ChunkSizer` (cpp/common/scheduler.cpp): how many rows the next chunk of a request may hold.
-- The steady clock is the argument `now`, in nanoseconds; the mutex makes each call one step. An
-- `int` wraps at 32 bits where its arithmetic overflows, which C++ leaves undefined.
pub mod Calls
pub mod Bounds
pub mod Pacing
use mini.Base.{
  ℕ, suc, ◌+◌, ◌-◌, ◌*◌, ◌/◌, ◌%◌, Bool, true, false, ltb, if◌then◌else◌, ℤ, pos, negsuc, sub_ℕ,
  ltb_ℤ, eqb_ℤ, min_ℤ, max_ℤ, div_ℕ, Text, Dict, at_or, put, erase, ◌*ℤ◌, [],
}

-- `ChunkSizer::State`, with its default values.
pub record Pace : Type 0 where
  pub cur : ℤ
  pub last : ℕ
  pub has_last : Bool

abbrev pub fresh : Pace
fresh = record { cur = pos 0; last = 0; has_last = false }

pub record ChunkSizer : Type 0 where
  pub initial : ℤ
  pub min_rows : ℤ
  pub max_rows : ℤ
  pub target_ms : ℤ
  pub paces : Dict Pace

unfoldable pub make : ℤ → ℤ → ℤ → ℤ → ChunkSizer
make initial min_rows max_rows target_ms = record {
  initial = initial;
  min_rows = min_rows;
  max_rows = max_rows;
  target_ms = target_ms;
  paces = [];
}

-- The `int` that a result wraps to.
unfoldable pub wrap_32 : ℤ → ℤ
wrap_32 (pos n) =
    let m = n % 4_294_967_296 in if ltb m 2_147_483_648 then pos m else negsuc (4_294_967_295 - m)
wrap_32 (negsuc n) =
    let m = n % 4_294_967_296 in if ltb m 2_147_483_648 then negsuc m else pos (4_294_967_295 - m)

-- `int(cur * 1.5) + 1`; the product is exact in a double, and the cast goes towards zero.
unfoldable pub grow : ℤ → ℤ
unfolding wrap_32
grow (pos n) = wrap_32 (pos (n * 3 / 2 + 1))
grow (negsuc n) = wrap_32 (sub_ℕ 1 (suc n * 3 / 2))

-- The steps between a faster and a slower consumer, after `dt` milliseconds.
unfoldable pub adapt : ChunkSizer → ℤ → ℤ → ℤ
unfolding grow
adapt c cur dt =
    if ltb_ℤ dt (div_ℕ c.target_ms 2)
    then min_ℤ c.max_rows (grow cur)
    else if ltb_ℤ (wrap_32 (c.target_ms *ℤ pos 2)) dt
    then max_ℤ c.min_rows (div_ℕ cur 2)
    else cur

-- `if (st.cur == 0) st.cur = initial_;`
unfoldable pub current : ChunkSizer → Pace → ℤ
current c st = if eqb_ℤ st.cur (pos 0) then c.initial else st.cur

-- The size that `decide` sets, from the state of the request.
unfoldable pub choose : ChunkSizer → Pace → ℤ → ℕ → ℤ
choose c st hint now =
    if ltb_ℤ (pos 0) hint
    then max_ℤ c.min_rows (min_ℤ c.max_rows hint)
    else if st.has_last
    then adapt c (current c st) (pos ((now - st.last) / 1_000_000))
    else current c st

-- The size to serve, and the state that the call leaves.
unfoldable pub decide : ChunkSizer → Text → ℤ → ℕ → ChunkSizer × ℤ
decide c rid hint now =
    let cur = choose c (at_or rid fresh c.paces) hint now in
    (record c { paces = put rid (record { cur = cur; last = now; has_last = true }) c.paces }, cur)

unfoldable pub forget : ChunkSizer → Text → ChunkSizer
forget c rid = record c { paces = erase rid c.paces }
