-- ===== src/Scheduler/ChunkSizer/Bounds.antt =====
-- Every chunk size lies between the configured limits, whatever the clients ask and however they pace.
use mini.Base.{
  ℕ, List, [], ◌∷◌, All, ◌∙◌, ◌-◌, ◌/◌, ◌≡◌, refl, ◌⊎◌, inl, inr, arith, ℤ, pos, negsuc, ◌≤ℤ◌,
  div_ℕ, Text, at_or, at_or-put-cases, at_or-erase-cases,
}
use mini.Scheduler.ChunkSizer.Calls.{Call, pull, drop_of, apply, served}
use mini.Scheduler.ChunkSizer.{
  ChunkSizer, Pace, fresh, make, wrap_32, grow, adapt, current, choose, decide, forget,
}

-- The limits are those of a sane configuration, 1 ≤ min ≤ initial ≤ max, and a size up to max still grows
-- within 32 bits.
pub record IsConfigured (c : ChunkSizer) : Type 0 where
  pub positive : pos 1 ≤ℤ c.min_rows
  pub min_le : c.min_rows ≤ℤ c.initial
  pub le_max : c.initial ≤ℤ c.max_rows
  pub fits : c.max_rows ≤ℤ pos 1_431_655_764

abbrev pub Within : ChunkSizer → ℤ → Type 0
Within c n = (c.min_rows ≤ℤ n) × (n ≤ℤ c.max_rows)

-- A request's state is untouched or holds a size within the limits.
abbrev pub IsPaced : ChunkSizer → Pace → Type 0
IsPaced c st = (st.cur ≡ pos 0) ⊎ Within c st.cur

pub record IsValid (c : ChunkSizer) : Type 0 where
  pub configured : IsConfigured c
  pub paced : (k : Text) → IsPaced c (at_or k fresh c.paces)

-- Up to here, growing does not overflow.
grow_above : (n : ℤ) → pos 0 ≤ℤ n → n ≤ℤ pos 1_431_655_764 → n ≤ℤ grow n
unfolding grow wrap_32
grow_above (pos n) h fits = ground arith
grow_above (negsuc n) h fits = absurd (omega arith)

halve_below : (n : ℤ) → pos 0 ≤ℤ n → div_ℕ n 2 ≤ℤ n
unfolding div_ℕ
halve_below n h = ground arith

adapt-Within :
    (c : ChunkSizer) (cur dt : ℤ) → IsConfigured c → Within c cur → Within c (adapt c cur dt)
unfolding adapt
adapt-Within c cur dt v w =
    let grown : cur ≤ℤ grow cur =
      grow_above cur (omega (arith, v.positive, w.0)) (omega (arith, v.fits, w.1)) in
    ground (arith, grown, halve_below cur)

current-Within :
    (c : ChunkSizer) (st : Pace) → IsConfigured c → IsPaced c st → Within c (current c st)
unfolding current
current-Within c st v w = ground arith

choose-Within :
    (c : ChunkSizer) (st : Pace) (hint : ℤ) (now : ℕ)
    → IsConfigured c
    → IsPaced c st
    → Within c (choose c st hint now)
unfolding choose
choose-Within c st hint now v w =
    let start = current-Within c st v w in
    ground (arith, start, adapt-Within c (current c st) (pos ((now - st.last) / 1_000_000)) v start)

IsConfigured-of :
    {c d : ChunkSizer}
    → IsConfigured c
    → d.min_rows ≡ c.min_rows
    → d.initial ≡ c.initial
    → d.max_rows ≡ c.max_rows
    → IsConfigured d
IsConfigured-of v p q r = record {
  positive = rw p v.positive;
  min_le = rw (p, q) v.min_le;
  le_max = rw (q, r) v.le_max;
  fits = rw r v.fits;
}

-- Under such a configuration a chunk size lies between the limits,
-- whatever the hint and the clock, and the call keeps every request's state so.
pub decide_bounds :
    (c : ChunkSizer) (rid : Text) (hint : ℤ) (now : ℕ)
    → IsValid c
    → Within c (decide c rid hint now).1 × IsValid (decide c rid hint now).0
unfolding decide
decide_bounds c rid hint now v = (
  inside,
  record {
    configured = IsConfigured-of v.configured refl refl refl;
    paced = λ k. at_or-put-cases (IsPaced c) rid k fresh _ c.paces (inr inside) (v.paced k);
  },
)
  where
    inside : Within c (choose c (at_or rid fresh c.paces) hint now)
    inside = choose-Within c (at_or rid fresh c.paces) hint now v.configured (v.paced rid)

make-IsValid :
    (initial min_rows max_rows target : ℤ)
    → pos 1 ≤ℤ min_rows
    → min_rows ≤ℤ initial
    → initial ≤ℤ max_rows
    → max_rows ≤ℤ pos 1_431_655_764
    → IsValid (make initial min_rows max_rows target)
unfolding make at_or
make-IsValid initial min_rows max_rows target p q r f = record {
  configured = record { positive = p; min_le = q; le_max = r; fits = f };
  paced = λ k. inl refl;
}

forget-IsValid : (c : ChunkSizer) (rid : Text) → IsValid c → IsValid (forget c rid)
unfolding forget
forget-IsValid c rid v = record {
  configured = IsConfigured-of v.configured refl refl refl;
  paced = λ k. at_or-erase-cases (IsPaced c) rid k fresh c.paces (inl refl) (v.paced k);
}

make-limits :
    (initial min_rows max_rows target : ℤ)
    → ((make initial min_rows max_rows target).min_rows ≡ min_rows)
      × ((make initial min_rows max_rows target).max_rows ≡ max_rows)
unfolding make
make-limits initial min_rows max_rows target = (refl, refl)

decide-limits :
    (c : ChunkSizer) (rid : Text) (hint : ℤ) (now : ℕ)
    → ((decide c rid hint now).0.min_rows ≡ c.min_rows)
      × ((decide c rid hint now).0.max_rows ≡ c.max_rows)
unfolding decide
decide-limits c rid hint now = (refl, refl)

forget-limits :
    (c : ChunkSizer) (rid : Text)
    → ((forget c rid).min_rows ≡ c.min_rows) × ((forget c rid).max_rows ≡ c.max_rows)
unfolding forget
forget-limits c rid = (refl, refl)

abbrev pub Between : ℤ → ℤ → ℤ → Type 0
Between lo hi n = (lo ≤ℤ n) × (n ≤ℤ hi)

Between-of : (n : ℤ) {a b lo hi : ℤ} → a ≡ lo → b ≡ hi → Between a b n → Between lo hi n
Between-of n p q h = rw (p, q) at h

served_bounds :
    (ks : List Call) (c : ChunkSizer) (lo hi : ℤ)
    → IsValid c
    → c.min_rows ≡ lo
    → c.max_rows ≡ hi
    → All (Between lo hi) (served c ks)
unfolding served apply
served_bounds [] c lo hi v p q = tt
served_bounds (pull rid hint now ∷ ks) c lo hi v p q =
    let (inside, valid) = decide_bounds c rid hint now v in
    let (same_min, same_max) = decide-limits c rid hint now in
    (
      Between-of (decide c rid hint now).1 p q inside,
      served_bounds ks (decide c rid hint now).0 lo hi valid (same_min ∙ p) (same_max ∙ q),
    )
served_bounds (drop_of rid ∷ ks) c lo hi v p q =
    let (same_min, same_max) = forget-limits c rid in
    served_bounds ks (forget c rid) lo hi (forget-IsValid c rid v) (same_min ∙ p) (same_max ∙ q)

-- A sizer made with 1 ≤ min ≤ initial ≤ max, and max at most 1431655764, beyond which growing by half
-- overflows an `int`, serves sizes between min and max only, over any history of pulls and drops of any
-- requests, with any hints and clock readings.
pub make-served_bounds :
    (initial min_rows max_rows target : ℤ) (ks : List Call)
    → pos 1 ≤ℤ min_rows
    → min_rows ≤ℤ initial
    → initial ≤ℤ max_rows
    → max_rows ≤ℤ pos 1_431_655_764
    → All (Between min_rows max_rows) (served (make initial min_rows max_rows target) ks)
make-served_bounds initial min_rows max_rows target ks p q r f =
    served_bounds ks _ min_rows max_rows (make-IsValid initial min_rows max_rows target p q r f)
      (make-limits initial min_rows max_rows target).0
      (make-limits initial min_rows max_rows target).1
