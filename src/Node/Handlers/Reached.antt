-- ===== src/Node/Handlers/Reached.antt =====
-- The retries of a forward in `SubmitQuery` (cpp/server/node.cpp), against what they are to do.
use mini.Base.{ℕ, zero, suc, ◌+◌, ◌<◌, ◌↔◌, ◌⊎◌, arith, ◌≡◌, refl, ap, ◌∙◌, true, inl, inr}
use mini.Node.Handlers.{Attempt, served, transient, refused, deliver, is_delivered}

Attempt-cases : (a : Attempt) → (a ≡ served) ⊎ (a ≡ transient) ⊎ (a ≡ refused)
Attempt-cases served = inl refl
Attempt-cases transient = inr (inl refl)
Attempt-cases refused = inr (inr refl)

first_then :
    (P : ℕ → Type 0) (k : ℕ) → P 0 → ((j : ℕ) → j < k → P (suc j)) → (j : ℕ) → j < suc k → P j
first_then P k first rest zero lt = first
first_then P k first rest (suc j) lt = rest j (omega arith)

-- One of the first `n` forwards, counted from `i`, came back with status OK, and all before it with a
-- transient error.
abbrev GetsThrough : ℕ → ℕ → (ℕ → Attempt) → Type 0
GetsThrough n i outcome =
    (k : ℕ) × (k < n) × (outcome (i + k) ≡ served) × ((j : ℕ) → j < k → outcome (i + j) ≡ transient)

deliver-GetsThrough :
    (n i : ℕ) (outcome : ℕ → Attempt) → deliver n i outcome ≡ true → GetsThrough n i outcome
unfolding deliver
deliver-GetsThrough zero i outcome h = cc
deliver-GetsThrough (suc n) i outcome h = elim (Attempt-cases (outcome i)) [
  | inl done ↦ (0, omega arith, ap outcome (omega arith) ∙ done, λ j lt. absurd (omega arith))
  | inr (inr refusal) ↦ absurd (cc (rw (deliver, refusal) at h))
  | inr (inl again) ↦
      let (k, lt, done, before) =
        deliver-GetsThrough n (suc i) outcome (rw (deliver, again) at h) in
      (
        suc k,
        omega arith,
        ap outcome (omega arith) ∙ done,
        first_then (λ j. outcome (i + j) ≡ transient) k (ap outcome (omega arith) ∙ again)
            λ j less. ap outcome (omega arith) ∙ before j less,
      )
]

GetsThrough-deliver :
    (n i : ℕ) (outcome : ℕ → Attempt) → GetsThrough n i outcome → deliver n i outcome ≡ true
unfolding deliver
GetsThrough-deliver zero i outcome (k, lt, done, before) = absurd (omega arith)
GetsThrough-deliver (suc n) i outcome (zero, lt, done, before) =
    let now : outcome i ≡ served = ap outcome (omega arith) ∙ done in rw (deliver, now) refl
GetsThrough-deliver (suc n) i outcome (suc k, lt, done, before) =
    let again : outcome i ≡ transient = ap outcome (omega arith) ∙ before 0 (omega arith) in
    rw (deliver, again)
      (GetsThrough-deliver n (suc i) outcome (
        k,
        omega arith,
        ap outcome (omega arith) ∙ done,
        λ j less. ap outcome (omega arith) ∙ before (suc j) (omega arith),
      ))

-- The loop over the forwards of an owner comes to an OK: at most twenty are tried, and none behind an
-- error that is not transient.
abbrev pub IsReached : (ℕ → Attempt) → Type 0
IsReached outcome =
    (k : ℕ) × (k < 20) × (outcome k ≡ served) × ((j : ℕ) → j < k → outcome j ≡ transient)

pub is_delivered_iff : (outcome : ℕ → Attempt) → (is_delivered outcome ≡ true) ↔ IsReached outcome
is_delivered_iff outcome = (
  λ h.
      let (k, lt, done, before) = deliver-GetsThrough 20 0 outcome h in
      (k, lt, ap outcome (omega arith) ∙ done, λ j less. ap outcome (omega arith) ∙ before j less),
  λ (k, lt, done, before).
      GetsThrough-deliver 20 0 outcome (
        k,
        lt,
        ap outcome (omega arith) ∙ done,
        λ j less. ap outcome (omega arith) ∙ before j less,
      ),
)
