-- ===== src/Scheduler/FairScheduler/Safety/Turns.antt =====
-- A call of `next` (cpp/common/scheduler.cpp): it reads the queue in bounds and serves a request of it.
use mini.Base.{
  ℕ, zero, suc, ◌-◌, ◌≤◌, ◌<◌, ◌≡◌, refl, ap, ◌∙◌, inl, inr, arith, ℤ, pos, ltb_ℤ, eqb_ℤ, ◌-ℤ◌,
  Text, codes, text_eq, List, [], ◌∷◌, length, get_elem?, set, length-set, get_elem?_total, Option,
  none, some, Bool-cases, if_cases, In, AreDistinct,
}
use mini.Scheduler.FairScheduler.{
  Entry, FairScheduler, advance, credit, spend, next_from, next_of, next, size,
}

abbrev pub rids : List Entry → List Text
rids [] = []
rids (e ∷ q) = e.rid ∷ rids q

-- The cursor is inside the queue, or at 0 if that is empty, and no request is queued twice.
pub record IsValid (s : FairScheduler) : Type 0 where
  pub inside : s.cursor ≤ length s.q - 1
  pub distinct : AreDistinct (rids s.q)

-- What a call of `next` that serves `rid` may change.
pub record Turn (s t : FairScheduler) (rid : Text) : Type 0 where
  pub same_rids : rids t.q ≡ rids s.q
  pub same_length : length t.q ≡ length s.q
  pub same_mode : t.mode ≡ s.mode
  pub inside : t.cursor < length t.q
  pub listed : In rid (rids s.q)

-- The call does not fault, and serves a listed request.
abbrev pub Serves : FairScheduler → Option (FairScheduler × Text) → Type 0
Serves s none = ⊥
Serves s (some (t, rid)) = Turn s t rid

rids-set :
    (q : List Entry) (i : ℕ) (e f : Entry)
    → get_elem? q i ≡ some e
    → f.rid ≡ e.rid
    → rids (set q i f) ≡ rids q
rids-set [] i e f h r = refl
rids-set (x ∷ q) zero e f h r = ground arith
rids-set (x ∷ q) (suc i) e f h r = ap (◌∷◌ x.rid) (rids-set q i e f h r)

In-rids : (q : List Entry) (i : ℕ) (e : Entry) → get_elem? q i ≡ some e → In e.rid (rids q)
In-rids [] i e h = cc
In-rids (x ∷ q) zero e h = inl (ground arith)
In-rids (x ∷ q) (suc i) e h = inr (In-rids q i e h)

module _ (s : FairScheduler) (e : Entry) (here : get_elem? s.q s.cursor ≡ some e)
    (inside : s.cursor < length s.q) where
  credit-Turn : (n : ℤ) → Turn s (credit s e n) e.rid
  unfolding credit
  credit-Turn n = record {
    same_rids = rids-set s.q s.cursor e _ here refl;
    same_length = length-set s.q s.cursor _;
    same_mode = refl;
    inside = omega (arith, length-set s.q s.cursor (record e { credits = n }));
    listed = In-rids s.q s.cursor e here;
  }

  advance-Turn : (t : FairScheduler) → Turn s t e.rid → Turn s (advance t) e.rid
  unfolding advance
  advance-Turn t turn = record {
    same_rids = turn.same_rids;
    same_length = turn.same_length;
    same_mode = turn.same_mode;
    inside = grind (arith, turn.inside);
    listed = turn.listed;
  }

  spend-Turn : Serves s (some (spend s e))
  unfolding spend
  spend-Turn = elim (Bool-cases (eqb_ℤ (e.credits -ℤ pos 1) (pos 0))) [
    | inl empty ↦ rw empty (advance-Turn (credit s e e.weight) (credit-Turn e.weight))
    | inr left ↦ rw left (credit-Turn (e.credits -ℤ pos 1))
  ]

Turn-trans : {s t u : FairScheduler} {a b : Text} → Turn s t a → Turn t u b → Turn s u b
Turn-trans {s} {t} {u} {a} {b} x y = record {
  same_rids = y.same_rids ∙ x.same_rids;
  same_length = y.same_length ∙ x.same_length;
  same_mode = y.same_mode ∙ x.same_mode;
  inside = y.inside;
  listed = rw x.same_rids at y.listed;
}

Serves-trans :
    {s t : FairScheduler} {a : Text} (r : Option (FairScheduler × Text))
    → Turn s t a
    → Serves t r
    → Serves s r
Serves-trans none x y = y
Serves-trans (some (u, rid)) x y = Turn-trans x y

stay : (s : FairScheduler) (rid : Text) → In rid (rids s.q) → s.cursor < length s.q → Turn s s rid
stay s rid f inside = record {
  same_rids = refl;
  same_length = refl;
  same_mode = refl;
  inside = inside;
  listed = f;
}

next_from-Serves :
    (rounds : ℕ) (first : Text) (s : FairScheduler)
    → In first (rids s.q)
    → s.cursor < length s.q
    → Serves s (next_from rounds first s)
unfolding next_from
next_from-Serves zero first s f inside = stay s first f inside
next_from-Serves (suc rounds) first s f inside =
    let (e, here) = get_elem?_total s.q s.cursor inside in
    let moved =
      advance-Turn s e here inside (credit s e e.weight) (credit-Turn s e here inside e.weight) in
    let rest =
      next_from-Serves rounds first (advance (credit s e e.weight)) (rw moved.same_rids f)
        moved.inside in
    rw (here, next_from)
      (if_cases (Serves s) (text_eq s.mode (codes "fifo")) (λ _. stay s first f inside)
        λ _.
          if_cases (Serves s) (text_eq s.mode (codes "round_robin"))
            (λ _.
              advance-Turn s e here inside s (stay s e.rid (In-rids s.q s.cursor e here) inside))
            λ _.
              if_cases (Serves s) (ltb_ℤ (pos 0) e.credits) (λ _. spend-Turn s e here inside)
                λ _.
                  Serves-trans (next_from rounds first (advance (credit s e e.weight))) moved rest)

pub next_of-Serves :
    (q : List Entry) (s : FairScheduler)
    → s.q ≡ q
    → 0 < length q
    → s.cursor < length s.q
    → Serves s (next_of q s)
unfolding next_of
next_of-Serves [] s same some_q inside = absurd (omega arith)
next_of-Serves (e ∷ q) s same some_q inside =
    next_from-Serves (suc (length (e ∷ q))) e.rid s (rw same (inl refl)) inside

-- On a valid scheduler with requests, `next` reads the queue in bounds on every pass of its loop, in
-- each mode, and serves a request of the queue; it changes neither the requests nor their order, and
-- leaves the cursor inside.
pub next-Serves : (s : FairScheduler) → IsValid s → 0 < size s → Serves s (next s)
unfolding next size
next-Serves s v some_q = next_of-Serves s.q s refl some_q (omega (arith, v.inside))
