-- ===== src/Scheduler/FairScheduler/Safety.antt =====
-- The queue of a scheduler: its cursor stays inside it, its requests are distinct, and a slot goes to
-- one of them.
use mini.Base.{
  ℕ, zero, suc, ◌-◌, ◌≤◌, ◌<◌, ◌≡◌, refl, ap, ◌∙◌, ◌⊎◌, inl, inr, arith, ℤ, pos, ltb_ℤ, eqb_ℤ, ◌-ℤ◌,
  Text, codes, text_eq, text_eq_iff, List, [], ◌∷◌, length, get_elem?, set, length-set,
  get_elem?_total, Option, none, some, Option-cases, Bool-cases, Sum-map, if_cases, sym, In,
  AreDistinct,
}
use mathlib.Core.Option
use mini.Scheduler.FairScheduler.{
  Entry, FairScheduler, make, add, add_to, remove, remove_from, advance, credit, spend, next_from,
  next_of, next, size,
}
pub use mini.Scheduler.FairScheduler.Safety.Turns.{rids, IsValid, Serves, next-Serves}
use mini.Scheduler.FairScheduler.Safety.Turns.{Turn, next_of-Serves}
pub mod Turns

In-add_to :
    (x rid : Text) (weight : ℤ) (q : List Entry)
    → In x (rids (add_to rid weight q))
    → (rid ≡ x) ⊎ In x (rids q)
unfolding add_to
In-add_to x rid weight [] m = m
In-add_to x rid weight (e ∷ q) m =
    if_cases (λ (r : List Entry). In x (rids r) → (rid ≡ x) ⊎ In x (rids (e ∷ q)))
      (text_eq e.rid rid) (λ _ old. inr old)
      (λ _. elim [
        | inl here ↦ inr (inl here)
        | inr old ↦ Sum-map (λ h. h) inr (In-add_to x rid weight q old)
      ])
      m

-- A queue without one entry of `rid`.
record Removed (rid : Text) (q q' : List Entry) : Type 0 where
  shorter : length q ≡ suc (length q')
  fewer : (x : Text) → In x (rids q') → In x (rids q)
  distinct : AreDistinct (rids q) → AreDistinct (rids q')

abbrev Removes : Text → List Entry → Option (List Entry) → Type 0
Removes rid q none = ¬ In rid (rids q)
Removes rid q (some q') = Removed rid q q'

Removed-tail :
    (rid : Text) (e : Entry) (q q' : List Entry) → Removed rid q q' → Removed rid (e ∷ q) (e ∷ q')
Removed-tail rid e q q' r = record {
  shorter = omega (arith, r.shorter);
  fewer = λ x. Sum-map (λ h. h) (r.fewer x);
  distinct = λ d. (λ m. d.0 (r.fewer e.rid m), r.distinct d.1);
}

Removes-tail :
    (rid : Text) (e : Entry) (q : List Entry) (r : Option (List Entry))
    → ¬ (e.rid ≡ rid)
    → Removes rid q r
    → Removes rid (e ∷ q) (elim r [ none ↦ none | some q' ↦ some (e ∷ q') ])
Removes-tail rid e q none ne h = elim [ inl same ↦ ne same | inr m ↦ h m ]
Removes-tail rid e q (some q') ne h = Removed-tail rid e q q' h

remove_from-Removes : (rid : Text) (q : List Entry) → Removes rid q (remove_from rid q)
unfolding remove_from
remove_from-Removes rid [] = λ m. m
remove_from-Removes rid (e ∷ q) =
    if_cases (Removes rid (e ∷ q)) (text_eq e.rid rid)
      (λ _. record { shorter = refl; fewer = λ x. inr; distinct = λ d. d.1 })
      λ other.
        Removes-tail rid e q (remove_from rid q)
          (λ same. cc (sym other ∙ (text_eq_iff e.rid rid).1 same)) (remove_from-Removes rid q)

add_to-distinct :
    (rid : Text) (weight : ℤ) (q : List Entry)
    → AreDistinct (rids q)
    → AreDistinct (rids (add_to rid weight q))
unfolding add_to
add_to-distinct rid weight [] d = (λ m. m, tt)
add_to-distinct rid weight (e ∷ q) d =
    if_cases (λ (r : List Entry). AreDistinct (rids r)) (text_eq e.rid rid) (λ _. d)
      λ other. (
        λ m. elim (In-add_to e.rid rid weight q m) [
          | inl same ↦ cc (sym other ∙ (text_eq_iff e.rid rid).1 (sym same))
          | inr old ↦ d.0 old
        ],
        add_to-distinct rid weight q d.1,
      )

length-add_to : (rid : Text) (weight : ℤ) (q : List Entry) → length q ≤ length (add_to rid weight q)
unfolding add_to
length-add_to rid weight [] = omega arith
length-add_to rid weight (e ∷ q) = ground (arith, length-add_to rid weight q)

pub make-IsValid : (mode : Text) → IsValid (make mode)
unfolding make
make-IsValid mode = record { inside = omega arith; distinct = tt }

pub add-IsValid :
    (s : FairScheduler) (rid : Text) (weight : ℤ) → IsValid s → IsValid (add s rid weight)
unfolding add
add-IsValid s rid weight v = record {
  inside = omega (arith, v.inside, length-add_to rid weight s.q);
  distinct = add_to-distinct rid weight s.q v.distinct;
}

pub remove-IsValid : (s : FairScheduler) (rid : Text) → IsValid s → IsValid (remove s rid)
unfolding remove
remove-IsValid s rid v = elim (Option-cases (remove_from rid s.q)) [
  | inl missing ↦ rw (missing, remove) v
  | inr (q, found) ↦
      let r : Removed rid s.q q = rw found at (remove_from-Removes rid s.q) in
      rw (found, remove) (record { inside = ground arith; distinct = r.distinct v.distinct })
]

Serves-IsValid :
    (s : FairScheduler) (r : Option (FairScheduler × Text))
    → IsValid s
    → Serves s r
    → (x : FairScheduler × Text) × (r ≡ some x) × IsValid x.0 × (rids x.0.q ≡ rids s.q)
Serves-IsValid s none v h = absurd h
Serves-IsValid s (some (t, rid)) v h = (
  (t, rid),
  refl,
  record { inside = omega (arith, h.inside); distinct = rw h.same_rids v.distinct },
  h.same_rids,
)

next_of-IsValid :
    (q : List Entry) (s : FairScheduler)
    → s.q ≡ q
    → IsValid s
    → (r : FairScheduler × Text) × (next_of q s ≡ some r) × IsValid r.0 × (rids r.0.q ≡ rids s.q)
unfolding next_of
next_of-IsValid [] s same v = ((s, []), refl, v, refl)
next_of-IsValid (e ∷ q) s same v =
    Serves-IsValid s (next_of (e ∷ q) s) v
      (next_of-Serves (e ∷ q) s same (omega arith) (omega (arith, v.inside, ap length same)))

pub next-IsValid :
    (s : FairScheduler)
    → IsValid s
    → (r : FairScheduler × Text) × (next s ≡ some r) × IsValid r.0 × (rids r.0.q ≡ rids s.q)
unfolding next next_of
next-IsValid s v = next_of-IsValid s.q s refl v

-- A call of the scheduler.
pub data Call : Type 0 where
  add_of : Text → ℤ → Call
  remove_of : Text → Call
  next_slot : Call

pub step : FairScheduler → Call → Option FairScheduler
step s (add_of rid weight) = some (add s rid weight)
step s (remove_of rid) = some (remove s rid)
step s next_slot = Option.map (λ r. r.0) (next s)

pub run : FairScheduler → List Call → Option FairScheduler
run s [] = some s
run s (k ∷ ks) = elim (step s k) [ none ↦ none | some t ↦ run t ks ]

step-IsValid :
    (s : FairScheduler) (k : Call)
    → IsValid s
    → (t : FairScheduler) × (step s k ≡ some t) × IsValid t
unfolding step
step-IsValid s (add_of rid weight) v = (_, refl, add-IsValid s rid weight v)
step-IsValid s (remove_of rid) v = (_, refl, remove-IsValid s rid v)
step-IsValid s next_slot v = let (r, e, w, same) = next-IsValid s v in (r.0, rw e, w)

run-IsValid :
    (ks : List Call) (s : FairScheduler)
    → IsValid s
    → (t : FairScheduler) × (run s ks ≡ some t) × IsValid t
unfolding run
run-IsValid [] s v = (s, refl, v)
run-IsValid (k ∷ ks) s v =
    let (t, e, w) = step-IsValid s k v in
    let (u, f, x) = run-IsValid ks t w in (u, rw (e, run) f, x)

-- A scheduler made in any mode never reads its queue out of bounds, over any history of `add`,
-- `remove` and `next`, and every history leaves it valid: the cursor inside the queue, each request
-- queued once.
pub make-run-IsValid :
    (mode : Text) (ks : List Call) → (t : FairScheduler) × (run (make mode) ks ≡ some t) × IsValid t
make-run-IsValid mode ks = run-IsValid ks (make mode) (make-IsValid mode)
