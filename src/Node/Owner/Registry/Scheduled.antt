-- ===== src/Node/Owner/Registry/Scheduled.antt =====
-- A node schedules exactly the requests of its table (cpp/server/node.cpp).
use mini.Base.{
  ℕ, ◌≡◌, refl, sym, ap, ◌∙◌, arith, Bool, true, false, if◌then◌else◌, if_cases, inl, inr, ℤ, Text,
  text_eq, text_eq_iff, Dict, find, put, erase, find-put, find-erase, List, [], ◌∷◌, AreDistinct,
  In, Option, none, some, Option-cases, Floats,
}
use mathlib.Core.Option
use mini.Store.{PartitionStore, Query}
use mini.Routing.Hash.{has_text}
use mini.Scheduler.FairScheduler.{Entry, FairScheduler, add_to, remove_from, remove, make}
use mini.Scheduler.FairScheduler.Safety.{
  IsValid, rids, add-IsValid, remove-IsValid, next-IsValid, make-IsValid,
}
use mini.Scheduler.ChunkSizer.{ChunkSizer}
use mini.Node.Owner.{new_request}
use mini.Node.Owner.Registry.{Registry, get_request, register_request, drop_request, take_turn}

abbrev pub found {ℓ} : {A : Type ℓ} → Option A → Bool
found none = false
found (some a) = true

found-put :
    {A : Type 0} (k j : Text) (v : A) (m : Dict A)
    → found (find j (put k v m)) ≡ (if text_eq k j then true else found (find j m))
found-put k j v m = ground (arith, find-put k j v m)

listed-add_to :
    (rid j : Text) (weight : ℤ) (q : List Entry)
    → has_text j (rids (add_to rid weight q))
      ≡ (if text_eq rid j then true else has_text j (rids q))
unfolding add_to has_text
listed-add_to rid j weight [] = refl
listed-add_to rid j weight (e ∷ q) = ground (
  arith,
  text_eq_iff e.rid rid,
  text_eq_iff e.rid j,
  text_eq_iff rid j,
  listed-add_to rid j weight q,
)

not-has_text : (t : Text) (xs : List Text) → ¬ In t xs → has_text t xs ≡ false
unfolding has_text
not-has_text t [] h = refl
not-has_text t (x ∷ xs) h =
    if_cases (λ b. b ≡ false) (text_eq x t) (λ same. absurd (h (inl ((text_eq_iff x t).0 same))))
      λ _. not-has_text t xs (λ m. h (inr m))

-- The queue without the first entry of a request.
abbrev without : Text → List Entry → List Entry
without rid q = elim (remove_from rid q) [ none ↦ q | some q' ↦ q' ]

without-cons :
    (rid : Text) (e : Entry) (q : List Entry)
    → without rid (e ∷ q) ≡ (if text_eq e.rid rid then q else e ∷ without rid q)
unfolding remove_from
without-cons rid e q = elim (Option-cases (remove_from rid q)) [
  | inl missing ↦ ground (arith, missing)
  | inr (q', same) ↦ ground (arith, same)
]

listed-without :
    (rid j : Text) (q : List Entry)
    → AreDistinct (rids q)
    → has_text j (rids (without rid q)) ≡ (if text_eq rid j then false else has_text j (rids q))
unfolding remove_from has_text
listed-without rid j [] d = ground arith
listed-without rid j (e ∷ q) d = rw (without-cons rid e q) (
    ground (
      arith,
      text_eq_iff e.rid rid,
      text_eq_iff e.rid j,
      text_eq_iff rid j,
      listed-without rid j q d.1,
      not-has_text e.rid (rids q) d.0,
    ))

remove-without : (s : FairScheduler) (rid : Text) → (remove s rid).q ≡ without rid s.q
unfolding remove
remove-without s rid = elim (Option-cases (remove_from rid s.q)) [
  | inl missing ↦ rw (remove, without, missing)
  | inr (q, same) ↦ rw (remove, without, same)
]

found-erase :
    {A : Type 0} (k j : Text) (m : Dict A)
    → found (find j (erase k m)) ≡ (if text_eq k j then false else found (find j m))
found-erase k j m = ground (arith, find-erase k j m)

pub data Job (F : Type 0) : Type 0 where
  register : Text → Query F → ℤ → Job F
  drop : Text → Job F
  turn : Job F

module _ {F : Type 0} ⦃fl : Floats F⦄ where
  -- The scheduler is valid and queues exactly the requests of the table.
  record IsSynced (r : Registry F) : Type 0 where
    valid : IsValid r.sched
    same : (j : Text) → found (get_request r j) ≡ has_text j (rids r.sched.q)

  register_request-IsSynced :
      (slices : List ℕ) (part : PartitionStore F) (r : Registry F) (rid : Text) (q : Query F)
      (weight : ℤ)
      → IsSynced r
      → IsSynced (register_request slices part r rid q weight).0
  unfolding register_request get_request
  register_request-IsSynced slices part r rid q weight h = elim (Option-cases (get_request r rid)) [
    | inl new ↦
        rw (register_request, new)
          (record {
            valid = add-IsValid r.sched rid weight h.valid;
            same = λ j.
                found-put rid j (new_request slices part rid q weight) r.requests
                ∙ ap (λ b. if text_eq rid j then true else b) (h.same j)
                ∙ sym (listed-add_to rid j weight r.sched.q);
          })
    | inr (st, old) ↦ rw (register_request, old) h
  ]

  drop_request-IsSynced : (r : Registry F) (rid : Text) → IsSynced r → IsSynced (drop_request r rid)
  unfolding drop_request get_request
  drop_request-IsSynced r rid h = record {
    valid = remove-IsValid r.sched rid h.valid;
    same = λ j.
        found-erase rid j r.requests
        ∙ ap (λ b. if text_eq rid j then false else b) (h.same j)
        ∙ sym (listed-without rid j r.sched.q h.valid.distinct)
        ∙ sym (ap (λ l. has_text j (rids l)) (remove-without r.sched rid));
  }

  take_turn-IsSynced :
      (r : Registry F)
      → IsSynced r
      → (t : Registry F) × (rid : Text) × (take_turn r ≡ some (t, rid)) × IsSynced t
  unfolding take_turn get_request
  take_turn-IsSynced r h =
      let ((sched, rid), e, v, same) = next-IsValid r.sched h.valid in
      (
        record r { sched = sched },
        rid,
        rw (take_turn, e),
        record { valid = v; same = λ j. h.same j ∙ sym (ap (has_text j) same) },
      )

  -- The table after a job; `none` if the scheduler faults.
  pub perform : List ℕ → PartitionStore F → Registry F → Job F → Option (Registry F)
  perform slices part r (register rid q weight) =
      some (register_request slices part r rid q weight).0
  perform slices part r (drop rid) = some (drop_request r rid)
  perform slices part r turn = Option.map (λ t. t.0) (take_turn r)

  pub perform_all : List ℕ → PartitionStore F → Registry F → List (Job F) → Option (Registry F)
  perform_all slices part r [] = some r
  perform_all slices part r (k ∷ ks) = elim (perform slices part r k) [
    | none ↦ none
    | some t ↦ perform_all slices part t ks
  ]

  perform-IsSynced :
      (slices : List ℕ) (part : PartitionStore F) (r : Registry F) (k : Job F)
      → IsSynced r
      → (t : Registry F) × (perform slices part r k ≡ some t) × IsSynced t
  unfolding perform
  perform-IsSynced slices part r (register rid q weight) h =
      (_, refl, register_request-IsSynced slices part r rid q weight h)
  perform-IsSynced slices part r (drop rid) h = (_, refl, drop_request-IsSynced r rid h)
  perform-IsSynced slices part r turn h =
      let (t, rid, e, w) = take_turn-IsSynced r h in (t, rw e refl, w)

  perform_all-IsSynced :
      (slices : List ℕ) (part : PartitionStore F) (ks : List (Job F)) (r : Registry F)
      → IsSynced r
      → (t : Registry F) × (perform_all slices part r ks ≡ some t) × IsSynced t
  unfolding perform_all
  perform_all-IsSynced slices part [] r h = (r, refl, h)
  perform_all-IsSynced slices part (k ∷ ks) r h =
      let (t, e, w) = perform-IsSynced slices part r k h in
      let (u, e', w') = perform_all-IsSynced slices part ks t w in (u, rw (perform_all, e) e', w')

  -- A node that starts without requests never faults in its scheduler, over any history of
  -- registrations, drops and turns of the producer, and then schedules exactly the requests of its table:
  -- `get_request` finds a request if and only if the scheduler's queue has it.
  pub registered_iff_scheduled :
      (slices : List ℕ) (part : PartitionStore F) (mode : Text) (sizer : ChunkSizer)
      (ks : List (Job F))
      → (t : Registry F) × (perform_all slices part
            (record { requests = []; sched = make mode; sizer = sizer })
            ks
          ≡ some t)
        × ((rid : Text) → found (get_request t rid) ≡ has_text rid (rids t.sched.q))
  unfolding get_request make has_text
  registered_iff_scheduled slices part mode sizer ks =
      let (t, e, h) =
        perform_all-IsSynced slices part ks _
          (record { valid = make-IsValid mode; same = λ rid. refl }) in
      (t, e, h.same)
