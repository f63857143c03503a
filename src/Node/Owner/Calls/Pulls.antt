-- ===== src/Node/Owner/Calls/Pulls.antt =====
-- A daemon's threads keep to objects of their own requests (cpp/server/node.cpp): the steps of `PullChunk`
-- and of registering.
use mini.Base.{
  ℕ, ◌≡◌, refl, sym, ◌∙◌, arith, ◌==◌, if◌then◌else◌, if_cases, inl, inr, ℤ, pos, Text, text_eq,
  text_eq_iff, Dict, find, find-put, List, Option, none, some, Option-cases, Floats,
}
use mathlib.Core.Option.{some-injective}
use mini.Store.{PartitionStore, Query, empty}
use mini.Node.Owner.{
  Owner, Event, take_rows, read_done, send, ready, took, saw, new_request, start, step, update,
  last_sent,
}
use mini.Node.Owner.Calls.{
  Thread, free, sizes, takes, pulls, stops, drops, Daemon, register, on_object, begin_pull,
  size_pull, collect_pull, read_pull, answered, answer_pull, begin_stop, on_pass,
}
use mini.Node.Owner.Calls.Objects.{Named, Keeps, Heap, Heap-step, Heap-add, step-Keeps, add-Keeps}

-- A call that works on an object works on a request with the id that it was made with.
abbrev pub IsBound : {F : Type 0} → (ℕ → Option (Owner F)) → Thread → Type 0
IsBound objects free = Unit
IsBound objects (sizes a rid) = Named objects rid a
IsBound objects (takes a rid max_rows) = Named objects rid a
IsBound objects (pulls a rid) = Named objects rid a
IsBound objects (stops a rid) = Named objects rid a
IsBound objects (drops rid) = Unit

IsBound-Keeps :
    {F : Type 0} {before after : ℕ → Option (Owner F)} (t : Thread)
    → Keeps before after
    → IsBound before t
    → IsBound after t
IsBound-Keeps free k b = tt
IsBound-Keeps (sizes a rid) k b = k rid a b
IsBound-Keeps (takes a rid max_rows) k b = k rid a b
IsBound-Keeps (pulls a rid) k b = k rid a b
IsBound-Keeps (stops a rid) k b = k rid a b
IsBound-Keeps (drops rid) k b = tt

update-at : {A : Type 0} (f : ℕ → A) (a : ℕ) (x : A) → update f a x a ≡ x
update-at f a x = ground arith

module _ {F : Type 0} ⦃fl : Floats F⦄ (slices : List ℕ) (part : PartitionStore F) where
  pub record Sound (objects : ℕ → Option (Owner F)) (count : ℕ) (requests : Dict ℕ)
      (threads : ℕ → Thread) : Type 0 where
    pub heap : Heap slices part objects count
    pub names : (rid : Text) (a : ℕ) → find rid requests ≡ some a → Named objects rid a
    pub bound : (j : ℕ) → IsBound objects (threads j)

  abbrev pub IsSound : Daemon F → Type 0
  IsSound d = Sound d.objects d.count d.requests d.threads

  -- A thread moves on.
  pub thread-Sound :
      (d : Daemon F) (j : ℕ) (t : Thread)
      → IsBound d.objects t
      → IsSound d
      → Sound d.objects d.count d.requests (update d.threads j t)
  thread-Sound d j t b v = record {
    heap = v.heap;
    names = v.names;
    bound = λ k. if_cases (IsBound d.objects) (k == j) (λ _. b) (λ _. v.bound k);
  }

  step-Sound :
      (d : Daemon F) (a : ℕ) (s : Owner F) (e : Event)
      → d.objects a ≡ some s
      → IsSound d
      → Sound (update d.objects a (some (step part s e))) d.count d.requests d.threads
  step-Sound d a s e h v = record {
    heap = Heap-step slices part d.objects d.count a s e h v.heap;
    names = λ rid k found. step-Keeps slices part d.objects a s e h rid k (v.names rid k found);
    bound = λ k. IsBound-Keeps (d.threads k) (step-Keeps slices part d.objects a s e h) (v.bound k);
  }

  pub on_object-Sound :
      (d : Daemon F) (a : ℕ) (e : Event) (o : Option (Owner F))
      → d.objects a ≡ o
      → IsSound d
      → IsSound (on_object slices part d a e o)
  unfolding on_object
  on_object-Sound d a e none h v = v
  on_object-Sound d a e (some s) h v = step-Sound d a s e h v

  pub on_pass-Sound :
      (d : Daemon F) (a : ℕ) (e : Event) (o : Option (Owner F))
      → d.objects a ≡ o
      → IsSound d
      → IsSound (on_pass slices part d a e o)
  unfolding on_pass
  on_pass-Sound d a e none h v = v
  on_pass-Sound d a e (some s) h v = step-Sound d a s e h v

  pub register-Sound :
      (d : Daemon F) (rid : Text) (q : Query F) → IsSound d → IsSound (register slices part d rid q)
  unfolding register new_request start
  register-Sound d rid q v = elim (Option-cases (find rid d.requests)) [
    | inr (a, old) ↦ rw (register, old) v
    | inl new ↦
        rw (register, new)
          (record {
            heap = Heap-add slices part d.objects d.count rid q v.heap;
            names = λ k a found.
                if_cases
                  (λ (o : Option ℕ).
                    o ≡ some a
                    → Named
                        (update d.objects d.count
                          (some (start (new_request slices part rid q (pos 1)))))
                        k a)
                  (text_eq rid k)
                  (λ same e.
                    let here : d.count ≡ a = some-injective _ _ e in
                    rw (← here) (_, update-at d.objects d.count _, (text_eq_iff rid k).0 same))
                  (λ _ e. add-Keeps slices part d.objects d.count _ v.heap k a (v.names k a e))
                  (sym (find-put rid k d.count d.requests) ∙ found);
            bound = λ k.
                IsBound-Keeps (d.threads k) (add-Keeps slices part d.objects d.count _ v.heap)
                  (v.bound k);
          })
  ]

  pub begin_pull-Sound :
      (d : Daemon F) (j : ℕ) (rid : Text) (t : Thread)
      → IsSound d
      → IsSound (begin_pull slices part d j rid t)
  unfolding begin_pull
  begin_pull-Sound d j rid free v = elim (Option-cases (find rid d.requests)) [
    | inl missing ↦ rw (begin_pull, missing) v
    | inr (a, here) ↦
        rw (begin_pull, here)
          (if_cases IsSound (empty part) (λ _. v)
            (λ _. thread-Sound d j (sizes a rid) (v.names rid a here) v))
  ]
  begin_pull-Sound d j rid t v = v

  pub begin_stop-Sound :
      (d : Daemon F) (j : ℕ) (rid : Text) (t : Thread)
      → IsSound d
      → IsSound (begin_stop slices part d j rid t)
  unfolding begin_stop
  begin_stop-Sound d j rid free v = elim (Option-cases (find rid d.requests)) [
    | inl missing ↦ rw (begin_stop, missing) v
    | inr (a, here) ↦ rw (begin_stop, here) (thread-Sound d j (stops a rid) (v.names rid a here) v)
  ]
  begin_stop-Sound d j rid t v = v

  pub size_pull-Sound :
      (d : Daemon F) (j : ℕ) (max_rows : ℤ) (now : ℕ) (t : Thread)
      → d.threads j ≡ t
      → IsSound d
      → IsSound (size_pull slices part d j max_rows now t)
  unfolding size_pull
  size_pull-Sound d j max_rows now (sizes a rid) e v = thread-Sound d j _ (rw e at (v.bound j)) v
  size_pull-Sound d j max_rows now t e v = v

  pub collect_pull-Sound :
      (d : Daemon F) (j : ℕ) (t : Thread)
      → d.threads j ≡ t
      → IsSound d
      → IsSound (collect_pull slices part d j t)
  unfolding collect_pull
  collect_pull-Sound d j (takes a rid max_rows) e v =
      on_object-Sound _ a (take_rows j max_rows) _ refl
        (thread-Sound d j (pulls a rid) (rw e at (v.bound j)) v)
  collect_pull-Sound d j t e v = v

  pub read_pull-Sound :
      (d : Daemon F) (j : ℕ) (t : Thread) → IsSound d → IsSound (read_pull slices part d j t)
  unfolding read_pull
  read_pull-Sound d j (pulls a rid) v = on_object-Sound d a (read_done j) _ refl v
  read_pull-Sound d j t v = v

  answered-Sound :
      (d : Daemon F) (j a : ℕ) (rid : Text) (o : Option (Owner F))
      → d.objects a ≡ o
      → IsSound d
      → IsSound (answered slices part d j a rid o)
  unfolding answered
  answered-Sound d j a rid none h v = v
  answered-Sound d j a rid (some s) h v =
      elim (s.pullers j)
        as (λ p. IsSound (elim p [
          | ready ↦ d
          | took rows ↦ d
          | saw rows done ↦ record d {
            objects = update d.objects a (some (step part s (send j)));
            threads =
                update d.threads j
                  (if last_sent (step part s (send j)).sent then drops rid else free);
          }
        ])) [
          | ready ↦ v
          | took rows ↦ v
          | saw rows done ↦
              thread-Sound (record d { objects = update d.objects a (some (step part s (send j))) })
                j _
                (if_cases (IsBound _) (last_sent (step part s (send j)).sent) (λ _. tt) (λ _. tt))
                (step-Sound d a s (send j) h v)
        ]

  pub answer_pull-Sound :
      (d : Daemon F) (j : ℕ) (t : Thread) → IsSound d → IsSound (answer_pull slices part d j t)
  unfolding answer_pull
  answer_pull-Sound d j (pulls a rid) v = answered-Sound d j a rid _ refl v
  answer_pull-Sound d j t v = v
