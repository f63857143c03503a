-- ===== src/Node/Owner/Calls/Bound.antt =====
-- Each call at an owner works on the request that it was made for (cpp/server/node.cpp), while requests are
-- dropped and registered anew.
use mini.Base.{
  ℕ, ◌≡◌, refl, sym, ◌∙◌, if_cases, text_eq, find, erase, find-erase, List, [], ◌∷◌, Option, none,
  some, Floats,
}
use mini.Store.{PartitionStore}
use mini.Scheduler.FairScheduler.{FairScheduler, next}
use mini.Scheduler.ChunkSizer.{ChunkSizer}
use mini.Node.Owner.{Event, begin, test, push, finish, cancel}
use mini.Node.Owner.Calls.{
  Thread, free, stops, drops, Turn, rests, chose, finds, works, Daemon, Deed, forward, pull, size,
  collect, read, answer, stop, clear, drop, choose, look, start_pass, look_flag, fill, finish_pass,
  new_daemon, drop_request, clear_request, choose_request, look_up, begin_turn, go_on, perform,
  perform_all,
}
use mini.Node.Owner.Calls.Objects.{Named}
use mini.Node.Owner.Calls.Pulls.{
  IsSound, thread-Sound, on_object-Sound, on_pass-Sound, register-Sound, begin_pull-Sound,
  begin_stop-Sound, size_pull-Sound, collect_pull-Sound, read_pull-Sound, answer_pull-Sound,
}

module _ {F : Type 0} ⦃fl : Floats F⦄ (slices : List ℕ) (part : PartitionStore F) where
  drop_request-Sound :
      (d : Daemon F) (j : ℕ) (t : Thread)
      → IsSound slices part d
      → IsSound slices part (drop_request slices part d j t)
  unfolding drop_request
  drop_request-Sound d j (drops rid) v =
      thread-Sound slices part (record d { requests = erase rid d.requests }) j free tt
        (record {
          heap = v.heap;
          names = λ k a found.
              if_cases (λ (o : Option ℕ). o ≡ some a → Named d.objects k a) (text_eq rid k)
                (λ _ e. cc) (λ _ e. v.names k a e) (sym (find-erase rid k d.requests) ∙ found);
          bound = v.bound;
        })
  drop_request-Sound d j t v = v

  clear_request-Sound :
      (d : Daemon F) (j : ℕ) (t : Thread)
      → IsSound slices part d
      → IsSound slices part (clear_request slices part d j t)
  unfolding clear_request
  clear_request-Sound d j (stops a rid) v =
      on_object-Sound slices part _ a cancel _ refl (thread-Sound slices part d j (drops rid) tt v)
  clear_request-Sound d j t v = v

  choose_request-Sound :
      (d : Daemon F) (t : Turn)
      → IsSound slices part d
      → IsSound slices part (choose_request slices part d t)
  unfolding choose_request
  choose_request-Sound d rests v =
      elim (next d.sched)
        as (λ n. IsSound slices part (elim n [
          | none ↦ d
          | some (sched, rid) ↦ record d { sched = sched; producing = chose rid }
        ])) [ none ↦ v | some (sched, rid) ↦ v ]
  choose_request-Sound d t v = v

  look_up-Sound :
      (d : Daemon F) (t : Turn)
      → IsSound slices part d
      → IsSound slices part (look_up slices part d t)
  unfolding look_up
  look_up-Sound d (chose rid) v = v
  look_up-Sound d t v = v

  begin_turn-Sound :
      (d : Daemon F) (t : Turn)
      → IsSound slices part d
      → IsSound slices part (begin_turn slices part d t)
  unfolding begin_turn
  begin_turn-Sound d (finds a) v = on_pass-Sound slices part d a begin _ refl v
  begin_turn-Sound d t v = v

  go_on-Sound :
      (d : Daemon F) (e : Event) (t : Turn)
      → IsSound slices part d
      → IsSound slices part (go_on slices part d e t)
  unfolding go_on
  go_on-Sound d e (works a) v = on_pass-Sound slices part d a e _ refl v
  go_on-Sound d e t v = v

  perform-Sound :
      (d : Daemon F) (e : Deed F)
      → IsSound slices part d
      → IsSound slices part (perform slices part d e)
  unfolding perform
  perform-Sound d (forward rid q) v = register-Sound slices part d rid q v
  perform-Sound d (pull j rid) v = begin_pull-Sound slices part d j rid _ v
  perform-Sound d (size j max_rows now) v = size_pull-Sound slices part d j max_rows now _ refl v
  perform-Sound d (collect j) v = collect_pull-Sound slices part d j _ refl v
  perform-Sound d (read j) v = read_pull-Sound slices part d j _ v
  perform-Sound d (answer j) v = answer_pull-Sound slices part d j _ v
  perform-Sound d (stop j rid) v = begin_stop-Sound slices part d j rid _ v
  perform-Sound d (clear j) v = clear_request-Sound d j _ v
  perform-Sound d (drop j) v = drop_request-Sound d j _ v
  perform-Sound d choose v = choose_request-Sound d _ v
  perform-Sound d look v = look_up-Sound d _ v
  perform-Sound d start_pass v = begin_turn-Sound d _ v
  perform-Sound d look_flag v = go_on-Sound d test _ v
  perform-Sound d fill v = go_on-Sound d push _ v
  perform-Sound d finish_pass v = go_on-Sound d finish _ v

  pub perform_all-Sound :
      (d : Daemon F) (es : List (Deed F))
      → IsSound slices part d
      → IsSound slices part (perform_all slices part d es)
  unfolding perform_all
  perform_all-Sound d [] v = v
  perform_all-Sound d (e ∷ es) v =
      perform_all-Sound (perform slices part d e) es (perform-Sound d e v)

  pub new_daemon-Sound :
      (sched : FairScheduler) (sizer : ChunkSizer)
      → IsSound slices part (new_daemon slices part sched sizer)
  unfolding find
  new_daemon-Sound sched sizer = record {
    heap = record { ran = λ a s e. cc; fresh = λ a le. refl };
    names = λ rid a e. cc;
    bound = λ j. tt;
  }
