-- ===== src/Node/Link/Delivers.antt =====
-- From a remote data owner's partition to the client (cpp/server/node.cpp): the gateway's prefetcher pulls
-- what the owner's producer finds, and `FetchChunk` hands it on.
use mini.Base.{
  ℕ, zero, suc, take, ◌≡◌, refl, sym, ap, ◌∙◌, true, false, if_cases, inl, inr, ℤ, Text, text_eq,
  at_or, List, [], ◌∷◌, ◌++◌, map, length, Floats, In,
}
use mathlib.Core.List.{append-nil}
use mini.Store.{PartitionStore, Query, empty, fill}
use mini.Store.Scan.{sum}
use mini.Store.Ranges.{Covers}
use mini.Node.Owner.{Owner, Puller, ready, saw, start, new_request}
use mini.Node.Owner.Steps.{Inv, Inv-complete}
use mini.Node.Owner.Delivery.{loaded, wanted, registered, registered-Inv, empty-wanted}
use mini.Node.Gateway.{Gateway, submit, forward_failed, fetch_chunk}
use mini.Node.Gateway.Conserve.{from_owner}
use mini.Node.Gateway.Complete.{is_last_delivers_all}
use mini.Node.Gateway.Prefetch.{
  Prefetcher, waits, flies, ended, Session, Action, act, answer, fail, act_all, forwards_failed,
  submitted,
}
use mini.Node.Link.{
  Link, Turn, gateway, work, arrive, load, return, ends_pull, is_work, arrived, returned, turn,
  turns,
}
use mini.Node.Link.Steady.{flags}
use mini.Node.Link.Joined.{Joined, turn-Joined}

none_of : {A : Type 0} (f : ℕ → A) (n : ℕ) (xs ys : List A) → map f (take n []) ≡ xs ++ ys → xs ≡ []
none_of f zero [] ys e = refl
none_of f (suc n) [] ys e = refl
none_of f zero (x ∷ xs) ys e = cc
none_of f (suc n) (x ∷ xs) ys e = cc

nothing_taken :
    {A : Type 0} (f : ℕ → A) (n : ℕ) (l : List ℕ) (xs ys : List A)
    → l ≡ []
    → xs ++ ys ≡ map f (take n l)
    → xs ≡ []
nothing_taken f n l xs ys z e = none_of f n xs ys (sym (rw z at e))

module _ {F : Type 0} where
  act_all-append :
      (s : Session F) (l m : List (Action F)) → act_all s (l ++ m) ≡ act_all (act_all s l) m
  unfolding act_all
  act_all-append s [] m = refl
  act_all-append s (a ∷ l) m = act_all-append (act s a) l m

  forwards_failed-flags :
      (g : Gateway F) (failed : List Text)
      → (flags (forwards_failed g failed) ≡ flags g)
        × ((forwards_failed g failed).prefetch_done_map ≡ g.prefetch_done_map)
  unfolding forwards_failed forward_failed
  forwards_failed-flags g [] = (refl, refl)
  forwards_failed-flags g (o ∷ os) = forwards_failed-flags (forward_failed g o) os

  submitted-flags :
      (g : Gateway F) (elig failed : List Text)
      → (flags (submitted g elig failed).gate ≡ flags g)
        × ((submitted g elig failed).gate.prefetch_done_map ≡ g.prefetch_done_map)
  unfolding submitted submit
  submitted-flags g elig failed = forwards_failed-flags (submit g elig) failed

  submitted-received :
      (g : Gateway F) (elig failed : List Text) → (submitted g elig failed).received ≡ []
  unfolding submitted
  submitted-received g elig failed = refl

module _ {F : Type 0} ⦃fl : Floats F⦄ (part : PartitionStore F) (o : Text) where
  -- The gateway's side of a link moves by its own steps.
  turn-acts :
      (k : Link F) (t : Turn F)
      → (l : List (Action F)) × ((turn part o k t).session ≡ act_all k.session l)
  unfolding turn arrived returned act_all
  turn-acts k (gateway a) =
      if_cases (λ (j : Link F). (l : List (Action F)) × (j.session ≡ act_all k.session l))
        (ends_pull o a) (λ _. ([], refl)) (λ _. (a ∷ [], refl))
  turn-acts k (work e) =
      if_cases (λ (j : Link F). (l : List (Action F)) × (j.session ≡ act_all k.session l))
        (is_work e) (λ _. ([], refl)) (λ _. ([], refl))
  turn-acts k (arrive n) = (
    [],
    elim (k.session.prefetchers o) as (λ p. (arrived part o k n p).session ≡ k.session) [
      | waits ↦ refl
      | flies ↦
          if_cases (λ (j : Link F). j.session ≡ k.session) (empty part) (λ _. refl) (λ _. refl)
      | ended ↦ refl
    ],
  )
  turn-acts k load = ([], refl)
  turn-acts k return = returned-acts (k.owner.pullers 0) (k.session.prefetchers o)
    where
      returned-acts :
          (q : Puller F) (p : Prefetcher)
          → (l : List (Action F)) × ((returned part o k q p).session ≡ act_all k.session l)
      returned-acts (saw rows done) flies = (answer o rows _ ∷ [], refl)
      returned-acts ready flies =
          if_cases (λ (j : Link F). (l : List (Action F)) × (j.session ≡ act_all k.session l))
            (empty part) (λ _. (fail o ∷ [], refl)) (λ _. ([], refl))
      returned-acts q p = ([], refl)

  turns-acts :
      (k : Link F) (ts : List (Turn F))
      → (l : List (Action F)) × ((turns part o k ts).session ≡ act_all k.session l)
  unfolding turns act_all
  turns-acts k [] = ([], refl)
  turns-acts k (t ∷ ts) =
      let (l, e) = turn-acts k t in
      let (m, f) = turns-acts (turn part o k t) ts in
      (l ++ m, f ∙ ap (λ s. act_all s m) e ∙ sym (act_all-append k.session l m))

  turns-Joined :
      (idxs : List ℕ) (k : Link F) (ts : List (Turn F))
      → (empty part ≡ true → idxs ≡ [])
      → Joined part idxs o k
      → Joined part idxs o (turns part o k ts)
  unfolding turns
  turns-Joined idxs k [] n v = v
  turns-Joined idxs k (t ∷ ts) n v =
      turns-Joined idxs (turn part o k t) ts n (turn-Joined part idxs o k t n v)

  begin-Joined :
      (idxs : List ℕ) (s : Session F) (r : Owner F)
      → Inv part idxs r
      → r.req.cancelled ≡ false
      → r.taken ≡ []
      → r.pullers 0 ≡ ready
      → flags s.gate ≡ (false, false)
      → s.gate.prefetch_done_map ≡ []
      → s.received ≡ []
      → s.prefetchers o ≡ waits
      → Joined part idxs o (record { session = s; owner = r })
  unfolding at_or
  begin-Joined idxs s r i c t u f m e w = record {
    inv = i;
    alive = c;
    open_request = f;
    over = λ x. cc (sym w ∙ x);
    closed = λ x. inl (cc (sym (ap (at_or o false) m) ∙ x));
    brought = rw (e, u) t;
    in_flight = inl u;
  }

  Joined-taken :
      {idxs : List ℕ} {k : Link F}
      → (empty part ≡ true → idxs ≡ [])
      → Joined part idxs o k
      → k.session.prefetchers o ≡ ended
      → k.owner.taken ≡ map (fill part) idxs
  Joined-taken {idxs} {k} n v e = elim (v.closed (v.over e)) [
    | inl sent ↦ Inv-complete part idxs k.owner v.inv v.alive sent
    | inr none_there ↦
        nothing_taken (fill part) _ _ _ _ (n none_there) (v.inv.kept v.alive)
        ∙ sym (ap (map (fill part)) (n none_there))
  ]

  Joined-received :
      {idxs : List ℕ} {k : Link F}
      → Joined part idxs o k
      → k.session.prefetchers o ≡ ended
      → k.owner.taken ≡ from_owner o k.session.received
  Joined-received v e = elim v.in_flight [
    | inl free ↦ (rw free at v.brought) ∙ append-nil _
    | inr flying ↦ cc (sym e ∙ flying)
  ]

module _ {F : Type 0} ⦃fl : Floats F⦄ (threads : List (List ℕ)) (slices : List ℕ)
    (raw : PartitionStore F) (rid : Text) (q : Query F) (weight : ℤ) where
  registered-new :
      ((registered threads slices raw rid q weight).req.cancelled ≡ false)
      × ((registered threads slices raw rid q weight).taken ≡ [])
      × ((registered threads slices raw rid q weight).pullers 0 ≡ ready)
  unfolding new_request start
  registered-new = (refl, refl, refl)

  abbrev pub linked : Gateway F → List Text → List Text → Link F
  linked g elig failed = record {
    session = submitted g elig failed;
    owner = registered threads slices raw rid q weight;
  }

  -- A remote owner has loaded its partition, and has registered the request that a gateway with nothing
  -- buffered forwarded to it; the gateway's prefetcher for it runs. In every interleaving of the
  -- owner's producer, of that prefetcher's pulls, each answered, and of what else the gateway does for the
  -- request (pulls from other owners, which may fail, its own rows, `FetchChunk`), without a
  -- cancellation: when `FetchChunk` answers `is_last`, the client has got from this owner exactly
  -- the rows of its partition that match the query, all of them, in order and once.
  pub client_gets_wanted :
      (g : Gateway F) (elig failed : List Text) (o : Text) (ts : List (Turn F)) (max_rows : ℤ)
      → raw.column_ranges ≡ []
      → Covers threads (length raw.valid)
      → sum slices ≡ length raw.valid
      → g.prefetch_buf ≡ []
      → g.prefetch_done_map ≡ []
      → flags g ≡ (false, false)
      → In o g.owners
      → text_eq o g.name ≡ false
      → (submitted g elig failed).prefetchers o ≡ waits
      → (fetch_chunk
          (turns (loaded threads slices raw rid q weight) o (linked g elig failed) ts).session.gate
          max_rows).2
        ≡ true
      → from_owner o (
          (turns
            (loaded threads slices raw rid q weight)
            o
            (linked g elig failed)
            ts).session.delivered
          ++ (fetch_chunk
              (turns
                (loaded threads slices raw rid q weight)
                o
                (linked g elig failed)
                ts).session.gate
              max_rows).1)
        ≡ map
            (fill (loaded threads slices raw rid q weight))
            (wanted threads slices raw rid q weight)
  client_gets_wanted g elig failed o ts max_rows new cover total b m f i n w last =
      let part = loaded threads slices raw rid q weight in
      let k = turns part o (linked g elig failed) ts in
      let (l, same) = turns-acts part o (linked g elig failed) ts in
      let (off, none_ended) = submitted-flags g elig failed in
      let (alive, none_taken, free) = registered-new in
      let v =
        turns-Joined part o (wanted threads slices raw rid q weight) (linked g elig failed) ts
          (empty-wanted threads slices raw rid q weight)
          (begin-Joined part o _ (submitted g elig failed) _
            (registered-Inv threads slices raw rid q weight new cover total) alive none_taken free
            (off ∙ f) (none_ended ∙ m) (submitted-received g elig failed) w) in
      let all = is_last_delivers_all g elig failed l max_rows o b m i n (rw same at last) in
      let got = rw (← same) at all in
      got.0
      ∙ sym (Joined-received part o v got.1)
      ∙ Joined-taken part o (empty-wanted threads slices raw rid q weight) v got.1
