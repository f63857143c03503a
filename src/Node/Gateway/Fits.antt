-- ===== src/Node/Gateway/Fits.antt =====
-- What relates a prefetcher's place, its owner's buffer and the rows that went through it, and how each
-- step of cpp/server/node.cpp's `prefetcher_loop` and `FetchChunk` keeps it.
use mini.Base.{
  ◌≡◌, refl, sym, ap, ◌∙◌, Bool, true, false, if◌then◌else◌, ◌⊎◌, inl, inr, is_empty, List, [], ◌∷◌,
  ◌++◌,
}
use mathlib.Core.List.{append_assoc, append-nil}
use mini.Store.{TaxiRow}
use mini.Node.Gateway.Prefetch.{Prefetcher, waits, flies, ended}

append-nil_right : {A : Type 0} (xs ys : List A) → xs ++ ys ≡ [] → ys ≡ []
append-nil_right [] ys e = e
append-nil_right (x ∷ xs) ys e = cc

pub is_empty_nil : {A : Type 0} (xs : List A) → is_empty xs ≡ true → xs ≡ []
is_empty_nil [] e = refl
is_empty_nil (x ∷ xs) e = cc

module _ {F : Type 0} where
  -- What holds of one remote owner: its prefetcher, its buffer, what the client got of it, what its
  -- pulls brought, and its two marks.
  pub record Fits (p : Prefetcher) (buffer out got : List (TaxiRow F)) (over done : Bool)
      : Type 0 where
    pub kept : out ++ buffer ≡ got
    pub in_flight : p ≡ flies → buffer ≡ []
    pub if_over : over ≡ true → p ≡ ended
    pub if_done : done ≡ true → (p ≡ ended) × (buffer ≡ [])

  pub Fits-answer :
      {buffer out got : List (TaxiRow F)} {over done : Bool} (rows : List (TaxiRow F))
      (is_last : Bool)
      → Fits flies buffer out got over done
      → Fits
          (if is_last then ended else waits)
          (buffer ++ rows)
          out
          (got ++ rows)
          (if is_last then true else over)
          done
  Fits-answer {buffer} {out} rows true h = record {
    kept = sym (append_assoc out buffer rows) ∙ ap (λ l. l ++ rows) h.kept;
    in_flight = λ e. cc;
    if_over = λ e. refl;
    if_done = λ e. cc ((h.if_done e).0);
  }
  Fits-answer {buffer} {out} rows false h = record {
    kept = sym (append_assoc out buffer rows) ∙ ap (λ l. l ++ rows) h.kept;
    in_flight = λ e. cc;
    if_over = λ e. cc (h.if_over e);
    if_done = λ e. cc ((h.if_done e).0);
  }

  pub Fits-fetch :
      {p : Prefetcher} {buffer buffer' out got : List (TaxiRow F)} {over done done' : Bool}
      (chunk : List (TaxiRow F))
      → Fits p buffer out got over done
      → chunk ++ buffer' ≡ buffer
      → (done' ≡ true → (done ≡ true) ⊎ ((over ≡ true) × (buffer' ≡ [])))
      → Fits p buffer' (out ++ chunk) got over done'
  Fits-fetch {buffer' = buffer'} {out = out} chunk h e d = record {
    kept = append_assoc out chunk buffer' ∙ ap (λ l. out ++ l) e ∙ h.kept;
    in_flight = λ f. append-nil_right chunk buffer' (e ∙ h.in_flight f);
    if_over = h.if_over;
    if_done = λ t. elim (d t) [
      | inl before ↦
          ((h.if_done before).0, append-nil_right chunk buffer' (e ∙ (h.if_done before).1))
      | inr now ↦ (h.if_over (now.0), now.1)
    ];
  }

  pub Fits-complete :
      {p : Prefetcher} {buffer out got : List (TaxiRow F)} {over done : Bool}
      → Fits p buffer out got over done
      → done ≡ true
      → (out ≡ got) × (p ≡ ended)
  Fits-complete {out = out} h t =
      (sym (append-nil out) ∙ ap (λ r. out ++ r) (sym (h.if_done t).1) ∙ h.kept, (h.if_done t).0)

  pub Fits-issue :
      {p : Prefetcher} {buffer out got : List (TaxiRow F)} {over done : Bool}
      → p ≡ waits
      → buffer ≡ []
      → Fits p buffer out got over done
      → Fits flies buffer out got over done
  Fits-issue w e h = record {
    kept = h.kept;
    in_flight = λ _. e;
    if_over = λ t. cc (sym w ∙ h.if_over t);
    if_done = λ t. cc (sym w ∙ (h.if_done t).0);
  }

  pub Fits-miss :
      {p : Prefetcher} {buffer out got : List (TaxiRow F)} {over done : Bool}
      → p ≡ flies
      → Fits p buffer out got over done
      → Fits waits buffer out got over done
  Fits-miss w h = record {
    kept = h.kept;
    in_flight = λ t. cc;
    if_over = λ t. cc (sym w ∙ h.if_over t);
    if_done = λ t. cc (sym w ∙ (h.if_done t).0);
  }

  pub Fits-end :
      {p : Prefetcher} {buffer out got : List (TaxiRow F)} {over done : Bool}
      → Fits p buffer out got over done
      → Fits ended buffer out got over done
  Fits-end h = record {
    kept = h.kept;
    in_flight = λ t. cc;
    if_over = λ t. refl;
    if_done = λ t. (refl, (h.if_done t).1);
  }

  pub Fits-fail :
      {p : Prefetcher} {buffer out got : List (TaxiRow F)} {over done : Bool}
      → p ≡ flies
      → Fits p buffer out got over done
      → Fits ended buffer out got true true
  Fits-fail w h = record {
    kept = h.kept;
    in_flight = λ t. cc;
    if_over = λ t. refl;
    if_done = λ t. (refl, h.in_flight w);
  }
