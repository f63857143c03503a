-- ===== src/Client/Totals.antt =====
-- What the summary of a request counts (cpp/client/client.cpp: `run_one`).
use mini.Base.{
  ℕ, ◌+◌, ◌≤◌, ◌≡◌, refl, sym, ap, ◌∙◌, arith, true, false, ◌&&◌, if_cases, pos, leb_ℤ, Text,
  is_empty, List, [], ◌∷◌, ◌++◌, map, length, length-append, All, Option, some,
}
use mathlib.Core.Option.{some-injective}
use mathlib.Core.List.{append_assoc}
use mini.Node.Relay.{QueryAck, Reply, reply, failed}
use mini.Node.Handlers.{Chunk}
use mini.Client.{CliArgs, ReqResult, new_result, count_chunk, pull_loop, run_one}

pub sum_of : {A : Type 0} → (A → ℕ) → List A → ℕ
sum_of f [] = 0
sum_of f (x ∷ xs) = f x + sum_of f xs

sum_of-snoc :
    {A : Type 0} (f : A → ℕ) (xs : List A) (x : A) → sum_of f (xs ++ x ∷ []) ≡ sum_of f xs + f x
unfolding sum_of
sum_of-snoc f [] x = omega arith
sum_of-snoc f (y ∷ xs) x = omega (arith, sum_of-snoc f xs x)

All-snoc :
    {A : Type 0} (P : A → Type 0) (xs : List A) (x : A) → All P xs → P x → All P (xs ++ x ∷ [])
All-snoc P [] x h p = (p, tt)
All-snoc P (y ∷ xs) x h p = (h.0, All-snoc P xs x h.1 p)

All-imp :
    {A : Type 0} (P Q : A → Type 0) (xs : List A) → ((x : A) → P x → Q x) → All P xs → All Q xs
All-imp P Q [] f h = tt
All-imp P Q (x ∷ xs) f h = (f x h.0, All-imp P Q xs f h.1)

module _ {F : Type 0} (byte_size : Chunk F → ℕ) where
  -- The summary counts these chunks: how many, their rows and their bytes, and the largest one with rows.
  pub record Counts (r : ReqResult) (got : List (Chunk F)) : Type 0 where
    pub chunks : r.chunks ≡ length got
    pub rows : r.rows ≡ sum_of (λ (c : Chunk F). length c.rows) got
    pub bytes : r.bytes ≡ sum_of byte_size got
    pub largest : All (λ (c : Chunk F). is_empty c.rows ≡ false → byte_size c ≤ r.bytes_max) got

  count_chunk-Counts :
      (r : ReqResult) (got : List (Chunk F)) (c : Chunk F)
      → Counts r got
      → Counts (count_chunk byte_size r c) (got ++ c ∷ [])
  unfolding count_chunk
  count_chunk-Counts r got c v =
      if_cases (λ t. Counts t (got ++ c ∷ [])) (is_empty c.rows)
        (λ no_rows. record {
          chunks = more_chunks;
          rows = more_rows;
          bytes = more_bytes;
          largest = All-snoc _ got c v.largest (λ e. cc (sym no_rows ∙ e));
        })
        λ _. record {
          chunks = more_chunks;
          rows = more_rows;
          bytes = more_bytes;
          largest =
              All-snoc _ got c (All-imp _ _ got (λ d h e. ground (arith, h e)) v.largest)
                (λ e. ground arith);
        }
    where
      more_chunks : r.chunks + 1 ≡ length (got ++ c ∷ [])
      more_chunks = omega (arith, v.chunks, length-append got (c ∷ []))

      more_rows : r.rows + length c.rows ≡ sum_of (λ (d : Chunk F). length d.rows) (got ++ c ∷ [])
      more_rows = omega (arith, v.rows, sum_of-snoc (λ (d : Chunk F). length d.rows) got c)

      more_bytes : r.bytes + byte_size c ≡ sum_of byte_size (got ++ c ∷ [])
      more_bytes = omega (arith, v.bytes, sum_of-snoc byte_size got c)

  count_chunk-ok : (r : ReqResult) (c : Chunk F) → (count_chunk byte_size r c).ok ≡ r.ok
  unfolding count_chunk
  count_chunk-ok r c =
      if_cases (λ (t : ReqResult). t.ok ≡ r.ok) (is_empty c.rows) (λ _. refl) (λ _. refl)

  pull_loop-Counts :
      (a : CliArgs F) (answers : List (Reply (Chunk F))) (r s : ReqResult) (before : List (Chunk F))
      → a.cancel_after ≡ false
      → leb_ℤ (pos 0) a.limit_chunks ≡ false
      → Counts r before
      → r.ok ≡ false
      → pull_loop byte_size a r answers ≡ some s
      → s.ok ≡ true
      → (got : List (Chunk F)) × (c : Chunk F) × (rest : List (Reply (Chunk F))) × (answers
          ≡ map reply (got ++ c ∷ []) ++ rest)
        × (c.is_last ≡ true)
        × Counts s (before ++ (got ++ c ∷ []))
  unfolding pull_loop
  pull_loop-Counts a [] r s before nc nl v new e o = cc
  pull_loop-Counts a (failed m ∷ answers) r s before nc nl v new e o =
      let same : r.ok ≡ s.ok = ap (λ (t : ReqResult). t.ok) (some-injective _ _ e) in
      cc (sym new ∙ same ∙ o)
  pull_loop-Counts a (reply c ∷ answers) r s before nc nl v new e o =
      let t = count_chunk byte_size r c in
      let counted = count_chunk-Counts r before c v in
      let to : Option ReqResult → Type 0 = λ x.
        x ≡ some s
        → (got : List (Chunk F)) × (d : Chunk F) × (rest : List (Reply (Chunk F))) × (reply c
              ∷ answers
            ≡ map reply (got ++ d ∷ []) ++ rest)
          × (d.is_last ≡ true)
          × Counts s (before ++ (got ++ d ∷ [])) in
      if_cases to (a.cancel_after && leb_ℤ a.cancel_after_chunks (pos t.chunks))
        (λ on. cc (rw nc at on))
        (λ _.
          if_cases to (leb_ℤ (pos 0) a.limit_chunks && leb_ℤ a.limit_chunks (pos t.chunks))
            (λ on. cc (rw nl at on))
            λ _.
              if_cases to c.is_last
                (λ last done.
                  let same : record t {
                    owners_hit = c.owners_hit;
                    owners_eligible = c.owners_eligible;
                    ok = true;
                  }
                      ≡ s =
                    some-injective _ _ done in
                  (
                    [],
                    c,
                    answers,
                    refl,
                    last,
                    rw (← same) (record {
                      chunks = counted.chunks;
                      rows = counted.rows;
                      bytes = counted.bytes;
                      largest = counted.largest;
                    }),
                  ))
                λ _ more.
                  let (got, d, rest, split, last, all) =
                    pull_loop-Counts a answers t s (before ++ c ∷ []) nc nl counted
                      (count_chunk-ok r c ∙ new) more o in
                  (
                    c ∷ got,
                    d,
                    rest,
                    ap (◌∷◌ (reply c)) split,
                    last,
                    rw (← append_assoc before (c ∷ []) (got ++ d ∷ [])) all,
                  ))
        e

  none_yet : (rid : Text) → Counts (new_result rid) []
  unfolding sum_of
  none_yet rid = record { chunks = refl; rows = refl; bytes = refl; largest = tt }

  -- A run without `--cancel-after` and `--limit-chunks` that ends well has had its query accepted and
  -- got, one after the other without a failure, chunks of which the last is marked so, and its summary
  -- has their number, their rows, their bytes, and the size of the largest one with rows or a greater.
  pub run_one-totals :
      (a : CliArgs F) (rid : Text) (ack : QueryAck) (answers : List (Reply (Chunk F)))
      (s : ReqResult)
      → a.cancel_after ≡ false
      → leb_ℤ (pos 0) a.limit_chunks ≡ false
      → run_one byte_size a rid (reply ack) answers ≡ some s
      → s.ok ≡ true
      → (got : List (Chunk F)) × (c : Chunk F) × (rest : List (Reply (Chunk F))) × (ack.accepted
          ≡ true)
        × (answers ≡ map reply (got ++ c ∷ []) ++ rest)
        × (c.is_last ≡ true)
        × Counts s (got ++ c ∷ [])
  unfolding run_one
  run_one-totals a rid ack answers s nc nl e o =
      let to : Option ReqResult → Type 0 = λ x.
        x ≡ some s
        → (got : List (Chunk F)) × (c : Chunk F) × (rest : List (Reply (Chunk F))) × (ack.accepted
            ≡ true)
          × (answers ≡ map reply (got ++ c ∷ []) ++ rest)
          × (c.is_last ≡ true)
          × Counts s (got ++ c ∷ []) in
      if_cases to ack.accepted
        (λ yes done.
          let (got, c, rest, split, last, all) =
            pull_loop-Counts a answers (new_result rid) s [] nc nl (none_yet rid) refl done o in
          (got, c, rest, yes, split, last, all))
        (λ no done.
          let same : false ≡ s.ok = ap (λ (t : ReqResult). t.ok) (some-injective _ _ done) in
          cc (same ∙ o))
        e
