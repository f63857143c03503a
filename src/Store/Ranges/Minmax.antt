-- ===== src/Store/Ranges/Minmax.antt =====
-- The range of a column (cpp/common/csv_store.cpp): it holds the value of every valid row that some thread
-- takes.
use mini.Base.{
  ℕ, ◌<◌, ◌≡◌, arith, true, false, if◌then◌else◌, List, [], ◌∷◌, In, Floats, ◌⊎◌, inl, inr,
}
use mini.Store.{PartitionStore, Column, is_valid, read_val}
use mini.Store.Search.{widen, minmax_rows, combine, minmax_threads, minmax_col}

abbrev pub InSome : ℕ → List (List ℕ) → Type 0
InSome i [] = ⊥
InSome i (rows ∷ threads) = In i rows ⊎ InSome i threads

-- Each of the `n` rows belongs to some thread.
abbrev pub Covers : List (List ℕ) → ℕ → Type 0
Covers threads n = (i : ℕ) → i < n → InSome i threads

module _ {F : Type 0} ⦃fl : Floats F⦄ where
  -- The value is neither below nor above the range. NaN is in every range.
  abbrev pub Holds : F × F → F → Type 0
  Holds r v = (fl.lt v r.0 ≡ false) × (fl.lt r.1 v ≡ false)

  -- Neither end is NaN.
  abbrev IsOrdered : F × F → Type 0
  IsOrdered r = (fl.le r.0 r.0 ≡ true) × (fl.le r.1 r.1 ≡ true)

  -- `x < lo ? x : lo`.
  abbrev lower : F → F → F
  lower x lo = if fl.lt x lo then x else lo

  abbrev raise : F → F → F
  raise x hi = if fl.lt hi x then x else hi

  lower_old : (v x lo : F) → fl.lt v lo ≡ false → fl.lt v (lower x lo) ≡ false
  lower_old v x lo h = ground (arith, fl.lt_trans v x lo)

  raise_old : (v x hi : F) → fl.lt hi v ≡ false → fl.lt (raise x hi) v ≡ false
  raise_old v x hi h = ground (arith, fl.lt_trans hi x v)

  lower_new :
      (v x lo : F)
      → fl.le lo lo ≡ true
      → fl.le x x ≡ true
      → fl.lt v x ≡ false
      → fl.lt v (lower x lo) ≡ false
  lower_new v x lo p q h = ground (arith, fl.le_of_not_lt x lo, fl.lt_le_trans v lo x)

  raise_new :
      (v x hi : F)
      → fl.le hi hi ≡ true
      → fl.le x x ≡ true
      → fl.lt x v ≡ false
      → fl.lt (raise x hi) v ≡ false
  raise_new v x hi p q h = ground (arith, fl.le_of_not_lt hi x, fl.le_lt_trans x hi v)

  lower_self : (x lo : F) → fl.lt x (lower x lo) ≡ false
  lower_self x lo = ground (arith, fl.lt_irrefl x)

  raise_self : (x hi : F) → fl.lt (raise x hi) x ≡ false
  raise_self x hi = ground (arith, fl.lt_irrefl x)

  lower_ordered : (x lo : F) → fl.le lo lo ≡ true → fl.le (lower x lo) (lower x lo) ≡ true
  lower_ordered x lo h = ground (arith, fl.lt_self x lo)

  raise_ordered : (x hi : F) → fl.le hi hi ≡ true → fl.le (raise x hi) (raise x hi) ≡ true
  raise_ordered x hi h = ground (arith, fl.lt_self hi x)

  module _ (s : PartitionStore F) (col : Column F) where
    widen-Holds : (i : ℕ) (r : F × F) (v : F) → Holds r v → Holds (widen s col r i) v
    unfolding widen
    widen-Holds i r v h =
        ground (arith, lower_old v (read_val col i) r.0, raise_old v (read_val col i) r.1)

    widen_self :
        (i : ℕ) (r : F × F) → is_valid s i ≡ true → Holds (widen s col r i) (read_val col i)
    unfolding widen
    widen_self i r valid =
        rw valid (lower_self (read_val col i) r.0, raise_self (read_val col i) r.1)

    widen-IsOrdered : (i : ℕ) (r : F × F) → IsOrdered r → IsOrdered (widen s col r i)
    unfolding widen
    widen-IsOrdered i r h =
        ground (arith, lower_ordered (read_val col i) r.0, raise_ordered (read_val col i) r.1)

    minmax_rows-Holds :
        (rows : List ℕ) (r : F × F) (v : F) → Holds r v → Holds (minmax_rows s col r rows) v
    unfolding minmax_rows
    minmax_rows-Holds [] r v h = h
    minmax_rows-Holds (i ∷ rows) r v h =
        minmax_rows-Holds rows (widen s col r i) v (widen-Holds i r v h)

    minmax_rows_mem :
        (rows : List ℕ) (r : F × F) (i : ℕ)
        → is_valid s i ≡ true
        → In i rows
        → Holds (minmax_rows s col r rows) (read_val col i)
    unfolding minmax_rows
    minmax_rows_mem [] r i valid m = absurd m
    minmax_rows_mem (j ∷ rows) r i valid (inl here) =
        minmax_rows-Holds rows (widen s col r j) (read_val col i) (rw here (widen_self i r valid))
    minmax_rows_mem (j ∷ rows) r i valid (inr m) = minmax_rows_mem rows (widen s col r j) i valid m

    minmax_rows-IsOrdered :
        (rows : List ℕ) (r : F × F) → IsOrdered r → IsOrdered (minmax_rows s col r rows)
    unfolding minmax_rows
    minmax_rows-IsOrdered [] r h = h
    minmax_rows-IsOrdered (i ∷ rows) r h =
        minmax_rows-IsOrdered rows (widen s col r i) (widen-IsOrdered i r h)

    abbrev slice : List ℕ → F × F
    slice = minmax_rows s col (fl.inf, fl.neg_inf)

    slice-IsOrdered : (rows : List ℕ) → IsOrdered (slice rows)
    slice-IsOrdered rows = minmax_rows-IsOrdered rows _ (fl.inf_self, fl.neg_inf_self)

    combine-Holds :
        (a b : F × F) (v : F)
        → IsOrdered a
        → IsOrdered b
        → Holds a v ⊎ Holds b v
        → Holds (combine a b) v
    unfolding combine
    combine-Holds a b v p q (inl h) = (lower_old v b.0 a.0 h.0, raise_old v b.1 a.1 h.1)
    combine-Holds a b v p q (inr h) =
        (lower_new v b.0 a.0 p.0 q.0 h.0, raise_new v b.1 a.1 p.1 q.1 h.1)

    combine-IsOrdered : (a b : F × F) → IsOrdered a → IsOrdered (combine a b)
    unfolding combine
    combine-IsOrdered a b h = (lower_ordered b.0 a.0 h.0, raise_ordered b.1 a.1 h.1)

    minmax_threads-Holds :
        (threads : List (List ℕ)) (total : F × F) (v : F)
        → IsOrdered total
        → Holds total v
        → Holds (minmax_threads s col total threads) v
    unfolding minmax_threads
    minmax_threads-Holds [] total v o h = h
    minmax_threads-Holds (rows ∷ threads) total v o h =
        minmax_threads-Holds threads (combine total (slice rows)) v
          (combine-IsOrdered total (slice rows) o)
          (combine-Holds total (slice rows) v o (slice-IsOrdered rows) (inl h))

    minmax_threads_mem :
        (threads : List (List ℕ)) (total : F × F) (i : ℕ)
        → IsOrdered total
        → is_valid s i ≡ true
        → InSome i threads
        → Holds (minmax_threads s col total threads) (read_val col i)
    unfolding minmax_threads
    minmax_threads_mem [] total i o valid m = absurd m
    minmax_threads_mem (rows ∷ threads) total i o valid (inl m) =
        minmax_threads-Holds threads (combine total (slice rows)) (read_val col i)
          (combine-IsOrdered total (slice rows) o)
          (combine-Holds total (slice rows) (read_val col i) o (slice-IsOrdered rows)
            (inr (minmax_rows_mem rows _ i valid m)))
    minmax_threads_mem (rows ∷ threads) total i o valid (inr m) =
        minmax_threads_mem threads (combine total (slice rows)) i
          (combine-IsOrdered total (slice rows) o) valid m

    -- Whatever rows each thread takes and in whatever order the results are combined, the range of a
    -- column holds the value of every valid row of some thread.
    pub minmax_col-Holds :
        (threads : List (List ℕ)) (i : ℕ)
        → is_valid s i ≡ true
        → InSome i threads
        → Holds (minmax_col threads s col) (read_val col i)
    unfolding minmax_col
    minmax_col-Holds threads i valid m =
        minmax_threads_mem threads _ i (fl.inf_self, fl.neg_inf_self) valid m
