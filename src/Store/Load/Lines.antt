-- ===== src/Store/Load/Lines.antt =====
-- The chunks of the loader's threads (cpp/common/csv_store.cpp) are the data, cut behind newlines.
use mini.Base.{
  ℕ, zero, suc, ◌+◌, ◌-◌, ◌*◌, ◌/◌, ◌%◌, ◌^◌, ◌≤◌, ◌<◌, ◌≡◌, refl, sym, ap, ◌∙◌, arith, Bool, true,
  false, ◌==◌, if◌then◌else◌, if_cases, Text, is_empty, List, [], ◌∷◌, ◌++◌, length, take, drop,
  take-append-drop, All, Option, none, some, Option-cases, inl, inr,
}
use native.Mathlib.Nat.{le-div_iff_mul-le, mod-eq_of_lt, div-mul-le_self, mul-le-mul_left}
use mini.Store.Load.{find_newline, boundary, chunk_start, chunks}

-- The text is empty, or ends with a newline.
abbrev pub ends_line : Text → Bool
ends_line [] = true
ends_line (c ∷ s) = let rest = ends_line s in if is_empty s then c == 10 else rest

-- `boundary`, by recursion on the text.
line_after : Text → ℕ → ℕ
line_after [] r = 0
line_after (c ∷ s) zero = let rest = line_after s 0 in if c == 10 then 1 else suc rest
line_after (c ∷ s) (suc r) = suc (line_after s r)

line_after-end : (s : Text) (r : ℕ) → length s ≤ r → line_after s r ≡ length s
unfolding line_after
line_after-end [] r h = refl
line_after-end (c ∷ s) zero h = absurd (omega arith)
line_after-end (c ∷ s) (suc r) h = ap suc (line_after-end s r (omega arith))

behind_newline : Text → Option ℕ → ℕ
behind_newline s none = length s
behind_newline s (some k) = k + 1

first_newline : (s : Text) → behind_newline s (find_newline s) ≡ line_after s 0
unfolding find_newline line_after behind_newline
first_newline [] = refl
first_newline (c ∷ s) = elim (Option-cases (find_newline s)) [
  | inl missing ↦
      let ih : length s ≡ line_after s 0 = rw missing at (first_newline s) in
      if_cases (λ o. behind_newline (c ∷ s) o ≡ line_after (c ∷ s) 0) (c == 10)
        (λ e. ground (arith, e)) (λ e. rw missing (ground (arith, e, ih)))
  | inr (k, found) ↦
      let ih : k + 1 ≡ line_after s 0 = rw found at (first_newline s) in
      if_cases (λ o. behind_newline (c ∷ s) o ≡ line_after (c ∷ s) 0) (c == 10)
        (λ e. ground (arith, e)) (λ e. rw found (ground (arith, e, ih)))
]

boundary-suc : (c : ℕ) (s : Text) (r : ℕ) → boundary (c ∷ s) (suc r) ≡ suc (boundary s r)
unfolding boundary
boundary-suc c s r = elim (Option-cases (find_newline (drop r s))) [
  | inl missing ↦ rw (boundary, missing) (ground arith)
  | inr (k, found) ↦ rw (boundary, found) (ground arith)
]

boundary_nil : (r : ℕ) → boundary [] r ≡ 0
unfolding boundary
boundary_nil r = ground arith

boundary_zero : (s : Text) → boundary s 0 ≡ line_after s 0
unfolding boundary behind_newline
boundary_zero s = elim (Option-cases (find_newline s)) [
  | inl missing ↦
      let ih : length s ≡ line_after s 0 = rw missing at (first_newline s) in
      rw (boundary, missing) (ground (arith, ih))
  | inr (k, found) ↦
      let ih : k + 1 ≡ line_after s 0 = rw found at (first_newline s) in
      rw (boundary, found) (ground (arith, ih, line_after-end s 0))
]

boundary_lem : (s : Text) (r : ℕ) → boundary s r ≡ line_after s r
unfolding line_after
boundary_lem [] r = boundary_nil r
boundary_lem (c ∷ s) zero = boundary_zero (c ∷ s)
boundary_lem (c ∷ s) (suc r) = boundary-suc c s r ∙ ap suc (boundary_lem s r)

line_after-le : (s : Text) (r : ℕ) → line_after s r ≤ length s
unfolding line_after
line_after-le [] r = omega arith
line_after-le (c ∷ s) zero = ground (arith, line_after-le s 0)
line_after-le (c ∷ s) (suc r) = omega (arith, line_after-le s r)

line_after_mono : (s : Text) (r t : ℕ) → r ≤ t → line_after s r ≤ line_after s t
unfolding line_after
line_after_mono [] r t h = omega arith
line_after_mono (c ∷ s) zero zero h = omega arith
line_after_mono (c ∷ s) zero (suc t) h = ground (arith, line_after_mono s 0 t (omega arith))
line_after_mono (c ∷ s) (suc r) zero h = absurd (omega arith)
line_after_mono (c ∷ s) (suc r) (suc t) h = omega (arith, line_after_mono s r t (omega arith))

line_after_pos : (c : ℕ) (s : Text) (r : ℕ) → 0 < line_after (c ∷ s) r
unfolding line_after
line_after_pos c s zero = ground arith
line_after_pos c s (suc r) = omega arith

take-nonempty : (c : ℕ) (s : Text) (n : ℕ) → 0 < n → is_empty (take n (c ∷ s)) ≡ false
take-nonempty c s zero h = absurd (omega arith)
take-nonempty c s (suc n) h = refl

-- A boundary is behind a newline, or at the end.
line_after-ends :
    (s : Text) (r : ℕ) → ends_line s ≡ true → ends_line (take (line_after s r) s) ≡ true
unfolding line_after
line_after-ends [] r h = refl
line_after-ends (c ∷ []) zero h = ground (arith, h)
line_after-ends (c ∷ []) (suc r) h = ground (arith, h)
line_after-ends (c ∷ d ∷ s) zero h =
    if_cases (λ n. ends_line (take n (c ∷ d ∷ s)) ≡ true) (c == 10) (λ e. e)
      λ _. rw (take-nonempty d s _ (line_after_pos d s 0)) (line_after-ends (d ∷ s) zero h)
line_after-ends (c ∷ d ∷ s) (suc r) h =
    rw (take-nonempty d s _ (line_after_pos d s r)) (line_after-ends (d ∷ s) r h)

ends_line-append : (s t : Text) → ends_line (s ++ t) ≡ true → ends_line t ≡ true
ends_line-append [] t h = h
ends_line-append (c ∷ []) [] h = refl
ends_line-append (c ∷ []) (d ∷ t) h = h
ends_line-append (c ∷ b ∷ s) t h = ends_line-append (b ∷ s) t h

abbrev pub join {ℓ} : {A : Type ℓ} → List (List A) → List A
join [] = []
join (x ∷ xs) = x ++ join xs

drop-nil : {A : Type 0} (n : ℕ) → Path (List A) (drop n []) []
drop-nil zero = refl
drop-nil (suc n) = refl

drop-drop : {A : Type 0} (m k : ℕ) (s : List A) → drop k (drop m s) ≡ drop (m + k) s
drop-drop zero k s = ap (λ n. drop n s) (omega arith)
drop-drop (suc m) k [] = drop-nil k ∙ sym (drop-nil (suc m + k))
drop-drop (suc m) k (c ∷ s) =
    let shift : suc m + k ≡ suc (m + k) = omega arith in rw shift (drop-drop m k s)

take-drop-split :
    {A : Type 0} (m n : ℕ) (s : List A) → m ≤ n → take (n - m) (drop m s) ++ drop n s ≡ drop m s
take-drop-split m n s h =
    let whole : m + (n - m) ≡ n = omega arith in
    ap (λ r. take (n - m) (drop m s) ++ r)
      (ap (λ k. drop k s) (sym whole) ∙ sym (drop-drop m (n - m) s))
    ∙ take-append-drop (n - m) (drop m s)

take-nil : {A : Type 0} (n : ℕ) → Path (List A) (take n []) []
take-nil zero = refl
take-nil (suc n) = refl

take-split :
    {A : Type 0} (m n : ℕ) (s : List A) → m ≤ n → take n s ≡ take m s ++ take (n - m) (drop m s)
take-split zero n s h = ap (λ k. take k s) (omega arith)
take-split (suc m) zero s h = absurd (omega arith)
take-split (suc m) (suc n) [] h = sym (take-nil (suc n - suc m))
take-split (suc m) (suc n) (c ∷ s) h =
    ap (◌∷◌ c)
      (take-split m n s (omega arith) ∙ ap (λ k. take m s ++ take k (drop m s)) (omega arith))

take-length : (s : Text) → take (length s) s ≡ s
take-length [] = refl
take-length (c ∷ s) = ap (◌∷◌ c) (take-length s)

drop-length : (s : Text) → drop (length s) s ≡ []
drop-length [] = refl
drop-length (c ∷ s) = drop-length s

div_mono : (a b k : ℕ) → 0 < k → a ≤ b → a / k ≤ b / k
div_mono a b k p h = (le-div_iff_mul-le p).1 (omega (arith, div-mul-le_self a k))

module _ (body : Text) (nt : ℕ) (some_thread : 0 < nt) (no_wrap : length body * nt < 2 ^ 64) where
  -- Where the `i`-th thread looks for its first line.
  raw : ℕ → ℕ
  raw i = length body * i % 2 ^ 64 / nt

  raw_mono : (i : ℕ) → i < nt → raw i ≤ raw (suc i)
  unfolding raw
  raw_mono i h =
      let low : length body * i ≤ length body * suc i =
        mul-le-mul_left (length body) (omega arith) in
      let high : length body * suc i ≤ length body * nt = mul-le-mul_left (length body) h in
      rw
        (
          mod-eq_of_lt {n = length body * i} {m = 2 ^ 64} (omega (arith, low, high)),
          mod-eq_of_lt {n = length body * suc i} {m = 2 ^ 64} (omega (arith, high)),
        )
        (div_mono (length body * i) (length body * suc i) nt some_thread low)

  start_lem :
      (i : ℕ)
      → chunk_start body nt i
        ≡ (if i == 0 then 0 else if i == nt then length body else line_after body (raw i))
  unfolding chunk_start raw
  start_lem i = rw (boundary_lem body (length body * i % 2 ^ 64 / nt))

  start-le : (i : ℕ) → chunk_start body nt i ≤ length body
  start-le i = rw (start_lem i) (ground (arith, line_after-le body (raw i)))

  start_mono : (i : ℕ) → i < nt → chunk_start body nt i ≤ chunk_start body nt (suc i)
  start_mono i h =
      rw (start_lem i, start_lem (suc i))
        (ground (
          arith,
          line_after-le body (raw i),
          line_after_mono body (raw i) (raw (suc i)) (raw_mono i h),
        ))

  pub start_last : chunk_start body nt nt ≡ length body
  start_last = rw (start_lem nt) (ground arith)

  start_ends :
      (i : ℕ) → ends_line body ≡ true → ends_line (take (chunk_start body nt i) body) ≡ true
  start_ends i e = rw (start_lem i) (
      if_cases (λ n. ends_line (take n body) ≡ true) (i == 0) (λ _. refl)
        λ _.
          if_cases (λ n. ends_line (take n body) ≡ true) (i == nt) (λ _. rw (take-length body) e)
            (λ _. line_after-ends body (raw i) e))

  -- The chunks put together are the data.
  pub join-chunks :
      (i n : ℕ) → i + n ≡ nt → join (chunks body nt i n) ≡ drop (chunk_start body nt i) body
  unfolding chunks
  join-chunks i zero e =
      let at_end : i ≡ nt = omega arith in
      let last : chunk_start body nt i ≡ length body =
        ap (chunk_start body nt) at_end ∙ start_last in
      sym (rw last (drop-length body))
  join-chunks i (suc n) e =
      ap
        (λ r.
          take (chunk_start body nt (suc i) - chunk_start body nt i)
            (drop (chunk_start body nt i) body)
          ++ r)
        (join-chunks (suc i) n (omega arith))
      ∙ take-drop-split (chunk_start body nt i) (chunk_start body nt (suc i)) body
          (start_mono i (omega arith))

  -- Each chunk is empty or ends with a newline.
  pub chunks-ends :
      (i n : ℕ)
      → ends_line body ≡ true
      → i + n ≡ nt
      → All (λ c. ends_line c ≡ true) (chunks body nt i n)
  unfolding chunks
  chunks-ends i zero e h = tt
  chunks-ends i (suc n) e h = (
    ends_line-append (take (chunk_start body nt i) body) _ (
        ap ends_line (
          sym (
            take-split (chunk_start body nt i) (chunk_start body nt (suc i)) body
              (start_mono i (omega arith))))
        ∙ start_ends (suc i) e),
    chunks-ends (suc i) n e (omega arith),
  )
