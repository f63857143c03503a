-- ===== src/Overlay/Flow/Printed.antt =====
-- A printed sequence of names is read back by `parse_flow_seq` (cpp/common/overlay.cpp).
use mini.Base.{
  ℕ, suc, ◌-◌, ◌≡◌, refl, ap, ◌∙◌, arith, Bool, true, false, not, ◌&&◌, ◌||◌, ◌==◌, ltb, leb,
  if_cases, Text, is_empty, List, [], ◌∷◌, ◌++◌, length, take, All, some,
}
use mathlib.Core.List.{append_assoc, append-nil}
use mini.Overlay.Flow.{
  is_space, drop_spaces, drop_last_spaces, trim, first_is, last_is, dequote, find_first, find_last,
  between, split, clean_all, seq_items, parse_flow_seq,
}

-- No space, comma or quote.
abbrev pub is_plain : ℕ → Bool
is_plain c = not (is_space c || c == 44 || c == 34 || c == 39)

abbrev pub IsPlain : ℕ → Type 0
IsPlain c = is_plain c ≡ true

-- A nonempty text of plain characters.
abbrev pub IsName : Text → Type 0
IsName n = All IsPlain n × (is_empty n ≡ false)

-- The names behind the first, each with a comma and a space before it.
pub print_rest : List Text → Text
print_rest [] = []
print_rest (n ∷ ns) = 44 ∷ 32 ∷ n ++ print_rest ns

-- A sequence as the overlay file has it: `[A, B, C]`.
pub print_seq : Text → List Text → Text
print_seq n ns = 91 ∷ (n ++ print_rest ns) ++ 93 ∷ []

plain_facts :
    (c : ℕ)
    → IsPlain c
    → (is_space c ≡ false) × ((c == 44) ≡ false) × ((c == 34) ≡ false) × ((c == 39) ≡ false)
plain_facts c h = (ground arith, ground arith, ground arith, ground arith)

drop_last_spaces-plain : (n : Text) → All IsPlain n → drop_last_spaces n ≡ n
unfolding drop_last_spaces
drop_last_spaces-plain [] p = refl
drop_last_spaces-plain (c ∷ n) p = ground (arith, drop_last_spaces-plain n p.1, p.0)

trim-plain : (n : Text) → All IsPlain n → trim n ≡ n
unfolding trim drop_spaces
trim-plain [] p = drop_last_spaces-plain [] p
trim-plain (c ∷ n) p = rw (plain_facts c p.0).0 (drop_last_spaces-plain (c ∷ n) p)

dequote-plain : (n : Text) → All IsPlain n → dequote n ≡ n
unfolding dequote
dequote-plain [] p = rw (trim-plain [] p)
dequote-plain (c ∷ n) p =
    let (_, _, double, single) = plain_facts c p.0 in
    rw (trim-plain (c ∷ n) p) (
      if_cases (λ (r : Text). r ≡ c ∷ n)
        (leb 2 (length (c ∷ n))
          && (first_is 34 (c ∷ n) && last_is 34 (c ∷ n)
              || first_is 39 (c ∷ n) && last_is 39 (c ∷ n)))
        (λ quoted. absurd (ground (arith, double, single))) (λ _. refl))

find_last-end : (c : ℕ) (s : Text) → find_last c (s ++ c ∷ []) ≡ some (length s)
unfolding find_last
find_last-end c [] = ground arith
find_last-end c (x ∷ s) = rw (find_last-end c s)

take-length-append : (l r : Text) → take (length l) (l ++ r) ≡ l
take-length-append [] r = refl
take-length-append (x ∷ l) r = ap (◌∷◌ x) (take-length-append l r)

split-plain : (n tok rest : Text) → All IsPlain n → split tok (n ++ rest) ≡ split (tok ++ n) rest
unfolding split
split-plain [] tok rest p = rw (append-nil tok)
split-plain (c ∷ n) tok rest p =
    let (_, no_comma, _, _) = plain_facts c p.0 in
    rw no_comma (
      split-plain n (tok ++ c ∷ []) rest p.1 ∙ ap (λ t. split t rest) (append_assoc tok (c ∷ []) n))

-- The token of a name, with the space before it.
clean_name : (n : Text) → All IsPlain n → dequote (trim (32 ∷ n)) ≡ n
unfolding trim drop_spaces
clean_name n p = ap dequote (trim-plain n p) ∙ dequote-plain n p

-- What the loop makes of the names behind a token.
items-print_rest :
    (ns : List Text) (tok : Text)
    → is_empty (trim tok) ≡ false
    → All IsName ns
    → seq_items (split tok (print_rest ns)) ≡ dequote (trim tok) ∷ ns
unfolding print_rest split seq_items clean_all trim drop_spaces
items-print_rest [] tok h p = rw h
items-print_rest (n ∷ ns) tok h p = rw (split-plain n (32 ∷ []) (print_rest ns) p.0.0) (
    ap (◌∷◌ (dequote (trim tok))) (
      items-print_rest ns (32 ∷ n) (ap is_empty (trim-plain n p.0.0) ∙ p.0.1) p.1
      ∙ ap (λ m. m ∷ ns) (clean_name n p.0.0)))

between-brackets : (s : Text) → between (91 ∷ s ++ 93 ∷ []) 0 (suc (length s)) ≡ s
unfolding between
between-brackets s =
    let middle : suc (length s) - 0 - 1 ≡ length s = omega arith in
    if_cases (λ (t : Text). t ≡ s) (ltb 0 (suc (length s)))
      (λ _. ap (λ k. take k (s ++ 93 ∷ [])) middle ∙ take-length-append s (93 ∷ []))
      (λ never. absurd (ground arith))

parse_flow_seq-brackets : (s : Text) → parse_flow_seq (91 ∷ s ++ 93 ∷ []) ≡ seq_items (split [] s)
unfolding parse_flow_seq find_first find_last
parse_flow_seq-brackets s =
    rw (find_last-end 93 s) (ap (λ t. seq_items (split [] t)) (between-brackets s))

-- A sequence of nonempty names without spaces, commas and quotes, printed in brackets with a comma and a
-- space between them, is read back as it was.
pub parse_flow_seq-print_seq :
    (n : Text) (ns : List Text) → All IsName (n ∷ ns) → parse_flow_seq (print_seq n ns) ≡ n ∷ ns
unfolding print_seq
parse_flow_seq-print_seq n ns p =
    let s = n ++ print_rest ns in
    parse_flow_seq-brackets s
    ∙ ap seq_items (split-plain n [] (print_rest ns) p.0.0)
    ∙ items-print_rest ns n (ap is_empty (trim-plain n p.0.0) ∙ p.0.1) p.1
    ∙ ap (λ m. m ∷ ns) (ap dequote (trim-plain n p.0.0) ∙ dequote-plain n p.0.0)
