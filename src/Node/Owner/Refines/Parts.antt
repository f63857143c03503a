-- ===== src/Node/Owner/Refines/Parts.antt =====
-- Parts of lists, for the buffer of an owner's request and the rows behind it.
use mini.Base.{
  ℕ, zero, suc, ◌≡◌, refl, ap, arith, List, [], ◌∷◌, ◌++◌, map, length, get_elem?, take, drop, some,
}

-- How many of `n` items a list has.
abbrev pub fit : {A : Type 0} → ℕ → List A → ℕ
fit n [] = 0
fit zero (x ∷ xs) = 0
fit (suc n) (x ∷ xs) = suc (fit n xs)

pub take-fit : {A : Type 0} (n : ℕ) (xs ys : List A) → take (fit n xs) (xs ++ ys) ≡ take n xs
take-fit zero [] ys = refl
take-fit (suc n) [] ys = refl
take-fit zero (x ∷ xs) ys = refl
take-fit (suc n) (x ∷ xs) ys = ap (◌∷◌ x) (take-fit n xs ys)

pub drop-fit : {A : Type 0} (n : ℕ) (xs ys : List A) → drop (fit n xs) (xs ++ ys) ≡ drop n xs ++ ys
drop-fit zero [] ys = refl
drop-fit (suc n) [] ys = refl
drop-fit zero (x ∷ xs) ys = refl
drop-fit (suc n) (x ∷ xs) ys = drop-fit n xs ys

pub drop-get_elem? :
    {A : Type 0} (xs : List A) (i : ℕ) (x : A)
    → get_elem? xs i ≡ some x
    → drop i xs ≡ x ∷ drop (suc i) xs
drop-get_elem? [] i x h = cc
drop-get_elem? (y ∷ xs) zero x h = ground (arith, h)
drop-get_elem? (y ∷ xs) (suc i) x h = drop-get_elem? xs i x h

pub drop-all : {A : Type 0} (xs : List A) → drop (length xs) xs ≡ []
drop-all [] = refl
drop-all (x ∷ xs) = drop-all xs

pub drop-append : {A : Type 0} (xs ys : List A) → drop (length xs) (xs ++ ys) ≡ ys
drop-append [] ys = refl
drop-append (x ∷ xs) ys = drop-append xs ys

pub take_one : {A B : Type 0} (f : A → B) (xs : List A) → take 1 (map f xs) ≡ map f (take 1 xs)
take_one f [] = refl
take_one f (x ∷ xs) = refl

pub take_once :
    {A B : Type 0} (f : A → B) (xs : List A) → take 1 (map f (take 1 xs)) ≡ map f (take 1 xs)
take_once f [] = refl
take_once f (x ∷ xs) = refl
