-- ===== src/Base/Dicts.antt =====
-- Dictionaries keyed by texts: `std::map` and `std::unordered_map` of the program, as association
-- lists. No result of the program depends on the order in which it walks one.
use mathlib.Core.Path.{◌≡◌, refl, sym}
use mathlib.Core.Logic.{inl, inr}
use mathlib.Core.Bool.{Bool, true, false}
use mathlib.Core.List.{List, [], ◌∷◌}
use mathlib.Core.Option.{Option, none, some}
use native.Mathlib.Omega.{arith}
use mini.Base.Tests.{if◌then◌else◌, if_cases, Bool-cases}
use mini.Base.Lists.{All}
use mini.Base.Bytes.{Text, text_eq, text_eq_iff}

abbrev pub Dict {ℓ} : Type ℓ → Type ℓ
Dict V = List (Text × V)

module _ {ℓ} {V : Type ℓ} where
  unfoldable pub find : Text → Dict V → Option V
  find k [] = none
  find k ((j, v) ∷ m) = if text_eq j k then some v else find k m

  -- `m[k] = v`.
  unfoldable pub put : Text → V → Dict V → Dict V
  put k v [] = (k, v) ∷ []
  put k v ((j, w) ∷ m) = if text_eq j k then (k, v) ∷ m else (j, w) ∷ put k v m

  unfoldable pub erase : Text → Dict V → Dict V
  erase k [] = []
  erase k ((j, w) ∷ m) = if text_eq j k then erase k m else (j, w) ∷ erase k m

  -- The value that `m[k]` reads, which is the type's default on a missing key.
  unfoldable pub at_or : Text → V → Dict V → V
  at_or k d [] = d
  at_or k d ((j, v) ∷ m) = if text_eq j k then v else at_or k d m

  unfoldable pub has : Text → Dict V → Bool
  has k [] = false
  has k ((j, v) ∷ m) = if text_eq j k then true else has k m

  pub find-put :
      (k j : Text) (v : V) (m : Dict V)
      → find j (put k v m) ≡ (if text_eq k j then some v else find j m)
  unfolding find put
  find-put k j v [] = refl
  find-put k j v ((i, w) ∷ m) =
      ground (arith, text_eq_iff k j, text_eq_iff i k, text_eq_iff i j, find-put k j v m)

  pub at_or-put :
      (k j : Text) (d v : V) (m : Dict V)
      → at_or j d (put k v m) ≡ (if text_eq k j then v else at_or j d m)
  unfolding at_or put
  at_or-put k j d v [] = refl
  at_or-put k j d v ((i, w) ∷ m) =
      ground (arith, text_eq_iff k j, text_eq_iff i k, text_eq_iff i j, at_or-put k j d v m)

  pub find-erase :
      (k j : Text) (m : Dict V) → find j (erase k m) ≡ (if text_eq k j then none else find j m)
  unfolding find erase
  find-erase k j [] = ground arith
  find-erase k j ((i, w) ∷ m) =
      ground (arith, text_eq_iff k j, text_eq_iff i k, text_eq_iff i j, find-erase k j m)

  pub at_or-erase :
      (k j : Text) (d : V) (m : Dict V)
      → at_or j d (erase k m) ≡ (if text_eq k j then d else at_or j d m)
  unfolding at_or erase
  at_or-erase k j d [] = ground arith
  at_or-erase k j d ((i, w) ∷ m) =
      ground (arith, text_eq_iff k j, text_eq_iff i k, text_eq_iff i j, at_or-erase k j d m)

  -- A property of the written value and of the old one at `j` is one of the value at `j` after a
  -- write or an erasure.
  pub at_or-put-cases {κ} :
      (P : V → Type κ) (k j : Text) (d v : V) (m : Dict V)
      → P v
      → P (at_or j d m)
      → P (at_or j d (put k v m))
  at_or-put-cases P k j d v m new old = elim (Bool-cases (text_eq k j)) [
    | inl same ↦ rw (at_or-put k j d v m, same) new
    | inr other ↦ rw (at_or-put k j d v m, other) old
  ]

  pub at_or-erase-cases {κ} :
      (P : V → Type κ) (k j : Text) (d : V) (m : Dict V)
      → P d
      → P (at_or j d m)
      → P (at_or j d (erase k m))
  at_or-erase-cases P k j d m new old = elim (Bool-cases (text_eq k j)) [
    | inl same ↦ rw (at_or-erase k j d m, same) new
    | inr other ↦ rw (at_or-erase k j d m, other) old
  ]

module _ {ℓ κ} {V : Type ℓ} (P : Text × V → Type κ) where
  pub All-put : (k : Text) (v : V) (m : Dict V) → P (k, v) → All P m → All P (put k v m)
  unfolding put
  All-put k v [] new old = (new, tt)
  All-put k v ((j, w) ∷ m) new old =
      if_cases (All P) (text_eq j k) (λ _. (new, old.1)) (λ _. (old.0, All-put k v m new old.1))

  pub All-find : (k : Text) (v : V) (m : Dict V) → find k m ≡ some v → All P m → P (k, v)
  unfolding find
  All-find k v [] e h = cc
  All-find k v ((j, w) ∷ m) e h = elim (Bool-cases (text_eq j k)) [
    | inl same ↦
        let key : j ≡ k = (text_eq_iff j k).0 same in
        let value : w ≡ v = ground arith in rw (sym key, sym value) h.0
    | inr other ↦ All-find k v m (ground arith) h.1
  ]
