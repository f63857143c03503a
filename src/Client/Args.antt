-- ===== src/Client/Args.antt =====
-- Predicates written as arguments are read back (cpp/client/client.cpp: `parse`).
use mini.Base.{
  ◌≡◌, refl, sym, ap, ◌∙◌, Bool, true, false, if◌then◌else◌, ℤ, Text, codes, text_eq, List, [], ◌∷◌,
  ◌++◌, Option, none, some, Floats,
}
use mathlib.Core.List.{append_assoc, append-nil}
use mathlib.Core.Option
use mini.Store.{RangePredicate}
use mini.Client.{
  CliArgs, parsed, throws, set_low, set_high, change_last, default_args, predicate_on, or_on,
  set_flag, set_value, parse_args, parse,
}

change_last-snoc :
    {A : Type 0} (f : A → A) (xs : List A) (x : A) → change_last f (xs ++ x ∷ []) ≡ xs ++ f x ∷ []
change_last-snoc f [] x = refl
change_last-snoc f (y ∷ []) x = refl
change_last-snoc f (y ∷ z ∷ xs) x = ap (◌∷◌ y) (change_last-snoc f (z ∷ xs) x)

module _ {F : Type 0} ⦃fl : Floats F⦄ where
  or_on-snoc :
      (column : Text) (ps : List (RangePredicate F)) (p : RangePredicate F)
      → or_on column (ps ++ p ∷ []) ≡ ps ++ p ∷ []
  or_on-snoc column [] p = refl
  or_on-snoc column (q ∷ ps) p = refl

module _ {F : Type 0} (print_num : F → Text) where
  -- The arguments that stand for a predicate, before others.
  pub print_predicate : RangePredicate F → List Text → List Text
  print_predicate p rest =
      codes "--column"
      ∷ p.column
      ∷ codes "--low"
      ∷ print_num p.low
      ∷ codes "--high"
      ∷ print_num p.high
      ∷ (if p.inclusive then rest else codes "--exclusive" ∷ rest)

  pub print_predicates : List (RangePredicate F) → List Text
  print_predicates [] = []
  print_predicates (p ∷ ps) = print_predicate p (print_predicates ps)

module _ {F : Type 0} ⦃fl : Floats F⦄ (stod : Text → Option F) (stoi : Text → Option ℤ)
    (parse_iso_dt : Text → ℤ) (print_num : F → Text)
    (numbers : (x : F) → stod (print_num x) ≡ some x) where
  abbrev with_more : CliArgs F → List (RangePredicate F) → CliArgs F
  with_more a ps = record a { predicates = a.predicates ++ ps }

  parse_exclusive :
      (rest : List Text) (a : CliArgs F) (p : RangePredicate F)
      → parse_args stod stoi parse_iso_dt (codes "--exclusive" ∷ rest) (with_more a (p ∷ []))
        ≡ parse_args stod stoi parse_iso_dt rest (with_more a (record p { inclusive = false } ∷ []))
  unfolding parse_args set_flag text_eq codes
  parse_exclusive [] a p =
      ap (λ ps. parse_args stod stoi parse_iso_dt [] (record a { predicates = ps }))
        (change_last-snoc (λ (q : RangePredicate F). record q { inclusive = false }) a.predicates p)
  parse_exclusive (v ∷ rest) a p =
      ap (λ ps. parse_args stod stoi parse_iso_dt (v ∷ rest) (record a { predicates = ps }))
        (change_last-snoc (λ (q : RangePredicate F). record q { inclusive = false }) a.predicates p)

  parse_column :
      (c : Text) (rest : List Text) (a : CliArgs F)
      → parse_args stod stoi parse_iso_dt (codes "--column" ∷ c ∷ rest) a
        ≡ parse_args stod stoi parse_iso_dt rest (with_more a (predicate_on c ∷ []))
  unfolding parse_args set_flag set_value text_eq codes
  parse_column c rest a = refl

  parse_low :
      (x : F) (rest : List Text) (a : CliArgs F) (p : RangePredicate F)
      → parse_args stod stoi parse_iso_dt
          (codes "--low" ∷ print_num x ∷ rest)
          (with_more a (p ∷ []))
        ≡ parse_args stod stoi parse_iso_dt rest (with_more a (record p { low = x } ∷ []))
  unfolding parse_args set_flag set_value text_eq codes
  parse_low x rest a p =
      ap
        (λ (o : Option F).
          elim (Option.map (set_low (codes "trip_distance") (with_more a (p ∷ []))) o) [
            | none ↦ throws
            | some b ↦ parse_args stod stoi parse_iso_dt rest b
          ])
        (numbers x)
      ∙ ap (λ ps. parse_args stod stoi parse_iso_dt rest (record a { predicates = ps }))
          (ap (change_last (λ (q : RangePredicate F). record q { low = x }))
              (or_on-snoc (codes "trip_distance") a.predicates p)
            ∙ change_last-snoc (λ (q : RangePredicate F). record q { low = x }) a.predicates p)

  parse_high :
      (x : F) (rest : List Text) (a : CliArgs F) (p : RangePredicate F)
      → parse_args stod stoi parse_iso_dt
          (codes "--high" ∷ print_num x ∷ rest)
          (with_more a (p ∷ []))
        ≡ parse_args stod stoi parse_iso_dt rest (with_more a (record p { high = x } ∷ []))
  unfolding parse_args set_flag set_value text_eq codes
  parse_high x rest a p =
      ap
        (λ (o : Option F).
          elim (Option.map (set_high (codes "trip_distance") (with_more a (p ∷ []))) o) [
            | none ↦ throws
            | some b ↦ parse_args stod stoi parse_iso_dt rest b
          ])
        (numbers x)
      ∙ ap (λ ps. parse_args stod stoi parse_iso_dt rest (record a { predicates = ps }))
          (ap (change_last (λ (q : RangePredicate F). record q { high = x }))
              (or_on-snoc (codes "trip_distance") a.predicates p)
            ∙ change_last-snoc (λ (q : RangePredicate F). record q { high = x }) a.predicates p)

  parse_predicate :
      (p : RangePredicate F) (rest : List Text) (a : CliArgs F)
      → parse_args stod stoi parse_iso_dt (print_predicate print_num p rest) a
        ≡ parse_args stod stoi parse_iso_dt rest (with_more a (p ∷ []))
  unfolding print_predicate
  parse_predicate p rest a =
      let tail = if p.inclusive then rest else codes "--exclusive" ∷ rest in
      let column = predicate_on p.column in
      let q = record column { low = p.low; high = p.high } in
      parse_column p.column
        (codes "--low" ∷ print_num p.low ∷ codes "--high" ∷ print_num p.high ∷ tail) a
      ∙ parse_low p.low (codes "--high" ∷ print_num p.high ∷ tail) a column
      ∙ parse_high p.high tail a (record column { low = p.low })
      ∙ ending p.inclusive
    where
      ending :
          (b : Bool)
          → parse_args stod stoi parse_iso_dt
              (if b then rest else codes "--exclusive" ∷ rest)
              (with_more a (record p { inclusive = true } ∷ []))
            ≡ parse_args stod stoi parse_iso_dt rest (with_more a (record p { inclusive = b } ∷ []))
      ending true = refl
      ending false = parse_exclusive rest a (record p { inclusive = true })

  parse_predicates :
      (ps : List (RangePredicate F)) (a : CliArgs F)
      → parse_args stod stoi parse_iso_dt (print_predicates print_num ps) a
        ≡ parse_args stod stoi parse_iso_dt [] (with_more a ps)
  unfolding print_predicates
  parse_predicates [] a =
      ap (λ qs. parse_args stod stoi parse_iso_dt [] (record a { predicates = qs }))
        (sym (append-nil a.predicates))
  parse_predicates (p ∷ ps) a =
      parse_predicate p (print_predicates print_num ps) a
      ∙ parse_predicates ps (with_more a (p ∷ []))
      ∙ ap (λ qs. parse_args stod stoi parse_iso_dt [] (record a { predicates = qs }))
          (append_assoc a.predicates (p ∷ []) ps)

  -- The arguments `--column`, `--low`, `--high` and, where it applies, `--exclusive` of one predicate
  -- after the other, at least one, are parsed as those predicates, in order, with every other setting at
  -- its default, given a printer of numbers that `std::stod` inverts.
  pub parse-print_predicates :
      (p : RangePredicate F) (ps : List (RangePredicate F))
      → parse stod stoi parse_iso_dt (print_predicates print_num (p ∷ ps))
        ≡ parsed (record default_args { predicates = p ∷ ps })
  unfolding parse parse_args
  parse-print_predicates p ps = parse_predicates (p ∷ ps) default_args
