-- ===== src/Routing/Json/Printed/Size.antt =====
-- The fuel that a printed JSON value takes is bounded by its text, as `parse_root` of
-- cpp/common/routing.cpp needs it.
use mini.Base.{ℕ, suc, ◌+◌, ◌*◌, ◌≤◌, arith, Text, ◌∷◌, ◌++◌, length, length-append}
use mini.Routing.Json.{
  Value, null, string, number, boolean, object, array, Items, no_items, item, Fields, no_fields,
  field,
}
use mini.Routing.Json.Printed.{print_str, print, print_items, print_fields}

-- The fuel that a value takes.
unfoldable mutual
  pub need : {F : Type 0} → Value F → ℕ
  need (array xs) = suc (need_items xs)
  need (object fs) = suc (need_fields fs)
  need _ = 0

  pub need_items : {F : Type 0} → Items F → ℕ
  need_items no_items = 0
  need_items (item v xs) = suc (need v + need_items xs)

  pub need_fields : {F : Type 0} → Fields F → ℕ
  need_fields no_fields = 0
  need_fields (field k v fs) = suc (need v + need_fields fs)

module _ {F : Type 0} (print_num : F → Text) where
  mutual
    unfolding need print

    pub need-print : (v : Value F) → need v ≤ 2 * length (print print_num v)
    need-print null = omega arith
    need-print (boolean b) = omega arith
    need-print (string t) = omega arith
    need-print (number x) = omega arith
    need-print (array no_items) = omega arith
    need-print (array (item v xs)) = omega (
      arith,
      need-print v,
      need_items-print xs,
      length-append (print print_num v) (print_items print_num xs),
    )
    need-print (object no_fields) = omega arith
    need-print (object (field k v fs)) = omega (
      arith,
      need-print v,
      need_fields-print fs,
      length-append (print print_num v) (print_fields print_num fs),
      length-append (print_str k) (58 ∷ (print print_num v ++ print_fields print_num fs)),
    )

    need_items-print : (xs : Items F) → need_items xs ≤ 2 * length (print_items print_num xs)
    need_items-print no_items = omega arith
    need_items-print (item v xs) = omega (
      arith,
      need-print v,
      need_items-print xs,
      length-append (print print_num v) (print_items print_num xs),
    )

    need_fields-print : (fs : Fields F) → need_fields fs ≤ 2 * length (print_fields print_num fs)
    need_fields-print no_fields = omega arith
    need_fields-print (field k v fs) = omega (
      arith,
      need-print v,
      need_fields-print fs,
      length-append (print print_num v) (print_fields print_num fs),
      length-append (print_str k) (58 ∷ (print print_num v ++ print_fields print_num fs)),
    )
