-- ===== src/Examples/Reading.antt =====
-- A small manifest printed and read back, and texts that are not well-formed (cpp/common/routing.cpp).
use mini.Base.{
  ℕ, zero, suc, ◌≡◌, refl, ap, ◌==◌, if◌then◌else◌, true, false, pos, negsuc, Text, codes, is_empty,
  text_eq, [], ◌∷◌, length, replicate, All, Option, none, some, Whole, In, inl, inr, nan,
  neg_infinity, infinity, whole, whole_floats,
}
use mini.Routing.Json.{
  Value, string, number, boolean, object, array, no_items, item, Fields, no_fields, field, is_num,
  parse_root, parse_value, next, ws, token, word, span_num, has_field,
}
use mini.Routing.Manifest.{load_owner_metadata, find_field, int_lists, ints, ranges}
use mini.Routing.Manifest.Zones.{ZonesList, Lists, load-by_zone_sound}
use mini.Routing.{OwnerMetadata, eligible_owners}
use mini.Examples.Partition.{trips}
use mini.Examples.Routes.{by_zones, airport, airport_fits, airport-matches, owners, tm_mon}
use mini.Routing.Json.Ends.{parse_root-ends}
use mini.Routing.Json.Printed.{print, PrintsNumbers, has_keys}
use mini.Routing.Json.Printed.Read.{parse_root-print}

-- Numbers in unary: a sign and as many ones.
abbrev pub print_whole : Whole → Text
print_whole nan = 101 ∷ []
print_whole neg_infinity = 46 ∷ []
print_whole infinity = 69 ∷ []
print_whole (whole (pos n)) = 43 ∷ replicate n 49
print_whole (whole (negsuc n)) = 45 ∷ replicate n 49

abbrev pub stod : Text → Option Whole
stod [] = none
stod (c ∷ s) =
    if c == 43
    then some (whole (pos (length s)))
    else if c == 45
    then some (whole (negsuc (length s)))
    else if c == 101
    then some nan
    else if c == 46
    then some neg_infinity
    else some infinity

length-replicate : (n : ℕ) → length {A = ℕ} (replicate n 49) ≡ n
length-replicate zero = refl
length-replicate (suc n) = ap suc (length-replicate n)

ones_num : (n : ℕ) → All (λ c. is_num c ≡ true) (replicate n 49)
ones_num zero = tt
ones_num (suc n) = (refl, ones_num n)

print_some : (x : Whole) → is_empty (print_whole x) ≡ false
print_some nan = refl
print_some neg_infinity = refl
print_some infinity = refl
print_some (whole (pos n)) = refl
print_some (whole (negsuc n)) = refl

print_chars : (x : Whole) → All (λ c. is_num c ≡ true) (print_whole x)
print_chars nan = (refl, tt)
print_chars neg_infinity = (refl, tt)
print_chars infinity = (refl, tt)
print_chars (whole (pos n)) = (refl, ones_num n)
print_chars (whole (negsuc n)) = (refl, ones_num n)

pub print_back : (x : Whole) → stod (print_whole x) ≡ some x
print_back nan = refl
print_back neg_infinity = refl
print_back infinity = refl
print_back (whole (pos n)) = ap (λ m. some (whole (pos m))) (length-replicate n)
print_back (whole (negsuc n)) = ap (λ m. some (whole (negsuc m))) (length-replicate n)

pub whole_numbers : PrintsNumbers stod print_whole
whole_numbers = record { some_char = print_some; num_chars = print_chars; read_back = print_back }

-- `{"k":"a\"b","l":[+1,true,[]],"m":{}}`
abbrev small : Value Whole
small = object (
    field (codes "k") (string (97 ∷ 34 ∷ 92 ∷ [])) (
      field (codes "l")
        (array
          (item (number (whole (pos 1))) (item (boolean true) (item (array no_items) no_items))))
        (field (codes "m") (object no_fields) no_fields)))

small_keys : has_keys small ≡ true
unfolding has_keys has_field text_eq codes
small_keys = refl

parse_root-print_example : parse_root stod (print print_whole small) ≡ some small
parse_root-print_example = parse_root-print stod print_whole whole_numbers small small_keys

parse_root-ends_example : (v : Value Whole) × (parse_root stod (codes "{\"a\":[,") ≡ some v)
parse_root-ends_example = parse_root-ends stod (codes "{\"a\":[,")

-- What does not start a value is a number of no characters, 0 where `std::stod` throws, and of text
-- behind the value nothing is said.
bare_word : parse_root stod (codes "yes") ≡ some (number (whole (pos 0)))
unfolding parse_root parse_value next ws token word span_num text_eq codes
bare_word = refl

-- `{"scheme":"pu_location_id","owner_zones":{"B":[132,48]}}`, its numbers in unary.
abbrev zone_fields : Fields Whole
zone_fields = field (codes "scheme") (string (codes "pu_location_id")) (
    field (codes "owner_zones")
      (object (
        field (codes "B")
          (array (item (number (whole (pos 132))) (item (number (whole (pos 48))) no_items)))
          no_fields))
      no_fields)

abbrev read_zones : OwnerMetadata Whole
read_zones = record by_zones { dist_range = [] }

zone_keys : has_keys (object zone_fields) ≡ true
unfolding has_keys has_field text_eq codes
zone_keys = refl

zone_manifest-parsed :
    parse_root stod (print print_whole (object zone_fields)) ≡ some (object zone_fields)
zone_manifest-parsed =
    parse_root-print stod print_whole whole_numbers (object zone_fields) zone_keys

zone_manifest-loaded :
    load_owner_metadata stod (some (print print_whole (object zone_fields))) ≡ some read_zones
unfolding load_owner_metadata text_eq codes find_field int_lists ints ranges
zone_manifest-loaded = rw (load_owner_metadata, zone_manifest-parsed) refl

B_lists : ZonesList (codes "B") (pos 132) (find_field (codes "owner_zones") zone_fields)
unfolding Lists find_field text_eq codes ints
B_lists = (λ e. inl refl, tt)

load-by_zone_sound_example : In (codes "B") (eligible_owners tm_mon owners airport read_zones)
unfolding find_field text_eq codes
load-by_zone_sound_example =
    load-by_zone_sound stod (print print_whole (object zone_fields)) zone_fields read_zones tm_mon
      owners airport (codes "B") trips 0 zone_manifest-parsed zone_manifest-loaded refl B_lists
      (inr (inl refl)) airport_fits refl airport-matches
