-- ===== src/Examples/Commands.antt =====
-- Command lines of the client, and a run of a request (cpp/client/client.cpp).
use mini.Base.{
  ℕ, ◌≡◌, refl, Bool, true, false, ℤ, pos, Text, codes, text_eq, List, [], ◌∷◌, ◌++◌, map, length,
  Option, some, Whole, whole, whole_floats,
}
use mini.Store.{RangePredicate, fill}
use mini.Node.Relay.{Reply, reply, accept}
use mini.Node.Handlers.{Chunk}
use mini.Client.{
  parse, set_flag, set_value, parsed, exits, throws, default_args, ReqResult, run_one, pull_loop,
  count_chunk,
}
use mini.Client.Args.{print_predicates, parse-print_predicates}
use mini.Client.Totals.{Counts, run_one-totals}
use mini.Examples.Partition.{trips}
use mini.Examples.Reading.{print_whole, stod, print_back}

abbrev stoi : Text → Option ℤ
stoi s = some (pos (length s))

abbrev parse_iso_dt : Text → ℤ
parse_iso_dt s = pos 0

abbrev near : RangePredicate Whole
near = record {
  column = codes "trip_distance";
  low = whole (pos 1);
  high = whole (pos 3);
  inclusive = false;
}

abbrev airport_zone : RangePredicate Whole
airport_zone = record {
  column = codes "pu_location_id";
  low = whole (pos 2);
  high = whole (pos 2);
  inclusive = true;
}

parse-print_predicates_example :
    parse stod stoi parse_iso_dt (print_predicates print_whole (near ∷ airport_zone ∷ []))
    ≡ parsed (record default_args { predicates = near ∷ airport_zone ∷ [] })
parse-print_predicates_example =
    parse-print_predicates stod stoi parse_iso_dt print_whole print_back near (airport_zone ∷ [])

-- An option without its value throws, and an unknown one exits with 2.
option_alone : parse stod stoi parse_iso_dt (codes "--json" ∷ codes "--low" ∷ []) ≡ throws
unfolding parse set_flag set_value text_eq codes
option_alone = refl

unknown_option : parse stod stoi parse_iso_dt (codes "--all" ∷ []) ≡ exits 2
unfolding parse set_flag set_value text_eq codes
unknown_option = refl

abbrev chunk : Bool → Chunk Whole
chunk is_last = record {
  request_id = codes "r1";
  seq = pos 0;
  rows = fill trips 0 ∷ fill trips 1 ∷ [];
  is_last = is_last;
  backlog = 2;
  producer = codes "A";
  owners_hit = 1;
  owners_eligible = 2;
}

abbrev byte_size : Chunk Whole → ℕ
byte_size c = 100

abbrev counted : ReqResult
counted = record {
  rid = codes "r1";
  rows = 4;
  chunks = 2;
  bytes = 200;
  bytes_min = 100;
  bytes_max = 100;
  owners_hit = 1;
  owners_eligible = 2;
  ok = true;
  err = [];
}

abbrev answers : List (Reply (Chunk Whole))
answers = reply (chunk false) ∷ reply (chunk true) ∷ []

run_counted :
    run_one byte_size default_args (codes "r1") (reply (accept (codes "r1"))) answers ≡ some counted
unfolding run_one pull_loop count_chunk
run_counted = refl

run_one-totals_example :
    (got : List (Chunk Whole)) × (c : Chunk Whole) × (rest : List (Reply (Chunk Whole))) × ((accept
        (codes "r1")).accepted
      ≡ true)
    × (answers ≡ map reply (got ++ c ∷ []) ++ rest)
    × (c.is_last ≡ true)
    × Counts byte_size counted (got ++ c ∷ [])
run_one-totals_example =
    run_one-totals byte_size default_args (codes "r1") (accept (codes "r1")) answers counted refl
      refl run_counted refl
