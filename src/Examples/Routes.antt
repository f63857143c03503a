-- ===== src/Examples/Routes.antt =====
-- Routing by a manifest (cpp/common/routing.cpp), and relaying over a chain and over a loop
-- (cpp/common/overlay.cpp, cpp/server/node.cpp).
use mini.Overlay.Flow.{parse_flow_seq}
use mini.Overlay.Flow.Printed.{print_seq, parse_flow_seq-print_seq}
use mini.Base.{
  ℕ, ◌≡◌, refl, arith, inl, inr, true, false, ℤ, pos, negsuc, Text, codes, List, [], ◌∷◌, In, some,
  Whole, whole, whole_floats, text_eq, find, has, is_empty, ◌↔◌, ◌⊎◌,
}
use mathlib.Core.Option.{some-injective}
use mini.Store.{
  Query, RangePredicate, matches, matches_all, resolve_col, columns, hit, is_valid, read_val,
}
use mini.Store.Ranges.{Holds}
use mini.Routing.{OwnerMetadata, eligible_owners, find_pred, month_of_epoch}
use mini.Routing.Sound.{by_distance_sound, by_zone_sound, eligible_owners-sub}
use mini.Routing.Months.{year_end_drops_owner}
use mini.Overlay.{Overlay, NodeSpec, neighbors, next_hop, has_node, default_chunking}
use mini.Overlay.Neighbors.{neighbors-In}
use mini.Node.Relay.{Fate, answered, lost, reply, failed, accept, reject, forward_query, pull_from}
use mini.Node.Relay.Routes.{
  Hop, Route, arrived, hop, IsHonest, forward_query-IsHonest, forward_query-delivers,
  forward_query-expires, pull_from-delivers, pull_loops,
}
use mini.Examples.Partition.{trips, between, short_trips}

abbrev manifest : OwnerMetadata Whole
manifest = record {
  scheme = codes "trip_distance";
  dist_range = (codes "B", (whole (pos 2), whole (pos 9))) ∷ [];
  zones = [];
  months = [];
  hash_bucket_multiplier = pos 100;
  vnodes_per_owner = 0;
  total_vnodes = 0;
  hash_column = [];
  owners_order = [];
}

abbrev pub owners : List Text
owners = codes "A" ∷ codes "B" ∷ []

-- Months of a year of twelve equal months of a second each.
abbrev pub tm_mon : ℤ → ℕ
tm_mon (pos n) = n
tm_mon (negsuc n) = 0

B_range :
    (r : Whole × Whole) → find (codes "B") manifest.dist_range ≡ some r → Holds r (whole (pos 2))
unfolding find text_eq codes
B_range r e =
    let same : (whole (pos 2), whole (pos 9)) ≡ r = some-injective _ _ e in rw (← same) (refl, refl)

short_matches : matches trips 0 short_trips ≡ true
unfolding matches matches_all resolve_col columns find text_eq codes is_valid hit read_val
short_matches = refl

by_distance_sound_example : In (codes "B") (eligible_owners tm_mon owners short_trips manifest)
by_distance_sound_example =
    by_distance_sound tm_mon owners short_trips manifest (codes "B") trips 0 refl (inr (inl refl))
      B_range short_matches

abbrev pub by_zones : OwnerMetadata Whole
by_zones = record manifest {
  scheme = codes "pu_location_id";
  zones = (codes "B", pos 48 ∷ pos 132 ∷ []) ∷ [];
}

abbrev pub airport : Query Whole
airport = between (codes "pu_location_id") 130 140

B_zones : (zs : List ℤ) → find (codes "B") by_zones.zones ≡ some zs → In (pos 132) zs
unfolding find text_eq codes
B_zones zs e =
    let same : pos 48 ∷ pos 132 ∷ [] ≡ zs = some-injective _ _ e in rw (← same) (inr (inl refl))

pub airport_fits :
    (p : RangePredicate Whole)
    → find_pred (codes "pu_location_id") airport.predicates ≡ some p
    → (whole_floats.fits p.low ≡ true) × (whole_floats.fits p.high ≡ true)
unfolding find_pred text_eq codes
airport_fits p e =
    let same : record {
      column = codes "pu_location_id";
      low = whole (pos 130);
      high = whole (pos 140);
      inclusive = true;
    }
        ≡ p =
      some-injective _ _ e in
    rw (← same) (refl, refl)

pub airport-matches : matches trips 0 airport ≡ true
unfolding matches matches_all resolve_col columns find text_eq codes is_valid hit read_val
airport-matches = refl

by_zone_sound_example : In (codes "B") (eligible_owners tm_mon owners airport by_zones)
by_zone_sound_example =
    by_zone_sound tm_mon owners airport by_zones (codes "B") trips 0 refl (inr (inl refl)) B_zones
      airport_fits refl airport-matches

B_eligible : In (codes "B") (eligible_owners tm_mon owners airport by_zones)
B_eligible =
    by_zone_sound tm_mon owners airport by_zones (codes "B") trips 0 refl (inr (inl refl)) B_zones
      airport_fits refl airport-matches

eligible_owners-sub_test : In (codes "B") owners
eligible_owners-sub_test = eligible_owners-sub tm_mon owners airport by_zones (codes "B") B_eligible

abbrev by_months : OwnerMetadata Whole
by_months = record manifest {
  scheme = codes "pickup_datetime";
  months = (codes "B", pos 1 ∷ []) ∷ [];
}

-- With `tm_mon` as it is here, the ends fall in the months 11 and 1, counted from 0.
abbrev winter : Query Whole
winter = between (codes "pickup_datetime") 11 1

winter_found :
    find_pred (codes "pickup_datetime") winter.predicates
    ≡ some (record {
      column = codes "pickup_datetime";
      low = whole (pos 11);
      high = whole (pos 1);
      inclusive = true;
    })
unfolding find_pred text_eq codes
winter_found = refl

B_months : find (codes "B") by_months.months ≡ some (pos 1 ∷ [])
unfolding find text_eq codes
B_months = refl

year_end_drops_owner_test : ¬ In (codes "B") (eligible_owners tm_mon owners winter by_months)
unfolding month_of_epoch
year_end_drops_owner_test =
    year_end_drops_owner tm_mon owners winter by_months _ (codes "B") (pos 1 ∷ []) refl winter_found
      B_months (omega arith) (inl refl, tt)

abbrev pub node : Text → Text × NodeSpec
node name = (
  name,
  record {
    name = name;
    host = codes "127.0.0.1";
    port = pos 50051;
    team = [];
    role = [];
    impl = [];
    virtual_host = codes "h1";
  },
)

abbrev pub chain : Overlay
chain = record {
  nodes = node (codes "A") ∷ node (codes "B") ∷ node (codes "C") ∷ [];
  edges = (codes "A", codes "B") ∷ (codes "B", codes "C") ∷ [];
  routing =
      (codes "A", (codes "C", codes "B") ∷ []) ∷ (codes "B", (codes "C", codes "C") ∷ []) ∷ [];
  data_owners = codes "C" ∷ [];
  chunking = default_chunking;
  mode = codes "weighted_round_robin";
  network = record { intra_host_max_rows = pos 0; inter_host_max_rows = pos 0 };
}

-- A routing table that sends what is for C back and forth.
abbrev loop : Overlay
loop = record chain {
  routing =
      (codes "A", (codes "C", codes "B") ∷ []) ∷ (codes "B", (codes "C", codes "A") ∷ []) ∷ [];
}

neighbors-In_test :
    In (codes "C") (neighbors chain (codes "B"))
    ↔ (In (codes "B", codes "C") chain.edges ⊎ In (codes "C", codes "B") chain.edges)
neighbors-In_test = neighbors-In chain (codes "B") (codes "C")

abbrev link : Text → Text → Fate
link a b = answered

A_to_B : Hop chain (codes "A") (codes "C") (codes "B")
unfolding next_hop has_node find has text_eq codes
A_to_B = record { elsewhere = refl; routed = refl; named = refl; onward = refl; known = refl }

B_to_C : Hop chain (codes "B") (codes "C") (codes "C")
unfolding next_hop has_node find has text_eq codes
B_to_C = record { elsewhere = refl; routed = refl; named = refl; onward = refl; known = refl }

C_there : text_eq (codes "C") (codes "C") ≡ true
unfolding text_eq codes
C_there = refl

A_to_C : Route chain (codes "C") (codes "A") 2
A_to_C = hop A_to_B (hop B_to_C (arrived C_there))

abbrev thrown : Text
thrown = codes "exception"

forward_query-IsHonest_example :
    IsHonest chain
      (λ a b. lost thrown)
      thrown
      (codes "C")
      (forward_query chain (λ a b. lost thrown) thrown 8 (codes "r1") (codes "A") (codes "C"))
forward_query-IsHonest_example =
    forward_query-IsHonest chain (λ a b. lost thrown) thrown 8 (codes "r1") (codes "A") (codes "C")

forward_query-delivers_example :
    forward_query chain link thrown 8 (codes "r1") (codes "A") (codes "C")
    ≡ (reply (accept (codes "r1")), codes "C" ∷ [])
forward_query-delivers_example =
    forward_query-delivers chain link thrown 8 (codes "r1") (codes "C") A_to_C (λ a b. refl)
      (omega arith)

forward_query-expires_example :
    forward_query chain link thrown 2 (codes "r1") (codes "A") (codes "C")
    ≡ (reply (reject (codes "r1") (codes "ttl expired")), [])
forward_query-expires_example =
    forward_query-expires chain link thrown 2 (codes "r1") (codes "C") A_to_C (λ a b. refl)
      (omega arith)

C_named : is_empty (codes "C") ≡ false
unfolding codes
C_named = refl

abbrev expired : Text
expired = codes "Deadline Exceeded"

pull_from-delivers_example :
    pull_from chain link thrown expired 3 (codes "A") (codes "C") ≡ reply (codes "C")
pull_from-delivers_example =
    pull_from-delivers chain link thrown expired 3 (codes "C") A_to_C C_named (λ a b. refl)
      (omega arith)

A_to_B_again : Hop loop (codes "A") (codes "C") (codes "B")
unfolding next_hop has_node find has text_eq codes
A_to_B_again = record { elsewhere = refl; routed = refl; named = refl; onward = refl; known = refl }

B_to_A : Hop loop (codes "B") (codes "C") (codes "A")
unfolding next_hop has_node find has text_eq codes
B_to_A = record { elsewhere = refl; routed = refl; named = refl; onward = refl; known = refl }

pull_loops_example :
    (pull_from loop link thrown expired 100 (codes "A") (codes "C") ≡ failed expired)
    × (forward_query loop link thrown 100 (codes "r1") (codes "A") (codes "C")
        ≡ (reply (reject (codes "r1") (codes "ttl expired")), []))
pull_loops_example =
    pull_loops loop link thrown expired (codes "A") (codes "B") (codes "C") (codes "r1") 100 C_named
      (λ a b. refl) A_to_B_again B_to_A

parse_flow_seq-print_seq_example :
    parse_flow_seq (print_seq (codes "A") (codes "B" ∷ codes "CD" ∷ []))
    ≡ codes "A" ∷ codes "B" ∷ codes "CD" ∷ []
unfolding codes
parse_flow_seq-print_seq_example =
    parse_flow_seq-print_seq (codes "A") (codes "B" ∷ codes "CD" ∷ [])
      (((refl, tt), refl), (((refl, tt), refl), (((refl, (refl, tt)), refl), tt)))
