-- ===== src/Client.antt =====
-- The command-line client (cpp/client/client.cpp): its arguments, one request with its fetch loop, and
-- the summary. `std::stod`, `std::stoi` and the reading of a date are parameters, `none` where they throw.
-- What the gateway answers is a list; a wait for an answer that never comes is the list's end. The times,
-- the printing and the log are left out.
pub mod Args
pub mod Totals
use mini.Base.{
  ℕ, ◌+◌, Bool, true, false, not, ◌&&◌, ◌||◌, ◌==◌, ltb, leb, if◌then◌else◌, ℤ, pos, negsuc, leb_ℤ,
  Text, codes, text_eq, is_empty, List, [], ◌∷◌, ◌++◌, map, length, Option, none, some, Floats,
}
use mathlib.Core.Option
use mini.Store.{Query, RangePredicate, TaxiRow}
use mini.Node.Relay.{QueryAck, Reply, reply, failed}
use mini.Node.Handlers.{Chunk}

pub record CliArgs (F : Type 0) : Type 0 where
  pub overlay_path : Text
  pub gateway_name : Text
  pub predicates : List (RangePredicate F)
  pub concurrency : ℤ
  pub max_rows_hint : ℤ
  pub cancel_after : Bool
  pub cancel_after_chunks : ℤ
  pub quiet : Bool
  pub limit_chunks : ℤ
  pub json : Bool
  pub print_rows : ℤ

-- The arguments, an exit with a code, or an exception.
pub data Parsed (F : Type 0) : Type 0 where
  parsed : CliArgs F → Parsed F
  exits : ℕ → Parsed F
  throws : Parsed F

-- `predicates.back()` changed.
abbrev pub change_last : {A : Type 0} → (A → A) → List A → List A
change_last f [] = []
change_last f (x ∷ []) = f x ∷ []
change_last f (x ∷ y ∷ xs) = x ∷ change_last f (y ∷ xs)

module _ {F : Type 0} ⦃fl : Floats F⦄ where
  abbrev pub default_args : CliArgs F
  default_args = record {
    overlay_path = [];
    gateway_name = codes "A";
    predicates = [];
    concurrency = pos 1;
    max_rows_hint = pos 0;
    cancel_after = false;
    cancel_after_chunks = pos 2;
    quiet = false;
    limit_chunks = negsuc 0;
    json = false;
    print_rows = pos 0;
  }

  abbrev pub predicate_on : Text → RangePredicate F
  predicate_on column = record {
    column = column;
    low = fl.of_int (pos 0);
    high = fl.of_int (pos 1_000_000_000);
    inclusive = true;
  }

  -- The predicates, of which there is at least one.
  abbrev pub or_on : Text → List (RangePredicate F) → List (RangePredicate F)
  or_on column [] = predicate_on column ∷ []
  or_on column (p ∷ ps) = p ∷ ps

  abbrev pub set_low : Text → CliArgs F → F → CliArgs F
  set_low column a x = record a {
    predicates =
        change_last (λ (p : RangePredicate F). record p { low = x }) (or_on column a.predicates);
  }

  abbrev pub set_high : Text → CliArgs F → F → CliArgs F
  set_high column a x = record a {
    predicates =
        change_last (λ (p : RangePredicate F). record p { high = x }) (or_on column a.predicates);
  }

  -- An option without a value.
  unfoldable pub set_flag : Text → CliArgs F → Option (CliArgs F)
  unfolding text_eq codes
  set_flag s a =
      if text_eq s (codes "--exclusive")
      then some (record a {
        predicates =
            change_last (λ (p : RangePredicate F). record p { inclusive = false }) a.predicates;
      })
      else if text_eq s (codes "--quiet") || text_eq s (codes "-q")
      then some (record a { quiet = true })
      else if text_eq s (codes "--json")
      then some (record a { json = true })
      else none

  module _ (stod : Text → Option F) (stoi : Text → Option ℤ) (parse_iso_dt : Text → ℤ) where
    -- What an option makes of its value: `none` if it takes none, `some none` where it throws.
    unfoldable pub set_value : Text → CliArgs F → Text → Option (Option (CliArgs F))
    unfolding text_eq codes
    set_value s a v =
        if text_eq s (codes "--overlay")
        then some (some (record a { overlay_path = v }))
        else if text_eq s (codes "--gateway")
        then some (some (record a { gateway_name = v }))
        else if text_eq s (codes "--column")
        then some (some (record a { predicates = a.predicates ++ predicate_on v ∷ [] }))
        else if text_eq s (codes "--low")
        then some (Option.map (set_low (codes "trip_distance") a) (stod v))
        else if text_eq s (codes "--high")
        then some (Option.map (set_high (codes "trip_distance") a) (stod v))
        else if text_eq s (codes "--low-dt")
        then some (some (set_low (codes "pickup_datetime") a (fl.of_int (parse_iso_dt v))))
        else if text_eq s (codes "--high-dt")
        then some (some (set_high (codes "pickup_datetime") a (fl.of_int (parse_iso_dt v))))
        else if text_eq s (codes "--print")
        then some (Option.map (λ n. record a { print_rows = n }) (stoi v))
        else if text_eq s (codes "--concurrency")
        then some (Option.map (λ n. record a { concurrency = n }) (stoi v))
        else if text_eq s (codes "--max-rows")
        then some (Option.map (λ n. record a { max_rows_hint = n }) (stoi v))
        else if text_eq s (codes "--cancel-after")
        then some
            (Option.map (λ n. record a { cancel_after = true; cancel_after_chunks = n }) (stoi v))
        else if text_eq s (codes "--limit-chunks")
        then some (Option.map (λ n. record a { limit_chunks = n }) (stoi v))
        else none

    -- The exit on an argument that is no option.
    abbrev pub unknown_arg : Text → Parsed F
    unknown_arg s =
        if text_eq s (codes "--help") || text_eq s (codes "-h") then exits 0 else exits 2

    -- The loop over the arguments.
    unfoldable pub parse_args : List Text → CliArgs F → Parsed F
    unfolding set_value set_flag text_eq codes
    parse_args [] a = parsed (record a { predicates = or_on (codes "trip_distance") a.predicates })
    parse_args (s ∷ []) a = elim (set_flag s a) [
      | some b ↦ parse_args [] b
      | none ↦ elim (set_value s a []) [ some b ↦ throws | none ↦ unknown_arg s ]
    ]
    parse_args (s ∷ v ∷ rest) a = elim (set_flag s a) [
      | some b ↦ parse_args (v ∷ rest) b
      | none ↦ elim (set_value s a v) [
        | some (some b) ↦ parse_args rest b
        | some none ↦ throws
        | none ↦ unknown_arg s
      ]
    ]

    unfoldable pub parse : List Text → Parsed F
    unfolding parse_args
    parse args = parse_args args default_args

-- The summary of one request.
pub record ReqResult : Type 0 where
  pub rid : Text
  pub rows : ℕ
  pub chunks : ℕ
  pub bytes : ℕ
  pub bytes_min : ℕ
  pub bytes_max : ℕ
  pub owners_hit : ℕ
  pub owners_eligible : ℕ
  pub ok : Bool
  pub err : Text

abbrev pub new_result : Text → ReqResult
new_result rid = record {
  rid = rid;
  rows = 0;
  chunks = 0;
  bytes = 0;
  bytes_min = 0;
  bytes_max = 0;
  owners_hit = 0;
  owners_eligible = 0;
  ok = false;
  err = [];
}

module _ {F : Type 0} (byte_size : Chunk F → ℕ) where
  -- The counters behind one chunk.
  unfoldable pub count_chunk : ReqResult → Chunk F → ReqResult
  count_chunk r c =
      let size = byte_size c in
      let counted = record r {
        chunks = r.chunks + 1;
        rows = r.rows + length c.rows;
        bytes = r.bytes + size;
      } in
      if is_empty c.rows then counted else record counted {
        bytes_min = if r.bytes_min == 0 || ltb size r.bytes_min then size else r.bytes_min;
        bytes_max = if ltb r.bytes_max size then size else r.bytes_max;
      }

  -- The loop over the answers of `FetchChunk`; `none` while it still waits for one.
  unfoldable pub pull_loop : CliArgs F → ReqResult → List (Reply (Chunk F)) → Option ReqResult
  unfolding count_chunk
  pull_loop a r [] = none
  pull_loop a r (failed e ∷ answers) = some (record r { err = codes "FetchChunk: " ++ e })
  pull_loop a r (reply c ∷ answers) =
      let s = count_chunk r c in
      let rest = pull_loop a s answers in
      if a.cancel_after && leb_ℤ a.cancel_after_chunks (pos s.chunks)
      then some (record s { ok = true })
      else if leb_ℤ (pos 0) a.limit_chunks && leb_ℤ a.limit_chunks (pos s.chunks)
      then some (record s { ok = true })
      else if c.is_last
      then some
          (record s { owners_hit = c.owners_hit; owners_eligible = c.owners_eligible; ok = true })
      else rest

  unfoldable pub run_one :
      CliArgs F → Text → Reply QueryAck → List (Reply (Chunk F)) → Option ReqResult
  unfolding pull_loop
  run_one a rid (failed e) answers = some (record (new_result rid) { err = e })
  run_one a rid (reply ack) answers =
      let pulled = pull_loop a (new_result rid) answers in
      if ack.accepted then pulled else some (record (new_result rid) { err = ack.reject_reason })

-- The query that a request submits.
abbrev pub query_of : {F : Type 0} → CliArgs F → Text → Query F
query_of a rid = record { request_id = rid; predicates = a.predicates }

-- The requests that failed, and the rows of all.
unfoldable pub count_failed : List ReqResult → ℕ
count_failed [] = 0
count_failed (r ∷ rs) = (if r.ok then 0 else 1) + count_failed rs

unfoldable pub total_rows : List ReqResult → ℕ
total_rows [] = 0
total_rows (r ∷ rs) = r.rows + total_rows rs

-- The exit code of `main` behind its requests.
unfoldable pub exit_code : List ReqResult → ℕ
unfolding count_failed
exit_code rs = if count_failed rs == 0 then 0 else 1
