-- ===== src/Node/Start.antt =====
-- The start of a node (cpp/server/node.cpp): the arguments of `main`, the environment, and the constructor
-- of `Mini2ServiceImpl` with its partition and tables. The files that can be opened are an argument, by
-- their paths, as are the environment, `atoi`, the number of threads and how they share the rows of a
-- partition; a port can be bound or not. Logs, telemetry and the serving until a signal are left out.
pub mod Loads
pub mod Answers
pub mod Serves
use mini.Base.{
  ℕ, Bool, true, false, ◌||◌, if◌then◌else◌, ℤ, pos, ltb_ℤ, max_ℤ, Text, codes, find, text_eq,
  is_empty, List, [], ◌∷◌, ◌++◌, Option, none, some, Floats,
}
use mini.Store.{PartitionStore, empty, size}
use mini.Store.Search.{compute_column_ranges}
use mini.Store.Load.{FromChars}
use mini.Store.Load.Rows.{store_of, load_partition_csv}
use mini.Scheduler.FairScheduler
use mini.Scheduler.ChunkSizer
use mini.Overlay.{Overlay, NodeSpec, has_node}
use mini.Overlay.Load.{load_overlay}
use mini.Routing.{OwnerMetadata}
use mini.Routing.Manifest.{load_owner_metadata}
use mini.Node.Handlers.{Server}

pub record NodeArgs : Type 0 where
  pub name : Text
  pub overlay_path : Text
  pub data_dir : Text
  pub workers : ℤ

-- The arguments, an exit with a code, or an exception.
pub data Parsed : Type 0 where
  parsed : NodeArgs → Parsed
  exits : ℕ → Parsed
  throws : Parsed

-- What `main` comes to: a node that serves on a port with a cap on its threads, an exit with a code, or
-- an exception that nothing catches.
pub data Outcome (F : Type 0) : Type 0 where
  serves : Server F → (port max_threads : ℤ) → Outcome F
  exits : ℕ → Outcome F
  throws : Outcome F

abbrev pub default_args : NodeArgs
default_args = record { name = []; overlay_path = []; data_dir = []; workers = pos 16 }

-- The exit on an argument that takes no value.
abbrev pub other_arg : Text → Parsed
other_arg s = if text_eq s (codes "--help") || text_eq s (codes "-h") then exits 0 else exits 2

module _ (atoi : Text → ℤ) where
  -- What an option makes of its value; `none` if it is no option.
  unfoldable pub set_arg : Text → NodeArgs → Text → Option NodeArgs
  unfolding text_eq codes
  set_arg s a v =
      if text_eq s (codes "--name")
      then some (record a { name = v })
      else if text_eq s (codes "--overlay")
      then some (record a { overlay_path = v })
      else if text_eq s (codes "--data-dir")
      then some (record a { data_dir = v })
      else if text_eq s (codes "--workers")
      then some (record a { workers = atoi v })
      else none

  -- The loop over the arguments; `pop_arg` throws behind the last.
  unfoldable pub parse_args : List Text → NodeArgs → Parsed
  unfolding set_arg text_eq codes
  parse_args [] a = parsed a
  parse_args (s ∷ []) a = elim (set_arg s a []) [ some b ↦ throws | none ↦ other_arg s ]
  parse_args (s ∷ v ∷ rest) a = elim (set_arg s a v) [
    | some b ↦ parse_args rest b
    | none ↦ other_arg s
  ]

-- A node's own partition.
abbrev pub partition_file : (Text → Option Text) → Text → Text → Option Text
partition_file files data_dir name = files (data_dir ++ codes "/" ++ name ++ codes ".csv")

module _ (getenv : Text → Option Text) where
  unfoldable pub env_or : Text → Text → Text
  env_or key dflt = elim (getenv key) [ none ↦ dflt | some v ↦ v ]

  -- An argument, or else the environment's.
  abbrev pub arg_or : Text → Text → Text → Text
  arg_or arg key dflt = if is_empty arg then env_or key dflt else arg

  -- The cap on the server's threads.
  unfoldable pub max_threads : (Text → ℤ) → ℤ → ℤ
  unfolding codes
  max_threads atoi workers = elim (getenv (codes "MINI2_WORKERS")) [
    | none ↦ max_ℤ (pos 2) workers
    | some w ↦ max_ℤ (pos 2) (if ltb_ℤ (pos 0) (atoi w) then atoi w else workers)
  ]

module _ {F : Type 0} ⦃fl : Floats F⦄ (split : ℕ → List (List ℕ)) where
  -- The range table, where there are rows.
  abbrev pub with_ranges : PartitionStore F → PartitionStore F
  with_ranges part = if empty part then part else compute_column_ranges (split (size part)) part

module _ {F : Type 0} ⦃fl : Floats F⦄ (from_chars : FromChars F) (stod : Text → Option F) (nt : ℕ)
    (split : ℕ → List (List ℕ)) (files : Text → Option Text) where
  -- The loop over the data owners that loads the node's own partition.
  unfoldable pub load_own : Text → Text → List Text → PartitionStore F → Option (PartitionStore F)
  unfolding load_partition_csv codes
  load_own name data_dir [] part = some part
  load_own name data_dir (o ∷ os) part =
      let skipped = load_own name data_dir os part in
      if text_eq o name
      then elim (partition_file files data_dir name) [
        | none ↦ skipped
        | some csv ↦ elim (load_partition_csv from_chars nt csv) [
          | none ↦ none
          | some loaded ↦ load_own name data_dir os loaded
        ]
      ]
      else skipped

  -- The constructor; `none` where it throws.
  unfoldable pub start_node : Text → Overlay → Text → Option (Server F)
  unfolding find load_own store_of load_owner_metadata FairScheduler.make ChunkSizer.make
      compute_column_ranges codes
  start_node name overlay data_dir = elim (find name overlay.nodes) [
    | none ↦ none
    | some me ↦ elim (load_own name data_dir overlay.data_owners (store_of [])) [
      | none ↦ none
      | some part ↦ elim (load_owner_metadata stod (files (data_dir ++ codes "/manifest.json"))) [
        | none ↦ none
        | some meta ↦ some (record {
          name = name;
          overlay = overlay;
          me = me;
          meta = meta;
          part = with_ranges split part;
          requests = [];
          sched = FairScheduler.make overlay.mode;
          sizer =
              ChunkSizer.make overlay.chunking.initial_rows overlay.chunking.min_rows
                overlay.chunking.max_rows overlay.chunking.target_chunk_ms;
        })
      ]
    ]
  ]

  module _ (atoi : Text → ℤ) (getenv : Text → Option Text) (binds : ℤ → Bool) where
    -- The overlay file's path, and the file.
    unfoldable pub open_overlay : Text → Option Overlay
    unfolding load_overlay env_or codes
    open_overlay path =
        let given = arg_or getenv path (codes "MINI2_OVERLAY") [] in
        elim (files (if is_empty given then codes "config/overlay.yaml" else given)) [
          | none ↦ none
          | some file ↦ load_overlay atoi getenv file
        ]

    -- `main` from the service on.
    unfoldable pub serve_on : NodeArgs → Option (Server F) → Outcome F
    unfolding max_threads
    serve_on a none = throws
    serve_on a (some server) =
        if binds server.me.port
        then serves server server.me.port (max_threads getenv atoi a.workers)
        else exits 1

    -- `main` from the overlay on.
    unfoldable pub main_on : NodeArgs → Text → Option Overlay → Outcome F
    unfolding env_or has_node start_node serve_on codes
    main_on a name none = throws
    main_on a name (some overlay) =
        let data_dir =
          arg_or getenv a.data_dir (codes "MINI2_DATA_DIR") (codes "data/partitions") in
        if has_node overlay name then serve_on a (start_node name overlay data_dir) else exits 2

    -- `main` behind its arguments.
    unfoldable pub main_with : NodeArgs → Outcome F
    unfolding env_or open_overlay main_on codes
    main_with a =
        let name = arg_or getenv a.name (codes "MINI2_NODE") [] in
        if is_empty name then exits 2 else main_on a name (open_overlay a.overlay_path)

    abbrev pub main_of : Parsed → Outcome F
    main_of (parsed a) = main_with a
    main_of (exits n) = exits n
    main_of throws = throws

    unfoldable pub main : List Text → Outcome F
    unfolding parse_args main_with
    main args = main_of (parse_args atoi args default_args)
