-- ===== src/Node/Start/Serves.antt =====
-- What a node that serves has started with (cpp/server/node.cpp: `main`).
use mini.Base.{
  ℕ, Bool, ◌≡◌, refl, ap, arith, true, if_cases, inl, inr, ℤ, pos, max_ℤ, ltb_ℤ, ◌≤ℤ◌,
  if◌then◌else◌, Text, codes, find, is_empty, List, [], ◌++◌, Option, none, some, Option-cases,
  Floats,
}
use mathlib.Core.Option.{some-injective}
use mathlib.Core.Path.{subst}
use mini.Store.Load.{FromChars}
use mini.Store.Load.Rows.{store_of}
use mini.Overlay.{Overlay, has_node}
use mini.Routing.Manifest.{load_owner_metadata}
use mini.Scheduler.FairScheduler
use mini.Node.Handlers.{Server}
use mini.Node.Start.{
  NodeArgs, Parsed, parsed, Outcome, serves, exits, throws, default_args, parse_args, arg_or,
  max_threads, load_own, start_node, open_overlay, serve_on, main_on, main_with, main_of, main,
}

max_threads-le :
    (getenv : Text → Option Text) (atoi : Text → ℤ) (workers : ℤ)
    → pos 2 ≤ℤ max_threads getenv atoi workers
unfolding max_threads
max_threads-le getenv atoi workers =
    elim (getenv (codes "MINI2_WORKERS"))
      as (λ o. pos 2 ≤ℤ elim o [
        | none ↦ max_ℤ (pos 2) workers
        | some w ↦ max_ℤ (pos 2) (if ltb_ℤ (pos 0) (atoi w) then atoi w else workers)
      ]) [ none ↦ ground arith | some w ↦ ground arith ]

module _ {F : Type 0} ⦃fl : Floats F⦄ (from_chars : FromChars F) (stod : Text → Option F) (nt : ℕ)
    (split : ℕ → List (List ℕ)) (files : Text → Option Text) where
  -- A node as the constructor leaves it.
  pub record IsFresh (srv : Server F) (name : Text) (overlay : Overlay) : Type 0 where
    pub named : srv.name ≡ name
    pub placed : srv.overlay ≡ overlay
    pub known : find name overlay.nodes ≡ some srv.me
    pub no_requests : srv.requests ≡ []
    pub no_turns : srv.sched.q ≡ []

  start_node-IsFresh :
      (name data_dir : Text) (overlay : Overlay) (srv : Server F)
      → start_node from_chars stod nt split files name overlay data_dir ≡ some srv
      → IsFresh srv name overlay
  unfolding start_node FairScheduler.make
  start_node-IsFresh name data_dir overlay srv s = elim (Option-cases (find name overlay.nodes)) [
    | inl missing ↦ cc (rw (start_node, missing) at s)
    | inr (me, known) ↦
        elim (Option-cases (
          load_own from_chars stod nt split files name data_dir overlay.data_owners
            (store_of []))) [
              | inl bad ↦ cc (rw (start_node, known, bad) at s)
              | inr (part, own) ↦
                  elim (Option-cases
                    (load_owner_metadata stod (files (data_dir ++ codes "/manifest.json")))) [
                      | inl bad ↦ cc (rw (start_node, known, own, bad) at s)
                      | inr (meta, good) ↦
                          let built = some-injective _ _ (rw (start_node, known, own, good) at s) in
                          rw (← built) (record {
                            named = refl;
                            placed = refl;
                            known = known;
                            no_requests = refl;
                            no_turns = refl;
                          })
                    ]
            ]
  ]

  module _ (atoi : Text → ℤ) (getenv : Text → Option Text) (binds : ℤ → Bool) where
    -- What a node serves with: it is as the constructor leaves it, its port could be bound, and its threads are capped at two or more.
    abbrev pub Serving : Server F → Text → Overlay → ℤ → ℤ → Type 0
    Serving srv name overlay port threads =
        IsFresh srv name overlay × (port ≡ srv.me.port) × (binds port ≡ true) × (pos 2 ≤ℤ threads)

    abbrev unpack : Outcome F → Option (Server F × ℤ × ℤ)
    unpack (serves s port threads) = some (s, port, threads)
    unpack o = none

    serve_on-Serving :
        (a : NodeArgs) (name : Text) (overlay : Overlay) (o : Option (Server F)) (srv : Server F)
        (port threads : ℤ)
        → ((s : Server F) → o ≡ some s → IsFresh s name overlay)
        → serve_on from_chars stod nt split files atoi getenv binds a o ≡ serves srv port threads
        → Serving srv name overlay port threads
    unfolding serve_on
    serve_on-Serving a name overlay none srv port threads h = λ e. cc
    serve_on-Serving a name overlay (some s) srv port threads h =
        if_cases
          (λ (r : Outcome F). r ≡ serves srv port threads → Serving srv name overlay port threads)
          (binds s.me.port)
          (λ bound e.
            let same : (s, s.me.port, max_threads getenv atoi a.workers) ≡ (srv, port, threads) =
              some-injective _ _ (ap unpack e) in
            subst (λ (t : Server F × ℤ × ℤ). Serving t.0 name overlay t.1 t.2) same
              (h s refl, refl, bound, max_threads-le getenv atoi a.workers))
          (λ _ e. cc)

    main_on-Serving :
        (a : NodeArgs) (name : Text) (o : Option Overlay) (srv : Server F) (port threads : ℤ)
        → main_on from_chars stod nt split files atoi getenv binds a name o
          ≡ serves srv port threads
        → (overlay : Overlay) × (o ≡ some overlay) × Serving srv name overlay port threads
    unfolding main_on
    main_on-Serving a name none srv port threads = λ e. cc
    main_on-Serving a name (some overlay) srv port threads =
        if_cases
          (λ (r : Outcome F).
            r ≡ serves srv port threads
            → (v : Overlay) × (some overlay ≡ some v) × Serving srv name v port threads)
          (has_node overlay name)
          (λ _ e. (
            overlay,
            refl,
            serve_on-Serving a name overlay _ srv port threads
                (λ s built. start_node-IsFresh name _ overlay s built) e,
          ))
          (λ _ e. cc)

    main_with-Serving :
        (a : NodeArgs) (srv : Server F) (port threads : ℤ)
        → main_with from_chars stod nt split files atoi getenv binds a ≡ serves srv port threads
        → (overlay : Overlay) × (open_overlay from_chars stod nt split files atoi getenv binds
              a.overlay_path
            ≡ some overlay)
          × Serving srv (arg_or getenv a.name (codes "MINI2_NODE") []) overlay port threads
    unfolding main_with
    main_with-Serving a srv port threads =
        if_cases
          (λ (r : Outcome F).
            r ≡ serves srv port threads
            → (v : Overlay) × (open_overlay from_chars stod nt split files atoi getenv binds
                  a.overlay_path
                ≡ some v)
              × Serving srv (arg_or getenv a.name (codes "MINI2_NODE") []) v port threads)
          (is_empty (arg_or getenv a.name (codes "MINI2_NODE") [])) (λ _ e. cc)
          (λ _. main_on-Serving a _ _ srv port threads)

    main_of-Serving :
        (r : Parsed) (srv : Server F) (port threads : ℤ)
        → main_of from_chars stod nt split files atoi getenv binds r ≡ serves srv port threads
        → (a : NodeArgs) × (overlay : Overlay) × (r ≡ parsed a)
          × (open_overlay from_chars stod nt split files atoi getenv binds a.overlay_path
              ≡ some overlay)
          × Serving srv (arg_or getenv a.name (codes "MINI2_NODE") []) overlay port threads
    main_of-Serving (parsed a) srv port threads = λ e.
        let (overlay, opened, v) = main_with-Serving a srv port threads e in
        (a, overlay, refl, opened, v)
    main_of-Serving (exits n) srv port threads = λ e. cc
    main_of-Serving throws srv port threads = λ e. cc

    -- A node that comes to serve, under a name from its arguments or the environment, has read an
    -- overlay, which knows the name; it starts without requests, on the overlay's port for the name, which it could
    -- bind, and with a cap of at least two threads.
    pub main-Serving :
        (args : List Text) (srv : Server F) (port threads : ℤ)
        → main from_chars stod nt split files atoi getenv binds args ≡ serves srv port threads
        → (a : NodeArgs) × (overlay : Overlay) × (parse_args atoi args default_args ≡ parsed a)
          × (open_overlay from_chars stod nt split files atoi getenv binds a.overlay_path
              ≡ some overlay)
          × Serving srv (arg_or getenv a.name (codes "MINI2_NODE") []) overlay port threads
    unfolding main
    main-Serving args srv port threads e =
        main_of-Serving (parse_args atoi args default_args) srv port threads e
