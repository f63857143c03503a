-- ===== src/Lib.antt =====
-- mini2: a distributed range-query service over partitioned taxi trips (cpp/server/node.cpp,
-- cpp/client/client.cpp, cpp/common, proto/mini2.proto).
--
-- A client submits a query to a gateway. The gateway asks the routing manifest which data owners
-- can have matching rows, forwards the query to each along the overlay's routing table, and pulls
-- chunks of rows from every owner in background threads. An owner scans its partition for the
-- matching rows, a producer thread moves them into a bounded buffer in turns that a fair scheduler
-- hands out, and each pull takes rows from the buffer. The client fetches chunks whose size a
-- pacing rule adapts to its speed, until one is marked last.
--
-- The files, with the code they model:
-- - Base: texts as lists of bytes, association lists for `std::map` and `std::unordered_map`,
--   Boolean tests, integers, lists. A double is a value of a type F with the operations of
--   Base/Doubles as an instance argument; their laws are named there, and integer-valued doubles
--   fill them.
-- - Scheduler/ChunkSizer, Scheduler/FairScheduler (cpp/common/scheduler.hpp, scheduler.cpp):
--   `decide` and `forget`; `add`, `remove`, `next`, `size`. Each call is one step, since the mutex
--   makes it one. The clock is an argument.
-- - Store, Store/Search (cpp/common/csv_store.hpp, csv_store.cpp): the partition by columns,
--   `fill`, `matches`, `resolve_col`, the threads of `range_search`, `compute_column_ranges`,
--   `predicate_can_match`. How OpenMP splits the rows, and the order in which it combines minima,
--   is an argument.
-- - Store/Load, Store/Load/Rows (cpp/common/csv_store.cpp): `load_partition_csv`, its lines, the
--   chunks of the threads and the two passes. std::from_chars is a parameter, and the number of
--   threads an argument.
-- - Routing, Routing/Hash (cpp/common/routing.hpp, routing.cpp): `eligible_owners` in every scheme
--   and `fnv1a32`. gmtime is a parameter.
-- - Routing/Json, Routing/Manifest (cpp/common/routing.cpp): the lexer and the recursive descent,
--   and `load_owner_metadata`. std::stod is a parameter.
-- - Overlay (cpp/common/overlay.hpp, overlay.cpp): the loaded overlay, `neighbors`, `next_hop`,
--   `has_node`; Overlay/Flow: `trim`, `dequote`, `parse_flow_seq`, `parse_flow_map`; Overlay/Lines,
--   Overlay/Load: `load_overlay`. The environment and atoi are arguments.
-- - Node/Relay: `ForwardQuery` and the relay of `PullChunk` over a network of nodes, where each
--   link may fail.
-- - Node/Owner: the new request of `register_request`, `produce_loop` and the local `PullChunk`, as
--   steps of a producer and any number of pulls that interleave in any order.
-- - Node/Owner/Feed: the abstract machine that the owner's side of a request implements.
-- - Node/Owner/Registry: the table of requests, `register_request`, `get_request`, `drop_request`.
-- - Node/Owner/Calls: the owner as a whole: the calls that it serves and `produce_loop` over all of
--   its requests, in steps that interleave in any order.
-- - Node/Gateway, Node/Gateway/Prefetch, Node/Gateway/Join: the owners' bookkeeping of
--   `SubmitQuery`, `FetchChunk`, `CancelQuery` and the steps of `prefetcher_loop` and its stop by
--   `drop_request`; the prefetchers, the local producer and the client's calls interleave in any
--   order.
-- - Node/Link: a request between the gateway and one remote owner: the pulls of `prefetcher_loop`
--   as `PullChunk` serves them, while both sides go on.
-- - Node/Handlers: the calls `SubmitQuery`, `FetchChunk` and `CancelQuery` as a whole, with their
--   guards, retries and the tables of the node; a call of FetchChunk is one step, at the end of its
--   wait.
-- - Node/Start: `main` and the constructor of `Mini2ServiceImpl`. The files, the environment, atoi
--   and the ports that can be bound are arguments.
-- - Telemetry (cpp/common/telemetry.hpp, telemetry.cpp): an event with its members, and the lines
--   that `emit_raw` writes. std::to_string and the clocks are arguments.
-- - Client (cpp/client/client.cpp): `parse`, `run_one` with its fetch loop, the exit code.
--   std::stod, std::stoi and the reading of dates are parameters.
-- - Examples: runs at concrete inputs.
--
-- The modules below a component hold its proofs. Loops over a list recurse on it. Fuel stands for
-- four loops: the descent of the JSON reader, which gets two for each character and two more,
-- enough for every text; the rounds of `FairScheduler::next`, which the code bounds by the queue's
-- size plus one itself; the ttl of a forwarded query, which the code counts down itself; and the
-- hops of a relayed pull, which the code bounds only by the deadline of its first relay: the fuel
-- is the number of relays that come about before it. The drain of `FetchChunk` recurses on the room
-- in the chunk, which bounds its rounds since each takes a row.
--
-- Not modelled: the mapping of files, a manifest with negative counts, the server's configuration
-- and its stop on a signal, the sleeps and time stamps, gRPC itself (a call that fails is a value),
-- and the Python node. The memory model of the mutexes and sequentially consistent atomics is taken
-- as given. Arithmetic on `int` wraps at 32 bits where an overflow can be reached by a chunk size;
-- C++ leaves it undefined.
pub mod Base
pub mod Scheduler
pub mod Store
pub mod Routing
pub mod Overlay
pub mod Node
pub mod Telemetry
pub mod Client
mod Examples
