-- ===== src/Node.antt =====
-- The node daemon (cpp/server/node.cpp): relaying between nodes, the sides of a request at its owners and
-- at the gateway, and the calls of clients.
pub mod Relay
pub mod Owner
pub mod Gateway
pub mod Handlers
pub mod Link
pub mod Start
