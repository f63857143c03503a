-- ===== src/Scheduler.antt =====
-- cpp/common/scheduler.hpp and scheduler.cpp: the two hand-rolled flow-control classes.
pub mod ChunkSizer
pub mod FairScheduler
