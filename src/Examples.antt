-- ===== src/Examples.antt =====
-- The theorems at concrete inputs, and runs of the definitions.
mod Scheduling
mod Partition
mod Loading
mod Routes
mod Serving
mod Reading
mod Calls
mod Commands
mod Files
mod Linked
mod Months
mod Owners
mod Starting
mod Running
mod Events
