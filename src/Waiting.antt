-- ===== src/Waiting.antt =====
-- tatara-list.js: the waiting list of the pools. `State` has the seats and what is in progress,
-- `Queue` the head group, `Seats`, `Start`, `Attempt` and `Tick` the operations; the rest are proofs.
pub mod State
pub mod Queue
pub mod Seats
pub mod Start
pub mod Attempt
pub mod Tick
pub mod Head
pub mod Early
pub mod Restore
mod Tests
