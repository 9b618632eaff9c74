-- ===== src/Sm.antt =====
-- lij-sm.js: the shadow state machine of a payment. `State` has the states and the legal moves,
-- `Intent` the record of one payment and `transition`, `Machine` the table of intents and the
-- event handlers; the rest are proofs.
pub mod State
pub mod Intent
pub mod Machine
pub mod Does
pub mod Grows
pub mod Steps
pub mod Frozen
pub mod Journal
pub mod Trace
pub mod Handlers
mod Tests
