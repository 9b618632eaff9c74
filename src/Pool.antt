-- ===== src/Pool.antt =====
-- tatara-channels.js: the watch over a channel pool's pending channels. `Inputs` reads a funding's
-- inputs, `Watch` has the state and the tick; the rest are proofs.
pub mod Inputs
pub mod Watch
pub mod Deaf
pub mod Agree
mod Tests
