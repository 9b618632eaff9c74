-- ===== src/Pay.antt =====
-- onchain-pay.js: Lightning pays on-chain. `Record` has a payment and what the rail asks of others,
-- `Lock`, `Spent`, `TakeBack`, `Quote` and `Tick` the operations; the rest are proofs.
pub mod Record
pub mod Lock
pub mod Spent
pub mod TakeBack
pub mod Quote
pub mod Tick
pub mod Life
pub mod Moves
pub mod Guarded
pub mod Earned
pub mod Stranded
mod Tests
