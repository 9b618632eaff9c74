-- ===== src/Guard.antt =====
-- jit-guard.js: the count of JIT opens that were funded and then failed, the halt and the block of
-- one wallet. `State` has the data and its counts, `Ops` the operations, the rest are proofs.
pub mod State
pub mod Ops
pub mod Halt
pub mod Wallets
pub mod OneWallet
pub mod Release
mod Tests
