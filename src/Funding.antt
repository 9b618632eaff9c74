-- ===== src/Funding.antt =====
-- jit-funding.js: the held open. `Record` has one record and its outcomes (`markPaid`, `publish`,
-- `abandon`), `Sweep` the sweep's decision for one record; the rest are proofs.
pub mod Record
pub mod Abandon
pub mod Sweep
pub mod Fee
pub mod Safety
pub mod Emptiness
pub mod Claims
pub mod Grace
mod Tests
