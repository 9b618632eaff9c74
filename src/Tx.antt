-- ===== src/Tx.antt =====
-- btc-tx.js: Bitcoin transactions as bytes. `Serialize` writes one, `Parse` reads one; the rest are
-- proofs.
pub mod Serialize
pub mod Parse
pub mod Script
pub mod ScriptNum
pub mod TakeBack
pub mod Fees
pub mod Varint
pub mod Pieces
pub mod RoundTrip
mod Tests
