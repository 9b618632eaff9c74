-- ===== src/Wire.antt =====
-- cooperative-chain-msg.js: the binary messages that a wallet and its provider exchange.
-- `Format` has the bytes and errors, `Put` the Writer, `Get` the Reader, `Messages` the message
-- types, `Encode` and `Decode` the functions of those names, and the rest are proofs.
pub mod Format
pub mod Put
pub mod Get
pub mod Messages
pub mod Encode
pub mod Decode
pub mod Laws
pub mod Layout
pub mod RoundTrip
pub mod Dispatch
mod Tests
