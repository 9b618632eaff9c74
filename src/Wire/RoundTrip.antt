-- ===== src/Wire/RoundTrip.antt =====
-- The encoders write the layouts of `Wire.Layout`, and the decoders read them back.
pub mod Fields
pub mod Writers
pub mod Readers
