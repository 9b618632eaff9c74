-- ===== src/Limits.antt =====
-- wallet-limits.js: `windowLimiter`. `Window` has its operations, `Laws` what they promise.
pub mod Window
pub mod Laws
mod Tests
