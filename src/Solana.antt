-- ===== src/Solana.antt =====
-- solana.js: base58, the wire formats, program-derived addresses and the announcement event.
pub mod Base58
pub mod Wire
pub mod Curve
pub mod Transfer
pub mod Program
