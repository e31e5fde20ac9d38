-- ===== src/Tests.antt =====
-- Runs at concrete inputs, and the theorems at inputs that meet their hypotheses.
pub mod Crypto
pub mod Solana
pub mod Identity
pub mod Store
pub mod Backup
pub mod Onchain
pub mod Watcher
pub mod Amounts
pub mod Lane
pub mod Gasless
mod Claim
mod Stealth
mod Create
mod Wallet
mod Page
mod Pay
mod Api
mod Display
