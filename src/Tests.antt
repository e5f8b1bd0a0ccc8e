-- ===== src/Tests.antt =====
-- Runs of the model on small inputs, and the theorems at inputs that meet their hypotheses.
pub mod Codec
pub mod Tokens
pub mod Data
pub mod Edge
mod WalletCalls
mod TransferCalls
mod FlashSaleCalls
mod AuthCalls
mod EdgeCalls
mod ApiCalls
mod LockingCalls
mod HistoryCalls
mod ConfigCalls
mod InterleavingCalls
