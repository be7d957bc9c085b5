-- ===== src/Shared.antt =====
-- src/shared.rs: a silent payment paid by two wallets together.
pub mod Error
pub mod Message
pub mod Input
pub mod Shares
pub mod Scripts
pub mod Signatures
pub mod Absorb
pub mod Recipients
pub mod View
pub mod Proved
pub mod SignatureView
pub mod Terms
pub mod Join
pub mod Finish
pub mod Wire
pub mod Session
pub mod Fee
pub mod Half
pub mod Proposal
