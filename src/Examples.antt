-- ===== src/Examples.antt =====
-- Tests and instances of the theorems at concrete inputs. The instances take a small stand-in for
-- the functions of rust-bitcoin and secp256k1.
pub mod Toy
pub mod Absorbing
pub mod Payments
pub mod Joining
pub mod Sessions
pub mod Codes
pub mod Verifying
pub mod Sending
pub mod Spending
pub mod Proposals
pub mod Flow
pub mod Folder
pub mod Receiving
