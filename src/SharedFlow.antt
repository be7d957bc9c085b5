-- ===== src/SharedFlow.antt =====
-- src/sharedflow.rs: a shared send as it runs: the session file, the channel to the other wallet, this
-- wallet's coins and its signer.
pub mod Run
pub mod Start
pub mod Step
