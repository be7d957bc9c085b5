-- ===== src/SpSend.antt =====
-- src/spsend.rs: paying a silent payment address, and PSBTv2 on the wire.
pub mod Cursor
pub mod Strip
pub mod Placeholder
pub mod Build
