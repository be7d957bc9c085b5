-- ===== src/Qr.antt =====
-- src/qr.rs: the payload of the QR codes that carry a PSBT.
pub mod Cbor
pub mod Decoder
