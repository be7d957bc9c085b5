-- ===== src/Sp.antt =====
-- src/sp.rs: silent payment addresses, and the script that a silent payment must pay.
pub mod Derive
pub mod Address
use kiss_bdk.Common.{Bytes, Bool, ◌++◌}

pub record SilentPaymentAddress : Type 0 where
  pub scan : Bytes
  pub spend : Bytes
  pub mainnet : Bool

-- The `PSBT_OUT_SP_V0_INFO` value.
unfoldable pub sp_v0_info : SilentPaymentAddress → Bytes
sp_v0_info a = a.scan ++ a.spend
