-- ===== src/Shared/Wire.antt =====
-- src/shared.rs, "PSBT plumbing": a PSBTv2 as the text that messages and the session file carry. The
-- encodings of other crates are the operations of a record that the sessions take as a parameter.
use kiss_bdk.SpSend.Strip.{strip_empty_output_scripts}
use kiss_bdk.Shared.Message.{Message}
use kiss_bdk.Psbt.{Psbt, OutPoint}
use kiss_bdk.Shared.Error.{Error, not_a_psbt, not_base64, not_serialized}
use kiss_bdk.Common.{Option, ok, Result, ◌>>=◌, Bytes, context, or_fail, length}

pub record Wire : Type 0 where
  -- base64's standard engine, and `str::trim`
  pub base64_encode : Bytes → Bytes
  pub base64_decode : Bytes → Option Bytes
  pub trim : Bytes → Bytes
  -- psbt-v2's `Psbt::serialize` and `Psbt::deserialize`
  pub serialize : Psbt → Bytes
  pub deserialize : Bytes → Option Psbt
  -- `to_string` and `from_str` of an outpoint and of a transaction id
  pub outpoint_to_string : OutPoint → Bytes
  pub outpoint_from_str : Bytes → Option OutPoint
  pub txid_to_string : Bytes → Bytes
  pub txid_from_str : Bytes → Option Bytes
  -- `serde_json::to_string` of a message
  pub to_json : Message → Bytes

module _ (w : Wire) where
  unfoldable pub serialize_v2 : Psbt → Result Error Bytes
  serialize_v2 psbt =
      context (strip_empty_output_scripts (w.serialize psbt) (length psbt.inputs)) not_serialized

  unfoldable pub encode : Psbt → Result Error Bytes
  encode psbt = do bytes ← serialize_v2 psbt; ok (w.base64_encode bytes)

  unfoldable pub read_psbt : Bytes → Result Error Psbt
  read_psbt bytes = or_fail (w.deserialize bytes) not_a_psbt

  unfoldable pub decode : Bytes → Result Error Psbt
  decode text = do bytes ← or_fail (w.base64_decode (w.trim text)) not_base64; read_psbt bytes
