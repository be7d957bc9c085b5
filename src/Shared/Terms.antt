-- ===== src/Shared/Terms.antt =====
-- src/shared.rs, section 4 of the contract: what each wallet pays, and the terms of a payment.
pub mod Laws
use kiss_bdk.Shared.Input.{outpoint}
use kiss_bdk.Psbt.{OutPoint, Psbt, Input, OutPoint-discrete}
use kiss_bdk.Sp.{SilentPaymentAddress}
use kiss_bdk.Shared.Error.{Error, mainnet_address, too_little, zero_fee_rate, coin_twice}
use kiss_bdk.Common.{
  ℕ, zero, suc, refl, ◌≡◌, sym, ap, ◌∙◌, subst, inl, inr, some, none, Option, ok, err, Result, true,
  false, Bool, List, [], ◌∷◌, ◌++◌, map, arith, ◌>>=◌, ◌>>◌, Bytes, ◌+◌, ◌≤◌, ◌<◌, ◌⊎◌, ◌≢◌, ◌/◌,
  refuse, ◌%◌, ltb, if◌then◌else◌, length, ◌==◌, holds,
}

-- Which side of the shared send a wallet is.
pub data Role : Type 0 where
  start join : Role

abbrev pub taproot_dust_sats : ℕ
taproot_dust_sats = 330

-- Half each, and the odd satoshi from the wallet that started.
unfoldable pub share_of : ℕ → Role → ℕ
share_of sats start = sats / 2 + sats % 2
share_of sats join = sats / 2

unfoldable pub check_amount : ℕ → Result Error (Unit {0})
check_amount sats = refuse (ltb (sats / 2) taproot_dust_sats) too_little

unfoldable pub check_terms : SilentPaymentAddress → ℕ → ℕ → Result Error (Unit {0})
unfolding check_amount
check_terms recipient sats fee_rate = do
  refuse recipient.mainnet mainnet_address
  refuse (fee_rate == 0) zero_fee_rate
  check_amount sats

abbrev pub has_outpoint : OutPoint → List OutPoint → Bool
has_outpoint o [] = false
has_outpoint o (x ∷ xs) = if holds (OutPoint-discrete x o) then true else has_outpoint o xs

-- `seen.insert` of each coin in turn.
unfoldable pub no_coin_twice_from : List OutPoint → List Input → Result Error (Unit {0})
no_coin_twice_from seen [] = ok tt
no_coin_twice_from seen (input ∷ inputs) = do
  refuse (has_outpoint (outpoint input) seen) coin_twice
  no_coin_twice_from (outpoint input ∷ seen) inputs

unfoldable pub no_coin_twice : Psbt → Result Error (Unit {0})
no_coin_twice psbt = no_coin_twice_from [] psbt.inputs

abbrev pub set_counts : Psbt → Psbt
set_counts psbt = record psbt {
  global = record (psbt.global) {
    input_count = length psbt.inputs;
    output_count = length psbt.outputs;
  };
}
