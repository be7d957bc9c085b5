-- ===== src/Shared/Proposal.antt =====
-- src/shared.rs, section 4 of the contract: the proposal, what the other wallet checks in it, and how
-- that wallet adds its half.
pub mod Removed
pub mod Laws
use kiss_bdk.Shared.Fee.{check_fee}
use kiss_bdk.Shared.Signatures.{is_some}
use kiss_bdk.Shared.Input.{adopt_input, adopt_output, is_empty, new_output}
use kiss_bdk.Psbt.{Psbt, Input, Output, V0Psbt, OutPoint, OptionBytes-discrete}
use kiss_bdk.Bitcoin.{Bitcoin}
use kiss_bdk.Sp.{SilentPaymentAddress, sp_v0_info}
use kiss_bdk.Sp.Address
use kiss_bdk.Sp.Address.{AddressText}
use kiss_bdk.Shared.Error.{
  Error, not_a_proposal, index_out_of_range, proposal_recipient, own_proposal, proposal_amount,
  needs_to, needs_sats, proposal_script, needs_fee_rate, bad_address, needs_psbt, global_share,
  not_open, no_coins, pays_recipient_times,
}
use kiss_bdk.Shared.Message.{Message, Kind, proposal, update, done}
use kiss_bdk.Shared.Terms.{start, join, check_terms, share_of, set_counts, no_coin_twice}
use kiss_bdk.Shared.Wire.{Wire, decode}
use kiss_bdk.Shared.Half.{half_as_v2}
use kiss_bdk.Common.{
  ℕ, zero, suc, refl, ◌≡◌, sym, ap, ◌∙◌, subst, inl, inr, some, none, Option, ok, err, Result, true,
  false, Bool, List, [], ◌∷◌, ◌++◌, map, arith, ◌>>=◌, ◌>>◌, Bytes, ◌+◌, ◌≤◌, ◌<◌, ◌⊎◌, ◌≢◌, guard,
  if◌then◌else◌, holds, ◌==◌, or_fail, ◌&&◌, refuse, get_elem?, not, same, set, context, ◌%◌,
}

-- `OPEN_TO_BOTH`
abbrev pub open_to_both : ℕ
open_to_both = 0x03

-- A proposal that passed every check the other wallet makes before adding coins.
pub record Proposal : Type 0 where
  pub session : Bytes
  pub from : Bytes
  pub to : Bytes
  pub recipient : SilentPaymentAddress
  pub sats : ℕ
  pub fee_rate : ℕ
  pub psbt : Psbt

abbrev pub is_proposal : Kind → Bool
is_proposal proposal = true
is_proposal update = false
is_proposal done = false

-- The output that pays the recipient: what it may hold, and the clean copy of it.
unfoldable pub payment_output : SilentPaymentAddress → ℕ → ℕ → Output → Result Error Output
payment_output recipient sats index output = do
  guard
      (holds (OptionBytes-discrete output.sp_v0_info (some (sp_v0_info recipient)))
        && not (is_some output.sp_v0_label))
      (proposal_recipient index)
  guard (output.amount == sats) (proposal_amount index)
  guard (is_empty output.script_pubkey) (proposal_script index)
  ok (record (new_output output.amount []) { sp_v0_info = output.sp_v0_info })

-- The loop over the outputs: how many pay the recipient, and the copies.
unfoldable pub read_outputs :
    SilentPaymentAddress → ℕ → ℕ → List Output → Result Error (ℕ × List Output)
read_outputs recipient sats index [] = ok (0, [])
read_outputs recipient sats index (output ∷ outputs) =
    if is_some output.sp_v0_info
    then (do
      clean ← payment_output recipient sats index output
      rest ← read_outputs recipient sats (suc index) outputs
      ok (suc rest.0, clean ∷ rest.1))
    else (do
      adopted ← adopt_output index output
      rest ← read_outputs recipient sats (suc index) outputs
      ok (rest.0, adopted ∷ rest.1))

-- The outputs of `mine` but the placeholder.
abbrev pub without : ℕ → ℕ → List Output → List Output
without placeholder index [] = []
without placeholder index (output ∷ outputs) =
    let rest = without placeholder (suc index) outputs in
    if index == placeholder then rest else output ∷ rest

module _ (b : Bitcoin) where
  -- The loop over the inputs.
  unfoldable pub read_inputs : ℕ → List Input → Result Error (List Input)
  read_inputs index [] = ok []
  read_inputs index (input ∷ inputs) = do
    adopted ← adopt_input b index input
    rest ← read_inputs (suc index) inputs
    ok (adopted ∷ rest)

  -- The other wallet's half, reduced to what was checked.
  unfoldable pub read_half : SilentPaymentAddress → ℕ → Psbt → Result Error Psbt
  read_half recipient sats theirs = do
    guard (is_empty theirs.global.sp_ecdh_shares && is_empty theirs.global.sp_dleq_proofs)
        global_share
    guard (theirs.global.tx_modifiable_flags % 4 == open_to_both) not_open
    refuse (is_empty theirs.inputs) no_coins
    inputs ← read_inputs 0 theirs.inputs
    outputs ← read_outputs recipient sats 0 theirs.outputs
    guard (outputs.0 == 1) (pays_recipient_times outputs.0)
    let psbt : Psbt = record {
      global = record (theirs.global) { xpubs = []; proprietaries = []; unknowns = [] };
      inputs = inputs;
      outputs = outputs.1;
    }
    no_coin_twice psbt
    ok psbt

module _ (b : Bitcoin) (w : Wire) (text : AddressText) where
  -- Check the other wallet's proposal on behalf of wallet `me`.
  unfoldable pub read_proposal : Message → Bytes → Result Error Proposal
  read_proposal message me = do
    guard (is_proposal message.kind) not_a_proposal
    refuse (same message.from me) own_proposal
    to ← or_fail message.to needs_to
    sats ← or_fail message.sats needs_sats
    fee_rate ← or_fail message.fee_rate needs_fee_rate
    recipient ← context (Address.decode b text to) bad_address
    check_terms recipient sats fee_rate
    encoded ← or_fail message.psbt needs_psbt
    theirs ← decode w encoded
    psbt ← read_half b recipient sats theirs
    ok (record {
      session = message.session;
      from = message.from;
      to = to;
      recipient = recipient;
      sats = sats;
      fee_rate = fee_rate;
      psbt = psbt;
    })

module _ (b : Bitcoin) (w : Wire) (updater : Psbt → Option Psbt) where
  -- This wallet's half as a proposal, which says the full amount and is open to another wallet.
  unfoldable pub propose : V0Psbt → SilentPaymentAddress → ℕ → ℕ → Result Error Psbt
  propose half recipient sats fee_rate = do
    check_terms recipient sats fee_rate
    mine ← half_as_v2 b w updater half recipient (share_of sats start) fee_rate
    output ← or_fail (get_elem? (mine.0.outputs) mine.1) index_out_of_range
    ok (record (mine.0) {
      global = record (mine.0.global) { tx_modifiable_flags = open_to_both };
      outputs = set (mine.0.outputs) mine.1 (record output { amount = sats });
    })

  -- The other wallet adds its half to a checked proposal.
  unfoldable pub add_half : Proposal → V0Psbt → Result Error Psbt
  add_half agreed half = do
    mine ← half_as_v2 b w updater half agreed.recipient (share_of agreed.sats join) agreed.fee_rate
    let joined = set_counts (record {
      global = record (agreed.psbt.global) { tx_modifiable_flags = 0 };
      inputs = agreed.psbt.inputs ++ mine.0.inputs;
      outputs = agreed.psbt.outputs ++ without mine.1 0 (mine.0.outputs);
    })
    no_coin_twice joined
    _ ← check_fee b joined agreed.fee_rate
    ok joined
