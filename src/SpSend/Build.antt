-- ===== src/SpSend/Build.antt =====
-- src/spsend.rs: the PSBTv2 that is made of BDK's v0 PSBT, and the v0 PSBT that a signed one becomes.
pub mod Laws
use kiss_bdk.Psbt.{
  TxOut, TxIn, Transaction, Psbt, Input, Output, V0Psbt, V0Input, V0Output, PublicKey, KeySource,
  RawKey, OutPoint,
}
use kiss_bdk.Bitcoin.{Bitcoin}
use kiss_bdk.Sp.{SilentPaymentAddress, sp_v0_info}
use kiss_bdk.SpSend.Placeholder.{SpOutput}
use kiss_bdk.SpSend.Strip.{strip_empty_output_scripts}
use kiss_bdk.Shared.Input.{new_output, outpoint, is_empty, unwrap_or}
use kiss_bdk.Common.{
  ℕ, zero, suc, refl, ◌≡◌, sym, ap, ◌∙◌, subst, inl, inr, some, none, Option, ok, err, Result, true,
  false, Bool, List, [], ◌∷◌, ◌++◌, map, arith, ◌>>=◌, ◌>>◌, Bytes, ◌+◌, ◌≤◌, ◌<◌, ◌⊎◌, ◌≢◌, insert,
  or_fail, if◌then◌else◌, guard, ◌==◌, length, context, ltb, ◌||◌, all, ◌&&◌,
}

pub data Error : Type 0 where
  index_out_of_range no_witness_utxo not_built not_stripped no_lock_time : Error
  unrecognised_fields cannot_flatten : ℕ → Error

-- `InputBuilder::new(&coin).segwit_fund(utxo).build()`: all else is absent.
abbrev pub funded_input : OutPoint → TxOut → Input
funded_input coin utxo = record {
  previous_txid = coin.txid;
  spent_output_index = coin.vout;
  sequence = none;
  min_time = none;
  min_height = none;
  non_witness_utxo = none;
  witness_utxo = some utxo;
  partial_sigs = [];
  tap_key_sig = none;
  sighash_type = none;
  bip32_derivations = [];
  tap_internal_key = none;
  tap_key_origins = [];
  sp_ecdh_shares = [];
  sp_dleq_proofs = [];
  final_script_sig = none;
  final_script_witness = none;
  tap_script_sigs = [];
  tap_scripts = [];
  proprietaries = [];
  unknowns = [];
}

abbrev pub compressed_derivations : List (Bytes × KeySource) → List (PublicKey × KeySource)
compressed_derivations source =
    map (λ entry. (record { compressed = true; inner = entry.0 }, entry.1)) source

-- Each key by its point; of two keys with one point the later stays.
unfoldable pub secp_from :
    List (Bytes × KeySource) → List (PublicKey × KeySource) → List (Bytes × KeySource)
secp_from found [] = found
secp_from found ((key, origin) ∷ source) = secp_from (insert key.inner origin found) source

abbrev pub secp_derivations : List (PublicKey × KeySource) → List (Bytes × KeySource)
secp_derivations source = secp_from [] source

-- One input of the PSBTv2, of the transaction's and the v0 PSBT's.
unfoldable pub build_input : TxIn → V0Input → Result Error Input
build_input txin input = do
  utxo ← or_fail input.witness_utxo no_witness_utxo
  ok (record (funded_input txin.previous_output utxo) {
    non_witness_utxo = input.non_witness_utxo;
    sequence = some txin.sequence;
    bip32_derivations = compressed_derivations input.bip32_derivation;
    unknowns = input.unknown;
  })

-- The loop over the two lists of inputs together.
unfoldable pub build_inputs : List TxIn → List V0Input → Result Error (List Input)
build_inputs (txin ∷ txins) (input ∷ inputs) = do
  built ← build_input txin input
  rest ← build_inputs txins inputs
  ok (built ∷ rest)
build_inputs _ _ = ok []

-- `sp_outputs.iter().find(|sp| sp.index == index)`
unfoldable pub find_sp : ℕ → List SpOutput → Option SpOutput
find_sp index [] = none
find_sp index (sp ∷ rest) = if sp.index == index then some sp else find_sp index rest

-- One output of the PSBTv2: a placeholder's script is left to the signer.
unfoldable pub build_output : List SpOutput → ℕ → TxOut → V0Output → Output
build_output sp_outputs index txout output =
    let built = record (new_output txout.value txout.script_pubkey) {
      bip32_derivations = compressed_derivations output.bip32_derivation;
    } in
    elim (find_sp index sp_outputs) as (λ x. Output) [
      | none ↦ built
      | some sp ↦ record built { script_pubkey = []; sp_v0_info = some (sp_v0_info sp.recipient) }
    ]

unfoldable pub build_outputs :
    List SpOutput → ℕ → List TxOut → List V0Output → Result Error (List Output)
build_outputs sp_outputs index [] outputs = ok []
build_outputs sp_outputs index (txout ∷ txouts) [] = err index_out_of_range
build_outputs sp_outputs index (txout ∷ txouts) (output ∷ outputs) = do
  rest ← build_outputs sp_outputs (suc index) txouts outputs
  ok (build_output sp_outputs index txout output ∷ rest)

unfoldable pub check_indices : ℕ → List SpOutput → Result Error (Unit {0})
check_indices count [] = ok tt
check_indices count (sp ∷ rest) = do
  guard (ltb sp.index count) index_out_of_range
  check_indices count rest

-- The two fields of BIP-376, which a flattened PSBT has no use for.
abbrev pub psbt_in_sp_tweak : ℕ
psbt_in_sp_tweak = 0x20

abbrev pub psbt_in_sp_spend_bip32_derivation : ℕ
psbt_in_sp_spend_bip32_derivation = 0x1f

abbrev pub is_known : RawKey × Bytes → Bool
is_known pair =
    pair.0.type_value == psbt_in_sp_tweak || pair.0.type_value == psbt_in_sp_spend_bip32_derivation

-- Refuse an input with something that `to_v0` would drop.
unfoldable pub unsupported : ℕ → Input → Result Error (Unit {0})
unsupported index input = do
  guard (all is_known input.unknowns) (unrecognised_fields index)
  guard
      (is_empty input.tap_script_sigs && is_empty input.tap_scripts && is_empty input.proprietaries)
      (cannot_flatten index)

-- `Sequence::ENABLE_RBF_NO_LOCKTIME`
abbrev pub flat_txin : Input → TxIn
flat_txin input = record {
  previous_output = outpoint input;
  sequence = unwrap_or input.sequence 0xfffffffd;
  witness = [];
}

abbrev pub flat_txout : Output → TxOut
flat_txout output = record { value = output.amount; script_pubkey = output.script_pubkey }

-- What a v0 input takes over.
abbrev pub flat_input : Input → V0Input
flat_input input = record {
  non_witness_utxo = none;
  witness_utxo = input.witness_utxo;
  partial_sigs = input.partial_sigs;
  tap_key_sig = input.tap_key_sig;
  bip32_derivation = secp_derivations input.bip32_derivations;
  final_script_sig = input.final_script_sig;
  final_script_witness = input.final_script_witness;
  unknown = [];
}

unfoldable pub flat_inputs : ℕ → List Input → Result Error (List V0Input)
flat_inputs index [] = ok []
flat_inputs index (input ∷ inputs) = do
  unsupported index input
  rest ← flat_inputs (suc index) inputs
  ok (flat_input input ∷ rest)

abbrev pub flat_output : Output → V0Output
flat_output output = record { bip32_derivation = secp_derivations output.bip32_derivations }

module _ (b : Bitcoin) where
  -- Rebuild a v0 PSBT. `Psbt::from_unsigned_tx` gives an empty map for each input and output, and
  -- refuses only a transaction with witnesses, which this one has not.
  unfoldable pub to_v0 : Psbt → Result Error V0Psbt
  to_v0 v2 = do
    lock_time ←
        or_fail
          (b.determine_lock_time v2.global.fallback_lock_time
            (map (λ input. (input.min_time, input.min_height)) v2.inputs))
          no_lock_time
    inputs ← flat_inputs 0 v2.inputs
    ok (record {
      unsigned_tx = record {
        version = v2.global.tx_version;
        lock_time = lock_time;
        input = map flat_txin v2.inputs;
        output = map flat_txout v2.outputs;
      };
      inputs = inputs;
      outputs = map flat_output v2.outputs;
    })

-- psbt-v2's `Constructor::updater` and `Psbt::serialize` are the two parameters.
module _ (updater : Psbt → Option Psbt) (serialize : Psbt → Bytes) where
  -- `build_v2` up to the PSBT that it serializes. The constructor is open to inputs and outputs.
  unfoldable pub assemble : V0Psbt → List SpOutput → Result Error Psbt
  assemble psbt sp_outputs = do
    let tx = psbt.unsigned_tx
    check_indices (length tx.output) sp_outputs
    inputs ← build_inputs tx.input psbt.inputs
    outputs ← build_outputs sp_outputs 0 tx.output psbt.outputs
    or_fail
        (updater (record {
          global = record {
            tx_version = tx.version;
            fallback_lock_time = some tx.lock_time;
            input_count = length inputs;
            output_count = length outputs;
            tx_modifiable_flags = 3;
            sp_ecdh_shares = [];
            sp_dleq_proofs = [];
            xpubs = [];
            proprietaries = [];
            unknowns = [];
          };
          inputs = inputs;
          outputs = outputs;
        }))
        not_built

  -- BDK's v0 PSBT as the PSBTv2 that a signer takes.
  unfoldable pub build_v2 : V0Psbt → List SpOutput → Result Error Bytes
  build_v2 psbt sp_outputs = do
    v2 ← assemble psbt sp_outputs
    context (strip_empty_output_scripts (serialize v2) (length psbt.unsigned_tx.input)) not_stripped

-- A PSBT of either version.
pub data AnyPsbt : Type 0 where
  v0 : V0Psbt → AnyPsbt
  v2 : Psbt → AnyPsbt

-- `AnyPsbt::parse`, over the two readers: the v0 reader rejects a v2.
unfoldable pub parse_any : (Bytes → Option V0Psbt) → (Bytes → Option Psbt) → Bytes → Option AnyPsbt
parse_any deserialize_v0 deserialize_v2 bytes = elim (deserialize_v0 bytes) [
  | some psbt ↦ some (v0 psbt)
  | none ↦ elim (deserialize_v2 bytes) [ some psbt ↦ some (v2 psbt) | none ↦ none ]
]
