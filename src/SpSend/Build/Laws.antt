-- ===== src/SpSend/Build/Laws.antt =====
-- What the PSBTv2 keeps of BDK's transaction, and what a v0 PSBT keeps of the signed PSBTv2.
use kiss_bdk.Bitcoin.{Bitcoin}
use kiss_bdk.Shared.Input.{is_empty, new_output}
use kiss_bdk.Psbt.{
  TxOut, TxIn, Transaction, Psbt, Input, Output, V0Psbt, V0Input, V0Output, RawKey, PublicKey,
  Signature,
}
use kiss_bdk.Sp.{sp_v0_info}
use kiss_bdk.SpSend.Placeholder.{SpOutput}
use kiss_bdk.SpSend.Build.{
  build_input, build_inputs, flat_txout, find_sp, build_output, build_outputs, flat_txin, assemble,
  is_empty, unsupported, flat_inputs, flat_input, compressed_derivations, is_known, Bitcoin, to_v0,
  flat_output,
}
use kiss_bdk.Common.{
  ℕ, suc, refl, ◌≡◌, sym, ap, ◌∙◌, subst, some, none, Option, ok, true, List, [], ◌∷◌, map, arith,
  Bytes, All, >>=-eq-ok, length, ok-injective, all, or_fail-eq-ok, >>-eq-ok, &&-true, guard-eq-ok,
  ◌>>=◌, ◌>>◌,
}

-- What of an input goes to the signer beside the transaction.
abbrev pub carried : Input → Option TxOut × Option Transaction × List (RawKey × Bytes)
carried input = (input.witness_utxo, input.non_witness_utxo, input.unknowns)

abbrev pub v0_carried : V0Input → Option TxOut × Option Transaction × List (RawKey × Bytes)
v0_carried input = (input.witness_utxo, input.non_witness_utxo, input.unknown)

abbrev pub Unsigned : List TxIn → Type 0
Unsigned txins = All (λ txin. txin.witness ≡ []) txins

-- What an input of the PSBTv2 does not ask for or hold.
abbrev pub IsPlain : Input → Type 0
IsPlain input =
    (input.min_time ≡ none)
    × (input.min_height ≡ none)
    × (input.tap_script_sigs ≡ [])
    × (input.tap_scripts ≡ [])
    × (input.proprietaries ≡ [])

build_input-kept :
    (txin : TxIn) (input : V0Input) {one : Input}
    → txin.witness ≡ []
    → build_input txin input ≡ ok one
    → (flat_txin one ≡ txin) × (carried one ≡ v0_carried input) × IsPlain one
unfolding build_input
build_input-kept txin input w h =
    let (utxo, u, e) = >>=-eq-ok _ _ h in
    let funded = or_fail-eq-ok _ _ u in
    let unsigned : TxIn = record {
      previous_output = txin.previous_output;
      sequence = txin.sequence;
      witness = [];
    } in
    let same_txin : unsigned ≡ txin = ap (λ x. record txin { witness = x }) (sym w) in
    subst (λ r. (flat_txin r ≡ txin) × (carried r ≡ v0_carried input) × IsPlain r) (ok-injective e)
      (
        same_txin,
        ap (λ t. (t, input.non_witness_utxo, input.unknown)) (sym funded),
        (refl, refl, refl, refl, refl),
      )

build_inputs-kept :
    (txins : List TxIn) (inputs : List V0Input) {built : List Input}
    → length txins ≡ length inputs
    → Unsigned txins
    → build_inputs txins inputs ≡ ok built
    → (map flat_txin built ≡ txins)
      × (map carried built ≡ map v0_carried inputs)
      × All IsPlain built
unfolding build_inputs
build_inputs-kept [] [] l u h =
    subst (λ r. (map flat_txin r ≡ []) × (map carried r ≡ []) × All IsPlain r) (ok-injective h)
      (refl, refl, tt)
build_inputs-kept [] (input ∷ inputs) l u h = absurd (omega arith)
build_inputs-kept (txin ∷ txins) [] l u h = absurd (omega arith)
build_inputs-kept (txin ∷ txins) (input ∷ inputs) l (w, u) h =
    let (one, o, h₁) = >>=-eq-ok _ _ h in
    let (rest, r, e) = >>=-eq-ok _ _ h₁ in
    let (coins, parts, plain) = build_inputs-kept txins inputs (omega arith) u r in
    let (here, part, p) = build_input-kept txin input w o in
    subst
      (λ r.
        (map flat_txin r ≡ txin ∷ txins)
        × (map carried r ≡ v0_carried input ∷ map v0_carried inputs)
        × All IsPlain r)
      (ok-injective e) (cc, cc, (p, plain))

-- An output that stands for a silent payment has no script, and the others are as they were.
abbrev pub IsReplaced : Option SpOutput → TxOut → Output → Type 0
IsReplaced none txout output = flat_txout output ≡ txout
IsReplaced (some sp) txout output =
    (output.amount ≡ txout.value)
    × (output.script_pubkey ≡ [])
    × (output.sp_v0_info ≡ some (sp_v0_info sp.recipient))

abbrev pub AllReplaced : List SpOutput → ℕ → List TxOut → List Output → Type 0
AllReplaced sp_outputs i [] [] = Unit {0}
AllReplaced sp_outputs i (txout ∷ txouts) (output ∷ outputs) =
    IsReplaced (find_sp i sp_outputs) txout output × AllReplaced sp_outputs (suc i) txouts outputs
AllReplaced sp_outputs i _ _ = ⊥

build_output-IsReplaced :
    (sp_outputs : List SpOutput) (i : ℕ) (txout : TxOut) (output : V0Output)
    → IsReplaced (find_sp i sp_outputs) txout (build_output sp_outputs i txout output)
unfolding build_output
build_output-IsReplaced sp_outputs i txout output =
    elim (find_sp i sp_outputs)
      as (λ found. IsReplaced found txout (elim found as (λ x. Output) [
        | none ↦ record (new_output txout.value txout.script_pubkey) {
          bip32_derivations = compressed_derivations output.bip32_derivation;
        }
        | some sp ↦ record (new_output txout.value txout.script_pubkey) {
          bip32_derivations = compressed_derivations output.bip32_derivation;
          script_pubkey = [];
          sp_v0_info = some (sp_v0_info sp.recipient);
        }
      ])) [ none ↦ refl | some sp ↦ (refl, refl, refl) ]

build_outputs-AllReplaced :
    (sp_outputs : List SpOutput) (i : ℕ) (txouts : List TxOut) (outputs : List V0Output)
    {built : List Output}
    → build_outputs sp_outputs i txouts outputs ≡ ok built
    → AllReplaced sp_outputs i txouts built
unfolding build_outputs
build_outputs-AllReplaced sp_outputs i [] outputs h =
    subst (λ r. AllReplaced sp_outputs i [] r) (ok-injective h) tt
build_outputs-AllReplaced sp_outputs i (txout ∷ txouts) [] h = cc
build_outputs-AllReplaced sp_outputs i (txout ∷ txouts) (output ∷ outputs) h =
    let (rest, r, e) = >>=-eq-ok _ _ h in
    subst (λ r. AllReplaced sp_outputs i (txout ∷ txouts) r) (ok-injective e)
      (
        build_output-IsReplaced sp_outputs i txout output,
        build_outputs-AllReplaced sp_outputs (suc i) txouts outputs r,
      )

module _ (updater : Psbt → Option Psbt) (serialize : Psbt → Bytes) where
  -- The updater changes nothing but the flags, which it clears.
  abbrev pub ClearsFlags : Type 0
  ClearsFlags =
      (psbt built : Psbt)
      → updater psbt ≡ some built
      → built ≡ record psbt { global = record (psbt.global) { tx_modifiable_flags = 0 } }

  abbrev pub IsAssembled : V0Psbt → List SpOutput → Psbt → Type 0
  IsAssembled psbt sp_outputs v2 =
      (v2.global.tx_version ≡ psbt.unsigned_tx.version)
      × (v2.global.fallback_lock_time ≡ some psbt.unsigned_tx.lock_time)
      × (v2.global.tx_modifiable_flags ≡ 0)
      × (map flat_txin v2.inputs ≡ psbt.unsigned_tx.input)
      × (map carried v2.inputs ≡ map v0_carried psbt.inputs)
      × All IsPlain v2.inputs
      × AllReplaced sp_outputs 0 psbt.unsigned_tx.output v2.outputs

  -- When the updater clears the flags and changes nothing else, for an unsigned transaction with as
  -- many input maps as inputs: the PSBTv2 that `build_v2` serializes is closed to changes, has the
  -- transaction's version, lock time, coins and sequences, and carries each coin's witness UTXO,
  -- previous transaction and raw fields; an output that stands for a silent payment has its recipient
  -- in place of a script, and each other output its amount and script.
  pub assemble-IsAssembled :
      (psbt : V0Psbt) (sp_outputs : List SpOutput) (v2 : Psbt)
      → ClearsFlags
      → length psbt.unsigned_tx.input ≡ length psbt.inputs
      → Unsigned psbt.unsigned_tx.input
      → assemble updater serialize psbt sp_outputs ≡ ok v2
      → IsAssembled psbt sp_outputs v2
  unfolding assemble
  assemble-IsAssembled psbt sp_outputs v2 clears l u h =
      let (_, h₁) = >>-eq-ok _ _ h in
      let (inputs, i, h₂) = >>=-eq-ok _ _ h₁ in
      let (outputs, o, h₃) = >>=-eq-ok _ _ h₂ in
      let (coins, parts, plain) = build_inputs-kept _ psbt.inputs l u i in
      let replaced =
        build_outputs-AllReplaced sp_outputs 0 psbt.unsigned_tx.output psbt.outputs o in
      subst (IsAssembled psbt sp_outputs) (sym (clears _ v2 (or_fail-eq-ok _ _ h₃)))
        (refl, refl, refl, coins, parts, plain, replaced)

-- What is left of an input that is flattened: nothing that is not carried.
abbrev pub IsSupported : Input → Type 0
IsSupported input =
    (all is_known input.unknowns ≡ true)
    × (input.tap_script_sigs ≡ [])
    × (input.tap_scripts ≡ [])
    × (input.proprietaries ≡ [])

is_empty-≡ {ℓ} : {A : Type ℓ} (xs : List A) → is_empty xs ≡ true → xs ≡ []
is_empty-≡ [] h = refl
is_empty-≡ (x ∷ xs) h = cc

supported : (i : ℕ) (input : Input) → unsupported i input ≡ ok tt → IsSupported input
unfolding unsupported
supported i input h =
    let (k, g) = >>-eq-ok _ _ h in
    let (t, p) = &&-true _ _ (guard-eq-ok _ _ g) in
    let (s, c) = &&-true _ _ t in
    (guard-eq-ok _ _ k, is_empty-≡ _ s, is_empty-≡ _ c, is_empty-≡ _ p)

flat_inputs-eq-ok :
    (i : ℕ) (inputs : List Input) {flat : List V0Input}
    → flat_inputs i inputs ≡ ok flat
    → (flat ≡ map flat_input inputs) × All IsSupported inputs
unfolding flat_inputs
flat_inputs-eq-ok i [] h = (sym (ok-injective h), tt)
flat_inputs-eq-ok i (input ∷ inputs) h =
    let (u, h₁) = >>-eq-ok _ _ h in
    let (rest, r, e) = >>=-eq-ok _ _ h₁ in
    let (same_flat, known) = flat_inputs-eq-ok (suc i) inputs r in
    (sym (ok-injective e) ∙ ap (λ f. flat_input input ∷ f) same_flat, (supported i input u, known))

flat_inputs-ok :
    (i : ℕ) (inputs : List Input)
    → All IsPlain inputs
    → All (λ input. all is_known input.unknowns ≡ true) inputs
    → flat_inputs i inputs ≡ ok (map flat_input inputs)
unfolding flat_inputs unsupported ◌>>=◌ ◌>>◌
flat_inputs-ok i [] p k = refl
flat_inputs-ok i (input ∷ inputs) ((_, _, s, c, q), p) (k, ks) =
    rw (k, s, c, q, flat_inputs-ok (suc i) inputs p ks)

-- What of an input its signer has added.
abbrev pub signatures :
    Input → List (PublicKey × Signature) × Option Signature × Option Bytes × Option (List Bytes)
signatures input =
    (input.partial_sigs, input.tap_key_sig, input.final_script_sig, input.final_script_witness)

abbrev pub v0_signatures :
    V0Input → List (PublicKey × Signature) × Option Signature × Option Bytes × Option (List Bytes)
v0_signatures input =
    (input.partial_sigs, input.tap_key_sig, input.final_script_sig, input.final_script_witness)

map-map_lem {ℓ κ μ} :
    {A : Type ℓ} {B : Type κ} {C : Type μ} (g : B → C) (f : A → B) (xs : List A)
    → map g (map f xs) ≡ map (λ x. g (f x)) xs
map-map_lem g f [] = refl
map-map_lem g f (x ∷ xs) = ap (λ ys. g (f x) ∷ ys) (map-map_lem g f xs)

module _ (b : Bitcoin) where
  abbrev pub IsFlat : Psbt → V0Psbt → Type 0
  IsFlat v2 v0 =
      All IsSupported v2.inputs
      × (map v0_signatures v0.inputs ≡ map signatures v2.inputs)
      × (map (λ input. input.witness_utxo) v0.inputs ≡ map (λ input. input.witness_utxo) v2.inputs)
      × (v0.unsigned_tx.version ≡ v2.global.tx_version)
      × (v0.unsigned_tx.input ≡ map flat_txin v2.inputs)
      × (v0.unsigned_tx.output ≡ map flat_txout v2.outputs)

  -- When `to_v0` passes: every signature, final script and witness UTXO of every input is in the v0
  -- PSBT, in the same order, and the inputs have no script-path signature, leaf script, proprietary
  -- field or raw field but the two of BIP-376 that could have been lost; the transaction has the
  -- version, coins, amounts and scripts of the PSBTv2.
  pub to_v0-IsFlat : (v2 : Psbt) (v0 : V0Psbt) → to_v0 b v2 ≡ ok v0 → IsFlat v2 v0
  unfolding to_v0
  to_v0-IsFlat v2 v0 h =
      let (lock_time, _, h₁) = >>=-eq-ok _ _ h in
      let (inputs, f, e) = >>=-eq-ok _ _ h₁ in
      let (same_flat, supports) = flat_inputs-eq-ok 0 v2.inputs f in
      subst (IsFlat v2) (ok-injective e) (
        supports,
        ap (map v0_signatures) same_flat ∙ map-map_lem v0_signatures flat_input v2.inputs,
        ap (map (λ input. input.witness_utxo)) same_flat
            ∙ map-map_lem (λ input. input.witness_utxo) flat_input v2.inputs,
        refl,
        refl,
        refl,
      )

  -- Without required lock times, the lock time is the fallback.
  abbrev pub UsesFallback : Type 0
  UsesFallback =
      (lock_time : ℕ) (required : List (Option ℕ × Option ℕ))
      → All (λ (r : Option ℕ × Option ℕ). (r.0 ≡ none) × (r.1 ≡ none)) required
      → b.determine_lock_time (some lock_time) required ≡ some lock_time

same_outputs_back :
    (i : ℕ) (txouts : List TxOut) (outputs : List Output)
    → AllReplaced [] i txouts outputs
    → map flat_txout outputs ≡ txouts
unfolding find_sp
same_outputs_back i [] [] a = refl
same_outputs_back i [] (output ∷ outputs) a = absurd a
same_outputs_back i (txout ∷ txouts) [] a = absurd a
same_outputs_back i (txout ∷ txouts) (output ∷ outputs) (here, a) =
    let rest = same_outputs_back (suc i) txouts outputs a in cc

known_back :
    (inputs : List Input) (sources : List V0Input)
    → map carried inputs ≡ map v0_carried sources
    → All (λ source. all is_known source.unknown ≡ true) sources
    → All (λ input. all is_known input.unknowns ≡ true) inputs
known_back [] sources e k = tt
known_back (input ∷ inputs) [] e k = absurd cc
known_back (input ∷ inputs) (source ∷ sources) e (k, ks) =
    let here : input.unknowns ≡ source.unknown = cc in
    let there : map carried inputs ≡ map v0_carried sources = cc in
    (ap (all is_known) here ∙ k, known_back inputs sources there ks)

no_lock_times :
    (inputs : List Input)
    → All IsPlain inputs
    → All
        (λ (r : Option ℕ × Option ℕ). (r.0 ≡ none) × (r.1 ≡ none))
        (map (λ input. (input.min_time, input.min_height)) inputs)
no_lock_times [] p = tt
no_lock_times (input ∷ inputs) ((t, h, _, _, _), p) = ((t, h), no_lock_times inputs p)

module _ (b : Bitcoin) (updater : Psbt → Option Psbt) (serialize : Psbt → Bytes) where
  -- When the updater only clears the flags and the lock time without requirements is the fallback, for
  -- an unsigned transaction with as many input maps as inputs and no raw fields but those of BIP-376:
  -- a PSBTv2 built of it without silent payment outputs becomes a v0 PSBT again, with the same
  -- transaction.
  pub to_v0-assemble :
      (psbt : V0Psbt) (v2 : Psbt)
      → ClearsFlags updater serialize
      → UsesFallback b
      → length psbt.unsigned_tx.input ≡ length psbt.inputs
      → Unsigned psbt.unsigned_tx.input
      → All (λ input. all is_known input.unknown ≡ true) psbt.inputs
      → assemble updater serialize psbt [] ≡ ok v2
      → to_v0 b v2
        ≡ ok (record {
          unsigned_tx = psbt.unsigned_tx;
          inputs = map flat_input v2.inputs;
          outputs = map flat_output v2.outputs;
        })
  unfolding to_v0 ◌>>=◌
  to_v0-assemble psbt v2 clears fallback l u known h =
      let (version, lock_time, _, coins, parts, plain, replaced) =
        assemble-IsAssembled updater serialize psbt [] v2 clears l u h in
      let outs = same_outputs_back 0 psbt.unsigned_tx.output v2.outputs replaced in
      let times = fallback psbt.unsigned_tx.lock_time _ (no_lock_times v2.inputs plain) in
      let flat = flat_inputs-ok 0 v2.inputs plain (known_back v2.inputs psbt.inputs parts known) in
      rw (lock_time, times, flat, version, coins, outs)
