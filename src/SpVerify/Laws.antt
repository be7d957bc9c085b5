-- ===== src/SpVerify/Laws.antt =====
-- What a signer's answer is when it passes: the transaction that was sent, with proved scripts.
use kiss_bdk.Sp.Derive.{output_script, input_hash}
use kiss_bdk.Bitcoin.{Bitcoin}
use kiss_bdk.Psbt.{
  Input, Output, Psbt, OutPoint, OutPoints-discrete, OptionNat-discrete, OptionBytes-discrete,
}
use kiss_bdk.SpVerify.{
  Error, same_inputs, same_outputs, filling_in, outpoints, verify, verify_output, verify_outputs,
  VerifiedOutput, same_transaction, input_key_sum, occurrences, sp_outputs, Input, Output, Psbt,
  Bitcoin, output_script,
}
use kiss_bdk.Dleq
use kiss_bdk.Shared.Input.{outpoint}
use kiss_bdk.Common.{
  ℕ, suc, refl, ◌≡◌, sym, ap, ◌∙◌, subst, inl, inr, some, none, Option, ok, Result, true, false,
  Bool, List, [], ◌∷◌, ◌++◌, map, arith, ◌>>=◌, Bytes, ◌⊎◌, ◌||◌, >>-eq-ok, length, take, &&-true,
  ==_iff, guard-holds, drop, >>=-eq-ok, guard-eq-ok, lookup, ok-injective, or_fail-eq-ok,
  holds-true, same-≡, context-eq-ok, ◌%◌, ◌^◌,
}

-- What of an input the transaction id depends on.
abbrev pub input_terms : Input → OutPoint × Option ℕ × Option ℕ × Option ℕ
input_terms input = (outpoint input, input.sequence, input.min_time, input.min_height)

-- What an output pays, and to which silent payment address.
abbrev pub output_terms : Output → ℕ × Option Bytes
output_terms output = (output.amount, output.sp_v0_info)

-- A script that was there, or that no silent payment address stands for, has not moved.
abbrev pub ScriptsKept : List Output → List Output → Type 0
ScriptsKept (before ∷ original) (after ∷ signed) =
    ((filling_in before ≡ true) ⊎ (before.script_pubkey ≡ after.script_pubkey))
    × ScriptsKept original signed
ScriptsKept _ _ = Unit {0}

abbrev pub IsSame : Psbt → Psbt → Type 0
IsSame original signed =
    (signed.global.tx_version ≡ original.global.tx_version)
    × (signed.global.fallback_lock_time ≡ original.global.fallback_lock_time)
    × (signed.global.tx_modifiable_flags ≡ 0)
    × (map input_terms original.inputs ≡ map input_terms signed.inputs)
    × (map output_terms original.outputs ≡ map output_terms signed.outputs)
    × ScriptsKept original.outputs signed.outputs

same_inputs-terms :
    (i : ℕ) (original signed : List Input)
    → map outpoint original ≡ map outpoint signed
    → same_inputs i original signed ≡ ok tt
    → map input_terms original ≡ map input_terms signed
unfolding same_inputs
same_inputs-terms i [] [] o h = refl
same_inputs-terms i [] (after ∷ signed) o h = cc
same_inputs-terms i (before ∷ original) [] o h = cc
same_inputs-terms i (before ∷ original) (after ∷ signed) o h =
    let (s, h₁) = >>-eq-ok _ _ h in
    let (l, h₂) = >>-eq-ok _ _ h₁ in
    let (t, m) = &&-true _ _ (guard-eq-ok _ _ l) in
    let same_sequence = guard-holds (OptionNat-discrete before.sequence after.sequence) _ s in
    let same_time = holds-true (OptionNat-discrete before.min_time after.min_time) t in
    let same_height = holds-true (OptionNat-discrete before.min_height after.min_height) m in
    let here : outpoint before ≡ outpoint after = cc in
    let there : map outpoint original ≡ map outpoint signed = cc in
    let rest = same_inputs-terms (suc i) original signed there h₂ in cc

||-true : (x y : Bool) → (x || y) ≡ true → (x ≡ true) ⊎ (y ≡ true)
||-true true y h = inl refl
||-true false y h = inr h

same_outputs-terms :
    (i : ℕ) (original signed : List Output)
    → length original ≡ length signed
    → same_outputs i original signed ≡ ok tt
    → (map output_terms original ≡ map output_terms signed) × ScriptsKept original signed
unfolding same_outputs
same_outputs-terms i [] [] l h = (refl, tt)
same_outputs-terms i [] (after ∷ signed) l h = absurd (omega arith)
same_outputs-terms i (before ∷ original) [] l h = absurd (omega arith)
same_outputs-terms i (before ∷ original) (after ∷ signed) l h =
    let (a, h₁) = >>-eq-ok _ _ h in
    let (r, h₂) = >>-eq-ok _ _ h₁ in
    let (s, h₃) = >>-eq-ok _ _ h₂ in
    let same_amount = (==_iff before.amount after.amount).0 (guard-eq-ok _ _ a) in
    let same_info = guard-holds (OptionBytes-discrete before.sp_v0_info after.sp_v0_info) _ r in
    let (rest, scripts) = same_outputs-terms (suc i) original signed (omega arith) h₃ in
    (
      cc,
      (
        elim (||-true (filling_in before) _ (guard-eq-ok _ _ s)) [
          | inl f ↦ inl f
          | inr e ↦ inr (same-≡ before.script_pubkey after.script_pubkey e)
        ],
        scripts,
      ),
    )

same_transaction-IsSame :
    (original signed : Psbt) → same_transaction original signed ≡ ok tt → IsSame original signed
unfolding same_transaction
same_transaction-IsSame original signed h =
    let (v, h₁) = >>-eq-ok _ _ h in
    let (o, h₂) = >>-eq-ok _ _ h₁ in
    let (n, h₃) = >>-eq-ok _ _ h₂ in
    let (l, h₄) = >>-eq-ok _ _ h₃ in
    let (m, h₅) = >>-eq-ok _ _ h₄ in
    let (i, h₆) = >>-eq-ok _ _ h₅ in
    let coins = guard-holds (OutPoints-discrete (outpoints original) (outpoints signed)) _ o in
    let (outputs, scripts) =
      same_outputs-terms 0 original.outputs signed.outputs ((==_iff _ _).0 (guard-eq-ok _ _ n))
        h₆ in
    (
      sym ((==_iff _ _).0 (guard-eq-ok _ _ v)),
      sym (guard-holds (OptionNat-discrete _ _) _ l),
      (==_iff _ _).0 (guard-eq-ok _ _ m),
      same_inputs-terms 0 original.inputs signed.inputs coins i,
      outputs,
      scripts,
    )

module _ (b : Bitcoin) where
  -- The script is the one that a share gives for this address, and the share is proved for the sum of
  -- the input keys.
  abbrev pub IsPaid : Psbt → Bytes → Bytes → List Bytes → Bytes → Bytes → Bytes → Type 0
  IsPaid signed a_sum hash group info script scan =
      (spend : Bytes) × (share : Bytes) × (proof : Bytes) × (b.key_from_slice (take 33 info)
        ≡ some scan)
      × (b.key_from_slice (drop 33 info) ≡ some spend)
      × (lookup scan signed.global.sp_ecdh_shares ≡ some share)
      × (Dleq.verify b a_sum scan share proof ≡ ok tt)
      × (output_script b share spend hash (occurrences scan group % 2 ^ 32) ≡ ok script)

  -- Every silent payment output, where `group` holds the scan keys of those before.
  abbrev pub AllPaid : Psbt → Bytes → Bytes → List Bytes → List Output → Type 0
  AllPaid signed a_sum hash group [] = Unit {0}
  AllPaid signed a_sum hash group (output ∷ outputs) = elim output.sp_v0_info [
    | none ↦ AllPaid signed a_sum hash group outputs
    | some info ↦
        (scan : Bytes) × IsPaid signed a_sum hash group info output.script_pubkey scan
        × AllPaid signed a_sum hash (group ++ scan ∷ []) outputs
  ]

  verify_output-IsPaid :
      (signed : Psbt) (a_sum hash : Bytes) (group : List Bytes) (i : ℕ) (info script : Bytes)
      {scan : Bytes}
      → verify_output b signed a_sum hash group i info script ≡ ok scan
      → IsPaid signed a_sum hash group info script scan
  unfolding verify_output
  verify_output-IsPaid signed a_sum hash group i info script h =
      let (_, h₁) = >>-eq-ok _ _ h in
      let (scan, k, h₂) = >>=-eq-ok _ _ h₁ in
      let (spend, k', h₃) = >>=-eq-ok _ _ h₂ in
      let (share, s, h₄) = >>=-eq-ok _ _ h₃ in
      let (proof, p, h₅) = >>=-eq-ok _ _ h₄ in
      let (d, h₆) = >>-eq-ok _ _ h₅ in
      let (expected, o, h₇) = >>=-eq-ok _ _ h₆ in
      let (g, e) = >>-eq-ok _ _ h₇ in
      subst (IsPaid signed a_sum hash group info script) (ok-injective e) (
        spend,
        share,
        proof,
        or_fail-eq-ok _ _ k,
        or_fail-eq-ok _ _ k',
        or_fail-eq-ok _ _ s,
        context-eq-ok _ _ d,
        context-eq-ok _ _ o ∙ ap ok (same-≡ expected script (guard-eq-ok _ _ g)),
      )

  verify_outputs-AllPaid :
      (signed : Psbt) (a_sum hash : Bytes) (group : List Bytes) (i : ℕ) (outputs : List Output)
      {verified : List VerifiedOutput}
      → verify_outputs b signed a_sum hash group i outputs ≡ ok verified
      → AllPaid signed a_sum hash group outputs
  unfolding verify_outputs
  verify_outputs-AllPaid signed a_sum hash group i [] h = tt
  verify_outputs-AllPaid signed a_sum hash group i (output ∷ outputs) {verified = verified} h =
      by_info (λ g found r. verify_outputs-AllPaid signed a_sum hash g (suc i) outputs r)
        output.sp_v0_info h
    where
      by_info :
          ((g : List Bytes) (found : List VerifiedOutput)
            → verify_outputs b signed a_sum hash g (suc i) outputs ≡ ok found
            → AllPaid signed a_sum hash g outputs)
          → (info : Option Bytes)
          → elim info as (λ x. Result Error (List VerifiedOutput)) [
            | none ↦ verify_outputs b signed a_sum hash group (suc i) outputs
            | some address ↦ do
              scan ← verify_output b signed a_sum hash group i address output.script_pubkey
              rest ← verify_outputs b signed a_sum hash (group ++ scan ∷ []) (suc i) outputs
              ok (record { index = i; scan = scan } ∷ rest)
          ]
            ≡ ok verified
          → elim info as (λ x. Type 0) [
            | none ↦ AllPaid signed a_sum hash group outputs
            | some address ↦
                (scan : Bytes) × IsPaid signed a_sum hash group address output.script_pubkey scan
                × AllPaid signed a_sum hash (group ++ scan ∷ []) outputs
          ]
      by_info ih none k = ih group verified k
      by_info ih (some address) k =
          let (scan, p, k₁) = >>=-eq-ok _ _ k in
          let (rest, r, _) = >>=-eq-ok _ _ k₁ in
          (
            scan,
            verify_output-IsPaid signed a_sum hash group i address output.script_pubkey p,
            ih (group ++ scan ∷ []) rest r,
          )

  -- What `verify` has found out when it passes.
  abbrev pub IsVerified : Psbt → Psbt → List VerifiedOutput → Type 0
  IsVerified original signed verified =
      IsSame original signed
      × ((a_sum : Bytes) × (hash : Bytes) × (input_key_sum b original ≡ ok a_sum)
          × (input_hash b (outpoints signed) a_sum ≡ ok hash)
          × AllPaid signed a_sum hash [] signed.outputs)
      × (length verified ≡ sp_outputs original.outputs)

  -- When a signer's answer passes, it is the transaction that the signer was given, in which no amount,
  -- recipient, coin, sequence or lock time differs and no script but those that the signer was to fill
  -- in; every silent payment output pays the script that a share gives which is proved for the sum of
  -- the coordinator's own input keys; and as many outputs are verified as were asked for.
  pub verify-IsVerified :
      (original signed : Psbt) (verified : List VerifiedOutput)
      → verify b original signed ≡ ok verified
      → IsVerified original signed verified
  unfolding verify
  verify-IsVerified original signed verified h =
      let (s, h₁) = >>-eq-ok _ _ h in
      let (a_sum, a, h₂) = >>=-eq-ok _ _ h₁ in
      let (hash, k, h₃) = >>=-eq-ok _ _ h₂ in
      let (found, f, h₄) = >>=-eq-ok _ _ h₃ in
      let (n, e) = >>-eq-ok _ _ h₄ in
      (
        same_transaction-IsSame original signed s,
        (
          a_sum,
          hash,
          a,
          context-eq-ok _ _ k,
          verify_outputs-AllPaid signed a_sum hash [] 0 signed.outputs f,
        ),
        ap length (sym (ok-injective e)) ∙ (==_iff _ _).0 (guard-eq-ok _ _ n),
      )
