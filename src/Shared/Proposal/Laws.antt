-- ===== src/Shared/Proposal/Laws.antt =====
-- What a wallet knows of a proposal that it read, and of the transaction that it made of it.
use kiss_bdk.Shared.Signatures.{is_some}
use kiss_bdk.Shared.Fee.{check_fee}
use kiss_bdk.Shared.Input.{new_output, check_input, adopt_input, outpoint}
use kiss_bdk.Psbt.{Psbt, Input, Output, V0Psbt, OptionBytes-discrete}
use kiss_bdk.Bitcoin.{Bitcoin}
use kiss_bdk.Sp.{SilentPaymentAddress, sp_v0_info}
use kiss_bdk.Sp.Address
use kiss_bdk.Sp.Address.{AddressText}
use kiss_bdk.Shared.Message.{Message}
use kiss_bdk.Shared.Terms.{check_terms}
use kiss_bdk.Shared.Terms.Laws.{AllDifferent, no_coin_twice_iff}
use kiss_bdk.Shared.Join.Laws.{IsOrdinary, adopt_output-IsOrdinary}
use kiss_bdk.Shared.Proposal.Removed.{Removed}
use kiss_bdk.Shared.Half.Laws.{IsHalf}
use kiss_bdk.Shared.Wire.{Wire, decode}
use kiss_bdk.Shared.Proposal.{
  Proposal, new_output, payment_output, read_outputs, read_inputs, read_proposal, check_terms,
  check_fee, is_some, read_half,
}
use kiss_bdk.Common.{
  ℕ, zero, suc, refl, ◌≡◌, sym, ap, ◌∙◌, subst, inl, inr, some, none, Option, ok, false, List, [],
  ◌∷◌, ◌++◌, map, Bytes, All, same, length, >>-eq-ok, ok-injective, >>=-eq-ok, &&-true, Bool-cases,
  ==_iff, guard-eq-ok, holds-true, refuse-eq-ok, context-eq-ok, or_fail-eq-ok, ◌/◌,
}

-- The output that pays the recipient, with nothing else in it.
abbrev pub payment_to : SilentPaymentAddress → ℕ → Output
payment_to recipient sats = record (new_output sats []) { sp_v0_info = some (sp_v0_info recipient) }

-- `n` outputs are the payment, and the others are ordinary outputs.
abbrev pub PaysTimes : SilentPaymentAddress → ℕ → ℕ → List Output → Type 0
PaysTimes recipient sats zero outputs = All IsOrdinary outputs
PaysTimes recipient sats (suc n) outputs =
    (before : List Output) × (after : List Output) × (outputs
      ≡ before ++ payment_to recipient sats ∷ after)
    × All IsOrdinary before
    × PaysTimes recipient sats n after

PaysTimes-ordinary :
    (recipient : SilentPaymentAddress) (sats n : ℕ) (output : Output) (outputs : List Output)
    → IsOrdinary output
    → PaysTimes recipient sats n outputs
    → PaysTimes recipient sats n (output ∷ outputs)
PaysTimes-ordinary recipient sats zero output outputs o p = (o, p)
PaysTimes-ordinary recipient sats (suc n) output outputs o (before, after, e, b, p) =
    (output ∷ before, after, ap (λ r. output ∷ r) e, (o, b), p)

payment_output-payment_to :
    (recipient : SilentPaymentAddress) (sats i : ℕ) (output : Output) {clean : Output}
    → payment_output recipient sats i output ≡ ok clean
    → clean ≡ payment_to recipient sats
unfolding payment_output
payment_output-payment_to recipient sats i output h =
    let (g, h₁) = >>-eq-ok _ _ h in
    let (a, h₂) = >>-eq-ok _ _ h₁ in
    let (_, e) = >>-eq-ok _ _ h₂ in
    let (r, _) = &&-true _ _ (guard-eq-ok _ _ g) in
    let to = holds-true (OptionBytes-discrete output.sp_v0_info (some (sp_v0_info recipient))) r in
    let amount = (==_iff _ _).0 (guard-eq-ok _ _ a) in
    sym (ok-injective e)
    ∙ ap (λ n. record (new_output n []) { sp_v0_info = output.sp_v0_info }) amount
    ∙ ap (λ info. record (new_output sats []) { sp_v0_info = info }) to

read_outputs-PaysTimes :
    (recipient : SilentPaymentAddress) (sats i : ℕ) (outputs : List Output) {r : ℕ × List Output}
    → read_outputs recipient sats i outputs ≡ ok r
    → PaysTimes recipient sats r.0 r.1
unfolding read_outputs
read_outputs-PaysTimes recipient sats i [] h =
    subst (λ r. PaysTimes recipient sats r.0 r.1) (ok-injective h) tt
read_outputs-PaysTimes recipient sats i (output ∷ outputs) {r = r} h =
    elim (Bool-cases (is_some output.sp_v0_info)) [
      | inl e ↦
          let (clean, c, h₁) = >>=-eq-ok _ _ (rw e at h) in
          let (rest, k, e') = >>=-eq-ok _ _ h₁ in
          let same_clean = payment_output-payment_to recipient sats i output c in
          subst (λ r. PaysTimes recipient sats r.0 r.1) (ok-injective e')
            (
              [],
              rest.1,
              ap (λ x. x ∷ rest.1) same_clean,
              tt,
              read_outputs-PaysTimes recipient sats (suc i) outputs k,
            )
      | inr e ↦
          let (adopted, a, h₁) = >>=-eq-ok _ _ (rw e at h) in
          let (rest, k, e') = >>=-eq-ok _ _ h₁ in
          subst (λ r. PaysTimes recipient sats r.0 r.1) (ok-injective e')
            (PaysTimes-ordinary recipient sats rest.0 adopted rest.1
              (adopt_output-IsOrdinary i output a)
              (read_outputs-PaysTimes recipient sats (suc i) outputs k))
    ]

-- No signature, share or proof.
abbrev pub IsBare : Input → Type 0
IsBare input =
    (input.partial_sigs ≡ [])
    × (input.tap_key_sig ≡ none)
    × (input.sp_ecdh_shares ≡ [])
    × (input.sp_dleq_proofs ≡ [])

module _ (b : Bitcoin) where
  -- Every input passes `check_input` at its position.
  abbrev pub AllPass : ℕ → List Input → Type 0
  AllPass i [] = Unit {0}
  AllPass i (input ∷ inputs) = (check_input b i input ≡ ok tt) × AllPass (suc i) inputs

  read_inputs-AllPass :
      (i : ℕ) (inputs : List Input) {r : List Input}
      → read_inputs b i inputs ≡ ok r
      → AllPass i inputs × All IsBare r × (map outpoint r ≡ map outpoint inputs)
  unfolding read_inputs adopt_input
  read_inputs-AllPass i [] h =
      subst (λ r. Unit {0} × All IsBare r × (map outpoint r ≡ [])) (ok-injective h) (tt, tt, refl)
  read_inputs-AllPass i (input ∷ inputs) h =
      let (adopted, a, h₁) = >>=-eq-ok _ _ h in
      let (rest, k, e) = >>=-eq-ok _ _ h₁ in
      let (passes, e') = >>-eq-ok _ _ a in
      let (pass, bare, coins) = read_inputs-AllPass (suc i) inputs k in
      subst
        (λ r.
          AllPass i (input ∷ inputs)
          × All IsBare r
          × (map outpoint r ≡ map outpoint (input ∷ inputs)))
        (ok-injective e)
        (
          (passes, pass),
          (subst IsBare (ok-injective e') (refl, refl, refl, refl), bare),
          ap (λ x. outpoint x ∷ map outpoint rest) (sym (ok-injective e'))
              ∙ ap (λ coins. outpoint input ∷ coins) coins,
        )

  IsReduced : SilentPaymentAddress → ℕ → Psbt → Psbt → Type 0
  IsReduced recipient sats theirs psbt =
      AllPass 0 theirs.inputs
      × (map outpoint psbt.inputs ≡ map outpoint theirs.inputs)
      × All IsBare psbt.inputs
      × AllDifferent (map outpoint psbt.inputs)
      × PaysTimes recipient sats 1 psbt.outputs

  read_half-IsReduced :
      (recipient : SilentPaymentAddress) (sats : ℕ) (theirs psbt : Psbt)
      → read_half b recipient sats theirs ≡ ok psbt
      → IsReduced recipient sats theirs psbt
  unfolding read_half IsReduced
  read_half-IsReduced recipient sats theirs psbt h =
      let (_, h₁) = >>-eq-ok _ _ h in
      let (_, h₂) = >>-eq-ok _ _ h₁ in
      let (_, h₃) = >>-eq-ok _ _ h₂ in
      let (inputs, i, h₄) = >>=-eq-ok _ _ h₃ in
      let (outputs, o, h₅) = >>=-eq-ok _ _ h₄ in
      let (n, h₆) = >>-eq-ok _ _ h₅ in
      let (coins, e) = >>-eq-ok _ _ h₆ in
      let (pass, bare, same_coins) = read_inputs-AllPass 0 theirs.inputs i in
      let once = (==_iff outputs.0 1).0 (guard-eq-ok _ _ n) in
      subst (IsReduced recipient sats theirs) (ok-injective e) (
        pass,
        same_coins,
        bare,
        (no_coin_twice_iff _).0 coins,
        subst (λ n. PaysTimes recipient sats n outputs.1) once
            (read_outputs-PaysTimes recipient sats 0 theirs.outputs o),
      )

module _ (b : Bitcoin) (w : Wire) (text : AddressText) where
  -- What stands behind a proposal that was read.
  abbrev pub IsChecked : Message → Bytes → Proposal → Type 0
  IsChecked message me agreed =
      (same agreed.from me ≡ false)
      × (Address.decode b text agreed.to ≡ ok agreed.recipient)
      × (check_terms agreed.recipient agreed.sats agreed.fee_rate ≡ ok tt)
      × ((encoded : Bytes) × (theirs : Psbt) × (message.psbt ≡ some encoded)
          × (decode w encoded ≡ ok theirs)
          × AllPass b 0 theirs.inputs
          × (map outpoint agreed.psbt.inputs ≡ map outpoint theirs.inputs))
      × All IsBare agreed.psbt.inputs
      × AllDifferent (map outpoint agreed.psbt.inputs)
      × PaysTimes agreed.recipient agreed.sats 1 agreed.psbt.outputs

  -- When a proposal is read: it is from another wallet, its terms pass for the address that it names,
  -- every coin of it passes the checks of an input and no coin is there twice, nothing of it is signed
  -- or shared, and exactly one output pays the named address, the named amount and without a script,
  -- while the others are ordinary outputs with a script.
  pub read_proposal-IsChecked :
      (message : Message) (me : Bytes) (agreed : Proposal)
      → read_proposal b w text message me ≡ ok agreed
      → IsChecked message me agreed
  unfolding read_proposal IsReduced
  read_proposal-IsChecked message me agreed h =
      let (_, h₁) = >>-eq-ok _ _ h in
      let (f, h₂) = >>-eq-ok _ _ h₁ in
      let (to, _, h₃) = >>=-eq-ok _ _ h₂ in
      let (sats, _, h₄) = >>=-eq-ok _ _ h₃ in
      let (fee_rate, _, h₅) = >>=-eq-ok _ _ h₄ in
      let (recipient, r, h₆) = >>=-eq-ok _ _ h₅ in
      let (t, h₇) = >>-eq-ok _ _ h₆ in
      let (encoded, c, h₈) = >>=-eq-ok _ _ h₇ in
      let (theirs, d, h₉) = >>=-eq-ok _ _ h₈ in
      let (psbt, p, e) = >>=-eq-ok _ _ h₉ in
      let (pass, same_coins, bare, coins, once) =
        read_half-IsReduced b recipient sats theirs psbt p in
      subst (IsChecked message me) (ok-injective e) (
        refuse-eq-ok _ _ f,
        context-eq-ok _ _ r,
        t,
        (encoded, theirs, or_fail-eq-ok _ _ c, d, pass, same_coins),
        bare,
        coins,
        once,
      )

module _ (b : Bitcoin) (w : Wire) (updater : Psbt → Option Psbt) where
  -- What stands in the joined transaction.
  abbrev pub IsJoined : Proposal → V0Psbt → Psbt → Type 0
  IsJoined agreed half joined =
      ((mine : Psbt) × (index : ℕ) × (change : List Output) × IsHalf b w updater half
          agreed.recipient (agreed.sats / 2) agreed.fee_rate mine index
        × (joined.inputs ≡ agreed.psbt.inputs ++ mine.inputs)
        × (joined.outputs ≡ agreed.psbt.outputs ++ change)
        × Removed index mine.outputs change)
      × (joined.global.tx_modifiable_flags ≡ 0)
      × (joined.global.input_count ≡ length joined.inputs)
      × (joined.global.output_count ≡ length joined.outputs)
      × AllDifferent (map outpoint joined.inputs)
      × ((sats : ℕ) × (check_fee b joined agreed.fee_rate ≡ ok sats))
