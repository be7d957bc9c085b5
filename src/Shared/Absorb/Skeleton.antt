-- ===== src/Shared/Absorb/Skeleton.antt =====
-- What `absorb` leaves alone: all that decides the transaction id and what is paid.
use kiss_bdk.Shared.Shares.{Recipient}
use kiss_bdk.Shared.Scripts.{Scripts}
use kiss_bdk.Shared.Input.{is_empty}
use kiss_bdk.Shared.Recipients.{infos, recipients-IsRecipient, IsRecipient, get_elem?-infos}
use kiss_bdk.Common.{
  ℕ, suc, Bytes, ◌≡◌, refl, ap, ◌∙◌, none, some, List, [], ◌∷◌, map, ok, >>=-eq-ok, >>-eq-ok, arith,
  if◌then◌else◌, get_elem?, Bool-cases, inl, inr, has_key, Option, true, ◌>>◌, Bool, ◌||◌, same,
  sym, or_fail-eq-ok, All, map-set,
}
use kiss_bdk.Psbt.{Input, Output, Psbt, Transaction}
use kiss_bdk.Bitcoin.{Bitcoin}
use kiss_bdk.Shared.Signatures.{is_some}
use kiss_bdk.Shared.Absorb.{
  Line, keep_share, absorb_shares, absorb_inputs, set_script, absorb_script, is_empty,
  absorb_scripts, with_signature, absorb_signature, absorb_signatures, absorb_signed, absorb,
  Scripts, Source, Recipient,
}

-- An input without its shares and signatures.
abbrev pub bare_input : Input → Input
bare_input i = record i {
  partial_sigs = [];
  tap_key_sig = none;
  sp_ecdh_shares = [];
  sp_dleq_proofs = [];
}

-- An output without the script that a silent payment output gets from the shares.
abbrev pub bare_output : Output → Output
bare_output o = if is_some o.sp_v0_info then record o { script_pubkey = [] } else o

abbrev pub skeleton : Psbt → Psbt
skeleton p = record p { inputs = map bare_input p.inputs; outputs = map bare_output p.outputs }

keep_share-bare :
    (scan share proof : Bytes) (held : Input)
    → bare_input (keep_share scan share proof held) ≡ bare_input held
unfolding keep_share
keep_share-bare scan share proof held = elim (Bool-cases (has_key scan held.sp_ecdh_shares)) [
  | inl h ↦ rw h
  | inr h ↦ rw h
]

module _ (b : Bitcoin) where
  absorb_shares-bare :
      (i : ℕ) (key : Bytes) (keys : List Bytes) (proofs shares : List (Bytes × Bytes))
      (held : Input) (lines : List Line) {after : Input} {lines' : List Line}
      → absorb_shares b i key keys proofs shares held lines ≡ ok (after, lines')
      → bare_input after ≡ bare_input held
  unfolding absorb_shares
  absorb_shares-bare i key keys proofs [] held lines h = cc
  absorb_shares-bare i key keys proofs ((scan, share) ∷ shares) held lines h =
      let (_, h₁) = >>-eq-ok _ _ h in
      let (proof, _, h₂) = >>=-eq-ok _ _ h₁ in
      let (_, h₃) = >>-eq-ok _ _ h₂ in
      absorb_shares-bare i key keys proofs shares _ _ h₃ ∙ keep_share-bare scan share proof held

  absorb_inputs-bare :
      (i : ℕ) (keys : List Bytes) (incoming state : List Input) (lines : List Line)
      {after : List Input} {lines' : List Line}
      → absorb_inputs b i keys incoming state lines ≡ ok (after, lines')
      → map bare_input after ≡ map bare_input state
  unfolding absorb_inputs
  absorb_inputs-bare i keys [] state lines h = ground arith
  absorb_inputs-bare i keys (arrived ∷ incoming) [] lines h = cc
  absorb_inputs-bare i keys (arrived ∷ incoming) (held ∷ state) lines h =
      let (_, h₁) = >>-eq-ok _ _ h in
      let (key, _, h₂) = >>=-eq-ok _ _ h₁ in
      let (here, e, h₃) = >>=-eq-ok _ _ h₂ in
      let (_, h₄) = >>-eq-ok _ _ h₃ in
      let (rest, e', h₅) = >>=-eq-ok _ _ h₄ in
      ground (
        arith,
        absorb_shares-bare i key keys arrived.sp_dleq_proofs arrived.sp_ecdh_shares held lines e,
        absorb_inputs-bare (suc i) keys incoming state here.1 e',
      )

infos-bare : (os : List Output) → infos (map bare_output os) ≡ infos os
infos-bare [] = refl
infos-bare (o ∷ os) = elim (Bool-cases (is_some o.sp_v0_info)) [
  | inl h ↦ rw (h, infos-bare os)
  | inr h ↦ rw (h, infos-bare os)
]

set_script-bare :
    (i : ℕ) (script : Bytes) (psbt : Psbt) (out : Output)
    → get_elem? psbt.outputs i ≡ some out
    → is_some out.sp_v0_info ≡ true
    → skeleton (set_script i script psbt) ≡ skeleton psbt
unfolding set_script
set_script-bare i script psbt out h e =
    rw (h, set_script)
      (ap (λ os. record psbt { inputs = map bare_input psbt.inputs; outputs = os })
        (map-set bare_output psbt.outputs i out _ h (rw e)))

abbrev shown : Bytes → Bytes → Bool
shown sent held = is_empty sent || same sent held

absorb_script-bare :
    (i : ℕ) (sent : Bytes) (held : Output) (d : Option Bytes) (next : Psbt) (lines : List Line)
    (after : Psbt) (lines' : List Line)
    → get_elem? next.outputs i ≡ some held
    → is_some held.sp_v0_info ≡ true
    → absorb_script i sent held.script_pubkey d next lines ≡ ok (after, lines')
    → skeleton after ≡ skeleton next
unfolding absorb_script ◌>>◌
absorb_script-bare i sent held none next lines after lines' g s h = ground arith
absorb_script-bare i sent held (some script) next lines after lines' g s h =
    ground (arith, set_script-bare i script next held g s)

infos-skeleton : (p q : Psbt) → skeleton p ≡ skeleton q → infos p.outputs ≡ infos q.outputs
infos-skeleton p q e =
    sym (infos-bare p.outputs) ∙ ap (λ (s : Psbt). infos s.outputs) e ∙ infos-bare q.outputs

is_some_of {ℓ} : {A : Type ℓ} (o : Option A) {a : A} → o ≡ some a → is_some o ≡ true
is_some_of none h = cc
is_some_of (some a) h = refl

absorb_scripts-bare :
    (derived : Scripts) (incoming : Psbt) (is : List (Option Bytes)) (rs : List Recipient)
    (next : Psbt) (lines : List Line) (after : Psbt) (lines' : List Line)
    → infos next.outputs ≡ is
    → All (IsRecipient is) rs
    → absorb_scripts derived incoming rs next lines ≡ ok (after, lines')
    → skeleton after ≡ skeleton next
unfolding absorb_scripts
absorb_scripts-bare derived incoming is [] next lines after lines' e a h = ground arith
absorb_scripts-bare derived incoming is (r ∷ rs) next lines after lines' e ((info, at), a) h =
    let (sent, _, h₁) = >>=-eq-ok _ _ h in
    let (held, g, h₂) = >>=-eq-ok _ _ h₁ in
    let ((mid, lines₁), here, h₃) = >>=-eq-ok _ _ h₂ in
    let found : get_elem? next.outputs r.output ≡ some held = or_fail-eq-ok _ _ g in
    let known : held.sp_v0_info ≡ some info =
      ground (arith, get_elem?-infos next.outputs r.output found) in
    let step =
      absorb_script-bare r.output sent.script_pubkey held _ next lines mid lines₁ found
        (is_some_of held.sp_v0_info known) here in
    absorb_scripts-bare derived incoming is rs mid lines₁ after lines'
      (infos-skeleton mid next step ∙ e) a h₃
    ∙ step

with_signature-bare :
    (arrived held : Input) → bare_input (with_signature arrived held) ≡ bare_input held
unfolding with_signature
with_signature-bare arrived held = refl

module _ (b : Bitcoin) where
  absorb_signature-bare :
      (incoming : Psbt) (tx : Transaction) (source : Source) (mine : List ℕ) (i : ℕ)
      (next after : Psbt)
      → absorb_signature b incoming tx source mine i next ≡ ok after
      → skeleton after ≡ skeleton next
  unfolding absorb_signature
  absorb_signature-bare incoming tx source mine i next after h =
      let (_, h₁) = >>-eq-ok _ _ h in
      let (arrived, _, h₂) = >>=-eq-ok _ _ h₁ in
      let (held, g, h₃) = >>=-eq-ok _ _ h₂ in
      let (_, _, h₄) = >>=-eq-ok _ _ h₃ in
      let same_inputs =
        map-set bare_input next.inputs i held (with_signature arrived held) (or_fail-eq-ok _ _ g)
          (with_signature-bare arrived held) in
      ground (arith, same_inputs)

  absorb_signatures-bare :
      (incoming : Psbt) (tx : Transaction) (source : Source) (mine signed : List ℕ) (next : Psbt)
      (lines : List Line) (after : Psbt) (lines' : List Line)
      → absorb_signatures b incoming tx source mine signed next lines ≡ ok (after, lines')
      → skeleton after ≡ skeleton next
  unfolding absorb_signatures
  absorb_signatures-bare incoming tx source mine [] next lines after lines' h = ground arith
  absorb_signatures-bare incoming tx source mine (i ∷ signed) next lines after lines' h =
      let (mid, here, h₁) = >>=-eq-ok _ _ h in
      absorb_signatures-bare incoming tx source mine signed mid _ after lines' h₁
      ∙ absorb_signature-bare incoming tx source mine i next mid here

  absorb_signed-bare :
      (incoming : Psbt) (source : Source) (mine signed : List ℕ) (next : Psbt) (lines : List Line)
      (after : Psbt) (lines' : List Line)
      → absorb_signed b incoming source mine signed next lines ≡ ok (after, lines')
      → skeleton after ≡ skeleton next
  unfolding absorb_signed
  absorb_signed-bare incoming source mine [] next lines after lines' h = ground arith
  absorb_signed-bare incoming source mine (i ∷ signed) next lines after lines' h =
      let (tx, _, h₁) = >>=-eq-ok _ _ h in
      absorb_signatures-bare incoming tx source mine (i ∷ signed) next lines after lines' h₁

  -- Whatever arrives, from the signer or from the other wallet, a state that `absorb` returns has
  -- the skeleton of the state before: the same inputs but for shares and signatures, and the same
  -- outputs but for the scripts of silent payment outputs.
  pub absorb-skeleton :
      (state incoming : Psbt) (source : Source) (mine : List ℕ) (after : Psbt) (lines : List Line)
      → absorb b state incoming source mine ≡ ok (after, lines)
      → skeleton after ≡ skeleton state
  unfolding absorb
  absorb-skeleton state incoming source mine after lines h =
      let (_, h₁) = >>-eq-ok _ _ h in
      let (_, h₂) = >>-eq-ok _ _ h₁ in
      let (_, h₃) = >>-eq-ok _ _ h₂ in
      let (rs, _, h₄) = >>=-eq-ok _ _ h₃ in
      let (shared, e, h₅) = >>=-eq-ok _ _ h₄ in
      let next = record state { inputs = shared.0 } in
      let (shares, _, h₆) = >>=-eq-ok _ _ h₅ in
      let (derived, _, h₇) = >>=-eq-ok _ _ h₆ in
      let (rs', found, h₈) = >>=-eq-ok _ _ h₇ in
      let (scripted, s, h₉) = >>=-eq-ok _ _ h₈ in
      absorb_signed-bare incoming source mine _ scripted.0 scripted.1 after lines h₉
      ∙ absorb_scripts-bare derived incoming (infos next.outputs) rs' next shared.1 scripted.0
          scripted.1 refl (recipients-IsRecipient b next rs' found) s
      ∙ ap (λ is. record state { inputs = is; outputs = map bare_output state.outputs })
          (absorb_inputs-bare b 0 _ incoming.inputs state.inputs _ e)
