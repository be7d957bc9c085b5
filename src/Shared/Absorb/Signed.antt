-- ===== src/Shared/Absorb/Signed.antt =====
-- The signatures in a state that `absorb` returns: held before, or verified while taking them in.
use mathlib.Core.Option
use kiss_bdk.Shared.Shares.{Recipient}
use kiss_bdk.Shared.Scripts.{Scripts}
use kiss_bdk.Shared.Absorb.Sound.{absorb_signatures-outputs}
use kiss_bdk.Shared.SignatureView.{
  verified_if_carried, signature_verifies-view, unsigned_transaction-view,
}
use kiss_bdk.Shared.Absorb.View.{absorb_signatures-view, absorb-Absorbed}
use kiss_bdk.Shared.Error.{foreign_signature}
use kiss_bdk.Shared.Recipients.{get_elem?-append_length}
use kiss_bdk.Shared.Absorb.{
  peer, signer, Source, absorb_signature, with_signature, absorb_signatures, Line,
  foreign_signature, absorb_signed, keep_share, absorb_scripts, absorb_shares, absorb_inputs,
  absorb, absorb_script, set_script, Scripts, Recipient,
}
use mathlib.Core.List.{append_assoc}
use kiss_bdk.Bitcoin.{Bitcoin}
use kiss_bdk.Psbt.{Input, Psbt, Transaction, Signature, PublicKey}
use kiss_bdk.Shared.Signatures.{
  signed_from, signature_verifies, carries_signature, unsigned_transaction,
}
use kiss_bdk.Common.{
  zero, ℕ, suc, refl, ◌≡◌, sym, ap, ◌∙◌, subst, inl, inr, some, none, Option, ok, true, false, List,
  [], ◌∷◌, ◌++◌, map, arith, ◌>>◌, Bytes, ◌⊎◌, get_elem?, All, length, length-append, Bool-cases,
  elem, >>-eq-ok, >>=-eq-ok, refuse, set, ℕ_discrete, not, or_fail-eq-ok, get_elem?-set_ne,
  get_elem?-set_self,
}

abbrev CarriesAt : List Input → ℕ → Type 0
CarriesAt is i =
    (arrived : Input) × (get_elem? is i ≡ some arrived) × (carries_signature arrived ≡ true)

signed_from-carries :
    (before is : List Input) → All (CarriesAt (before ++ is)) (signed_from (length before) is)
unfolding signed_from
signed_from-carries before [] = tt
signed_from-carries before (x ∷ is) =
    let rest =
      subst (λ l. All (CarriesAt (before ++ x ∷ is)) (signed_from l is))
        (omega (arith, length-append before (x ∷ [])))
        (subst (λ all. All (CarriesAt all) (signed_from (length (before ++ x ∷ [])) is))
          (append_assoc before (x ∷ []) is) (signed_from-carries (before ++ x ∷ []) is)) in
    elim (Bool-cases (carries_signature x)) [
      | inl e ↦ rw (e, signed_from) ((x, get_elem?-append_length before x is, e), rest)
      | inr e ↦ rw (e, signed_from) rest
    ]

-- The signatures that an input carries.
abbrev pub signatures : Input → List (PublicKey × Signature) × Option Signature
signatures i = (i.partial_sigs, i.tap_key_sig)

keep_share-signatures :
    (scan share proof : Bytes) (held : Input)
    → signatures (keep_share scan share proof held) ≡ signatures held
unfolding keep_share
keep_share-signatures scan share proof held = ground arith

get_elem?-map {ℓ κ} :
    {A : Type ℓ} {B : Type κ} (f : A → B) (xs : List A) (i : ℕ)
    → get_elem? (map f xs) i ≡ Option.map f (get_elem? xs i)
get_elem?-map f [] i = refl
get_elem?-map f (x ∷ xs) zero = refl
get_elem?-map f (x ∷ xs) (suc i) = get_elem?-map f xs i

absorb_script-inputs :
    (i : ℕ) (sent held : Bytes) (d : Option Bytes) (next : Psbt) (lines : List Line) (after : Psbt)
    (lines' : List Line)
    → absorb_script i sent held d next lines ≡ ok (after, lines')
    → next.inputs ≡ after.inputs
unfolding absorb_script set_script ◌>>◌
absorb_script-inputs i sent held none next lines after lines' h = ground arith
absorb_script-inputs i sent held (some script) next lines after lines' h = ground arith

absorb_scripts-inputs :
    (derived : Scripts) (incoming : Psbt) (rs : List Recipient) (next : Psbt) (lines : List Line)
    (after : Psbt) (lines' : List Line)
    → absorb_scripts derived incoming rs next lines ≡ ok (after, lines')
    → next.inputs ≡ after.inputs
unfolding absorb_scripts
absorb_scripts-inputs derived incoming [] next lines after lines' h = ground arith
absorb_scripts-inputs derived incoming (r ∷ rs) next lines after lines' h =
    let (sent, _, h₁) = >>=-eq-ok _ _ h in
    let (held, g, h₂) = >>=-eq-ok _ _ h₁ in
    let ((mid, lines₁), here, h₃) = >>=-eq-ok _ _ h₂ in
    absorb_script-inputs r.output _ _ _ next lines mid lines₁ here
    ∙ absorb_scripts-inputs derived incoming rs mid lines₁ after lines' h₃

allowed_of :
    (source : Source) (mine : List ℕ) (k : ℕ)
    → refuse (elim source [ signer ↦ not (elem k mine) | peer ↦ false ]) (foreign_signature k)
      ≡ ok tt
    → source ≡ signer
    → elem k mine ≡ true
allowed_of signer mine k h e = ground arith
allowed_of peer mine k h e = cc

module _ (b : Bitcoin) where
  -- Input `i` is as it was, or carries a signature that verifies and that this source may bring.
  abbrev Status : Source → List ℕ → Transaction → Psbt → Psbt → ℕ → Type 0
  Status source mine tx before after i =
      (get_elem? after.inputs i ≡ get_elem? before.inputs i)
      ⊎ ((signature_verifies b after tx i ≡ ok true) × (source ≡ signer → elem i mine ≡ true))

  absorb_signature-cases :
      (incoming : Psbt) (tx : Transaction) (source : Source) (mine : List ℕ) (k : ℕ)
      (next after : Psbt)
      → CarriesAt incoming.inputs k
      → absorb_signature b incoming tx source mine k next ≡ ok after
      → (next ≡ after)
        ⊎ ((v : Input) × (record next { inputs = set next.inputs k v } ≡ after)
            × (signature_verifies b after tx k ≡ ok true)
            × (source ≡ signer → elem k mine ≡ true))
  unfolding absorb_signature with_signature carries_signature
  absorb_signature-cases incoming tx source mine k next after (sent, at, carried) h =
      let (allowed, h₁) = >>-eq-ok _ _ h in
      let (arrived, found, h₂) = >>=-eq-ok _ _ h₁ in
      let (held, g, h₃) = >>=-eq-ok _ _ h₂ in
      let (good, checked, h₄) = >>=-eq-ok _ _ h₃ in
      let v = with_signature arrived held in
      let probe = record next { inputs = set next.inputs k v } in
      let is_sent : sent ≡ arrived = cc (or_fail-eq-ok _ _ found) in
      let carries : carries_signature arrived ≡ true =
        subst (λ x. carries_signature x ≡ true) is_sent carried in
      let truly : good ≡ true =
        verified_if_carried b probe tx k v
          (get_elem?-set_self next.inputs k held v (or_fail-eq-ok _ _ g)) carries checked in
      elim (Bool-cases (carries_signature held)) [
        | inl e ↦ inl (ground arith)
        | inr e ↦
            let new : probe ≡ after = ground arith in
            inr (
              v,
              new,
              subst (λ (p : Psbt). signature_verifies b p tx k ≡ ok true) new
                  (checked ∙ ap ok truly),
              allowed_of source mine k allowed,
            )
      ]

  absorb_signature-Status :
      (incoming : Psbt) (tx : Transaction) (source : Source) (mine : List ℕ) (k : ℕ)
      (next after : Psbt) (i : ℕ)
      → CarriesAt incoming.inputs k
      → absorb_signature b incoming tx source mine k next ≡ ok after
      → Status source mine tx next after i
  absorb_signature-Status incoming tx source mine k next after i c h =
      elim (absorb_signature-cases incoming tx source mine k next after c h) [
        | inl e ↦ inl (ap (λ (p : Psbt). get_elem? p.inputs i) (sym e))
        | inr (v, e, verified, allowed) ↦ elim (ℕ_discrete k i) [
          | yes at ↦ subst (Status source mine tx next after) at (inr (verified, allowed))
          | no ne ↦ inl (
              ap (λ (p : Psbt). get_elem? p.inputs i) (sym e)
              ∙ get_elem?-set_ne next.inputs k i v ne)
        ]
      ]

  absorb_signatures-Status :
      (incoming : Psbt) (tx : Transaction) (source : Source) (mine signed : List ℕ) (next : Psbt)
      (lines : List Line) (after : Psbt) (lines' : List Line) (i : ℕ)
      → All (CarriesAt incoming.inputs) signed
      → absorb_signatures b incoming tx source mine signed next lines ≡ ok (after, lines')
      → Status source mine tx next after i
  unfolding absorb_signatures
  absorb_signatures-Status incoming tx source mine [] next lines after lines' i c h =
      inl (ground arith)
  absorb_signatures-Status incoming tx source mine (k ∷ signed) next lines after lines' i (c, cs)
        h =
      let (mid, here, h₁) = >>=-eq-ok _ _ h in
      elim (absorb_signatures-Status incoming tx source mine signed mid _ after lines' i cs h₁) [
        | inr new ↦ inr new
        | inl kept ↦ elim (absorb_signature-Status incoming tx source mine k next mid i c here) [
          | inl kept' ↦ inl (kept ∙ kept')
          | inr (verified, allowed) ↦ inr (
            signature_verifies-view b after mid tx i kept (
                  ap (λ (p : Psbt). p.inputs)
                    (absorb_signatures-view b incoming tx source mine signed mid _ after lines' h₁))
                ∙ verified,
            allowed,
          )
        ]
      ]

  -- A good signature on input `i` of the transaction that the state stands for, from a source that
  -- may bring one.
  abbrev pub SignedBy : Source → List ℕ → Psbt → ℕ → Type 0
  SignedBy source mine p i =
      (tx : Transaction) × (unsigned_transaction b p ≡ ok tx)
      × (signature_verifies b p tx i ≡ ok true)
      × (source ≡ signer → elem i mine ≡ true)

  absorb_signed-SignedBy :
      (incoming : Psbt) (source : Source) (mine signed : List ℕ) (next : Psbt) (lines : List Line)
      (after : Psbt) (lines' : List Line) (i : ℕ)
      → All (CarriesAt incoming.inputs) signed
      → absorb_signed b incoming source mine signed next lines ≡ ok (after, lines')
      → (get_elem? after.inputs i ≡ get_elem? next.inputs i) ⊎ SignedBy source mine after i
  unfolding absorb_signed
  absorb_signed-SignedBy incoming source mine [] next lines after lines' i c h = inl (ground arith)
  absorb_signed-SignedBy incoming source mine (k ∷ signed) next lines after lines' i c h =
      let (tx, t, h₁) = >>=-eq-ok _ _ h in
      let view =
        absorb_signatures-view b incoming tx source mine (k ∷ signed) next lines after lines' h₁ in
      let same_tx =
        unsigned_transaction-view b after next (ap (λ (p : Psbt). p.global) view)
          (sym (
            absorb_signatures-outputs b incoming tx source mine (k ∷ signed) next lines after lines'
              h₁))
          (ap (λ (p : Psbt). p.inputs) view) in
      elim (absorb_signatures-Status incoming tx source mine (k ∷ signed) next lines after lines' i
        c h₁) [
          | inl kept ↦ inl kept
          | inr (verified, allowed) ↦ inr (tx, same_tx ∙ t, verified, allowed)
        ]

  absorb_shares-signatures :
      (i : ℕ) (key : Bytes) (keys : List Bytes) (proofs shares : List (Bytes × Bytes))
      (held : Input) (lines : List Line) (after : Input) (lines' : List Line)
      → absorb_shares b i key keys proofs shares held lines ≡ ok (after, lines')
      → signatures after ≡ signatures held
  unfolding absorb_shares keep_share
  absorb_shares-signatures i key keys proofs [] held lines after lines' h = ground arith
  absorb_shares-signatures i key keys proofs ((scan, share) ∷ shares) held lines after lines' h =
      let (_, h₁) = >>-eq-ok _ _ h in
      let (proof, _, h₂) = >>=-eq-ok _ _ h₁ in
      let (_, h₃) = >>-eq-ok _ _ h₂ in
      absorb_shares-signatures i key keys proofs shares (keep_share scan share proof held) _ after
        lines' h₃
      ∙ keep_share-signatures scan share proof held

  absorb_inputs-signatures :
      (i : ℕ) (keys : List Bytes) (incoming state : List Input) (lines : List Line)
      (after : List Input) (lines' : List Line)
      → absorb_inputs b i keys incoming state lines ≡ ok (after, lines')
      → map signatures after ≡ map signatures state
  unfolding absorb_inputs
  absorb_inputs-signatures i keys [] state lines after lines' h = ground arith
  absorb_inputs-signatures i keys (arrived ∷ incoming) [] lines after lines' h = cc
  absorb_inputs-signatures i keys (arrived ∷ incoming) (held ∷ state) lines after lines' h =
      let (_, h₁) = >>-eq-ok _ _ h in
      let (key, _, h₂) = >>=-eq-ok _ _ h₁ in
      let (here, e, h₃) = >>=-eq-ok _ _ h₂ in
      let (_, h₄) = >>-eq-ok _ _ h₃ in
      let (rest, e', h₅) = >>=-eq-ok _ _ h₄ in
      let one =
        absorb_shares-signatures i key keys arrived.sp_dleq_proofs arrived.sp_ecdh_shares held lines
          here.0 here.1 e in
      let others = absorb_inputs-signatures (suc i) keys incoming state here.1 rest.0 rest.1 e' in
      let whole : here.0 ∷ rest.0 ≡ after = ground arith in
      ap (map signatures) (sym whole)
      ∙ ap (λ x. x ∷ map signatures rest.0) one
      ∙ ap (◌∷◌ (signatures held)) others

  -- In a state that `absorb` returns, each input carries the signatures that it carried before, or
  -- a signature that verifies for the transaction of the new state; and what a signer's answer
  -- adds is on this wallet's own inputs only.
  pub absorb-SignedBy :
      (state incoming : Psbt) (source : Source) (mine : List ℕ) (after : Psbt) (lines : List Line)
      (i : ℕ)
      → absorb b state incoming source mine ≡ ok (after, lines)
      → (get_elem? (map signatures after.inputs) i ≡ get_elem? (map signatures state.inputs) i)
        ⊎ SignedBy source mine after i
  absorb-SignedBy state incoming source mine after lines i h =
      let a = absorb-Absorbed b state incoming source mine after lines h in
      let before : map signatures a.scripted.0.inputs ≡ map signatures state.inputs =
        ap (map signatures) (
          sym (
            absorb_scripts-inputs a.derived incoming a.named (record state { inputs = a.shared.0 })
              a.shared.1 a.scripted.0 a.scripted.1 a.scripts_absorbed))
        ∙ absorb_inputs-signatures 0 _ incoming.inputs state.inputs _ a.shared.0 a.shared.1
            a.shares_absorbed in
      elim (absorb_signed-SignedBy incoming source mine _ a.scripted.0 a.scripted.1 after lines i
        (signed_from-carries [] incoming.inputs) a.signatures_absorbed) [
          | inr new ↦ inr new
          | inl kept ↦ inl (
              get_elem?-map signatures after.inputs i
              ∙ ap (Option.map signatures) kept
              ∙ sym (get_elem?-map signatures a.scripted.0.inputs i)
              ∙ ap (λ is. get_elem? is i) before)
        ]
