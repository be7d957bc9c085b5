-- ===== src/Shared/Absorb/View.antt =====
-- The scripts and signatures that `absorb` adds do not change what the share checks read, so the
-- checks that it made while taking in the shares still hold of its result.
use kiss_bdk.Shared.Signatures.{signed_from}
use kiss_bdk.Shared.Shares.{Recipient, Shares, check_shares, recipients}
use kiss_bdk.Shared.View.{share_view, unsigned_input, without_script}
use kiss_bdk.Shared.Scripts.{Scripts, derive_scripts}
use kiss_bdk.Psbt.{Psbt, Transaction, Input}
use kiss_bdk.Bitcoin.{Bitcoin}
use kiss_bdk.Shared.Absorb.{
  set_script, absorb_script, absorb_scripts, Psbt, Scripts, absorb_signature, absorb_signatures,
  absorb_signed, absorb, Line, Recipient, Source, with_signature, same_skeleton, check_shares,
  derive_scripts, recipients, signed_from, absorb_inputs,
}
use kiss_bdk.Common.{
  ℕ, refl, ◌≡◌, ap, ◌∙◌, inl, inr, some, none, Option, ok, List, [], ◌∷◌, map, arith, ◌>>◌, Bytes,
  Option-cases, >>=-eq-ok, >>-eq-ok, get_elem?, map-set, or_fail-eq-ok,
}

set_script-view :
    (i : ℕ) (script : Bytes) (psbt : Psbt) → share_view (set_script i script psbt) ≡ share_view psbt
unfolding set_script
set_script-view i script psbt = elim (Option-cases (get_elem? psbt.outputs i)) [
  | inl e ↦ rw (e, set_script)
  | inr (out, e) ↦
      rw (e, set_script)
        (ap (λ os. record psbt { inputs = map unsigned_input psbt.inputs; outputs = os })
          (map-set without_script psbt.outputs i out _ e refl))
]

absorb_script-view :
    (i : ℕ) (sent held : Bytes) (d : Option Bytes) (next : Psbt) (lines : List Line) (after : Psbt)
    (lines' : List Line)
    → absorb_script i sent held d next lines ≡ ok (after, lines')
    → share_view after ≡ share_view next
unfolding absorb_script ◌>>◌
absorb_script-view i sent held none next lines after lines' h = ground arith
absorb_script-view i sent held (some script) next lines after lines' h =
    ground (arith, set_script-view i script next)

pub absorb_scripts-view :
    (derived : Scripts) (incoming : Psbt) (rs : List Recipient) (next : Psbt) (lines : List Line)
    (after : Psbt) (lines' : List Line)
    → absorb_scripts derived incoming rs next lines ≡ ok (after, lines')
    → share_view after ≡ share_view next
unfolding absorb_scripts
absorb_scripts-view derived incoming [] next lines after lines' h = ground arith
absorb_scripts-view derived incoming (r ∷ rs) next lines after lines' h =
    let (sent, _, h₁) = >>=-eq-ok _ _ h in
    let (held, g, h₂) = >>=-eq-ok _ _ h₁ in
    let ((mid, lines₁), here, h₃) = >>=-eq-ok _ _ h₂ in
    absorb_scripts-view derived incoming rs mid lines₁ after lines' h₃
    ∙ absorb_script-view r.output sent.script_pubkey held.script_pubkey _ next lines mid lines₁ here

-- What `absorb` runs on, step by step, when it succeeds.
pub record Absorbed (b : Bitcoin) (state incoming : Psbt) (source : Source) (mine : List ℕ)
    (after : Psbt) (lines : List Line) : Type 0 where
  pub shared : List Input × List Line
  pub shares : Shares
  pub derived : Scripts
  pub named : List Recipient
  pub scripted : Psbt × List Line
  pub inputs_checked : same_skeleton state incoming ≡ ok tt
  pub keys : List Bytes
  pub first : List Line
  pub shares_absorbed : absorb_inputs b 0 keys incoming.inputs state.inputs first ≡ ok shared
  pub shares_checked : check_shares b (record state { inputs = shared.0 }) ≡ ok shares
  pub scripts_derived : derive_scripts b (record state { inputs = shared.0 }) shares ≡ ok derived
  pub recipients_read : recipients b (record state { inputs = shared.0 }) ≡ ok named
  pub scripts_absorbed :
      absorb_scripts derived incoming named (record state { inputs = shared.0 }) shared.1
      ≡ ok scripted
  pub signatures_absorbed :
      absorb_signed b incoming source mine (signed_from 0 incoming.inputs) scripted.0 scripted.1
      ≡ ok (after, lines)

module _ (b : Bitcoin) where
  pub absorb_signature-view :
      (incoming : Psbt) (tx : Transaction) (source : Source) (mine : List ℕ) (i : ℕ)
      (next after : Psbt)
      → absorb_signature b incoming tx source mine i next ≡ ok after
      → share_view after ≡ share_view next
  unfolding absorb_signature with_signature
  absorb_signature-view incoming tx source mine i next after h =
      let (_, h₁) = >>-eq-ok _ _ h in
      let (arrived, _, h₂) = >>=-eq-ok _ _ h₁ in
      let (held, g, h₃) = >>=-eq-ok _ _ h₂ in
      let (_, _, h₄) = >>=-eq-ok _ _ h₃ in
      let same_inputs =
        map-set unsigned_input next.inputs i held (with_signature arrived held)
          (or_fail-eq-ok _ _ g) refl in
      ground (arith, same_inputs)

  pub absorb_signatures-view :
      (incoming : Psbt) (tx : Transaction) (source : Source) (mine signed : List ℕ) (next : Psbt)
      (lines : List Line) (after : Psbt) (lines' : List Line)
      → absorb_signatures b incoming tx source mine signed next lines ≡ ok (after, lines')
      → share_view after ≡ share_view next
  unfolding absorb_signatures
  absorb_signatures-view incoming tx source mine [] next lines after lines' h = ground arith
  absorb_signatures-view incoming tx source mine (i ∷ signed) next lines after lines' h =
      let (mid, here, h₁) = >>=-eq-ok _ _ h in
      absorb_signatures-view incoming tx source mine signed mid _ after lines' h₁
      ∙ absorb_signature-view incoming tx source mine i next mid here

  pub absorb_signed-view :
      (incoming : Psbt) (source : Source) (mine signed : List ℕ) (next : Psbt) (lines : List Line)
      (after : Psbt) (lines' : List Line)
      → absorb_signed b incoming source mine signed next lines ≡ ok (after, lines')
      → share_view after ≡ share_view next
  unfolding absorb_signed
  absorb_signed-view incoming source mine [] next lines after lines' h = ground arith
  absorb_signed-view incoming source mine (i ∷ signed) next lines after lines' h =
      let (tx, _, h₁) = >>=-eq-ok _ _ h in
      absorb_signatures-view incoming tx source mine (i ∷ signed) next lines after lines' h₁

  pub absorb-Absorbed :
      (state incoming : Psbt) (source : Source) (mine : List ℕ) (after : Psbt) (lines : List Line)
      → absorb b state incoming source mine ≡ ok (after, lines)
      → Absorbed b state incoming source mine after lines
  unfolding absorb
  absorb-Absorbed state incoming source mine after lines h =
      let (_, h₁) = >>-eq-ok _ _ h in
      let (checked, h₂) = >>-eq-ok _ _ h₁ in
      let (_, h₃) = >>-eq-ok _ _ h₂ in
      let (rs, _, h₄) = >>=-eq-ok _ _ h₃ in
      let (shared, e, h₅) = >>=-eq-ok _ _ h₄ in
      let (shares, c, h₆) = >>=-eq-ok _ _ h₅ in
      let (derived, d, h₇) = >>=-eq-ok _ _ h₆ in
      let (rs', found, h₈) = >>=-eq-ok _ _ h₇ in
      let (scripted, s, h₉) = >>=-eq-ok _ _ h₈ in
      record {
        shared = shared;
        shares = shares;
        derived = derived;
        named = rs';
        scripted = scripted;
        inputs_checked = checked;
        keys = _;
        first = _;
        shares_absorbed = e;
        shares_checked = c;
        scripts_derived = d;
        recipients_read = found;
        scripts_absorbed = s;
        signatures_absorbed = h₉;
      }
