-- ===== src/Shared/Absorb/Sound.antt =====
-- What a state that `absorb` returns holds: proved shares, and the scripts that they derive.
use kiss_bdk.Shared.View.{share_view, check_shares-view, derive_scripts-view, recipients-view}
use kiss_bdk.Shared.Absorb.View.{absorb-Absorbed, absorb_signed-view, absorb_scripts-view}
use kiss_bdk.Shared.Proved.{AllProved, check_shares-AllProved}
use kiss_bdk.Bitcoin.{Bitcoin}
use kiss_bdk.Shared.Shares.{Recipient, Shares, check_shares, recipients}
use kiss_bdk.Shared.Scripts.{Scripts, script_at, derive_scripts}
use kiss_bdk.Shared.Absorb.{
  set_script, absorb_script, Line, absorb_scripts, Scripts, Recipient, script_at, Bitcoin,
  absorb_signatures, absorb_signed, Source, absorb_signature, check_shares, absorb, derive_scripts,
  recipients,
}
use kiss_bdk.Psbt.{Output, Psbt, Transaction}
use kiss_bdk.Common.{
  ℕ, refl, ◌≡◌, ap, ◌∙◌, subst, inl, inr, some, none, Option, ok, List, [], ◌∷◌, arith, ◌>>◌, Bytes,
  ◌⊎◌, ◌≢◌, get_elem?, get_elem?-set_self, get_elem?-set_ne, ℕ_discrete, All, >>=-eq-ok,
  or_fail-eq-ok, >>-eq-ok, sym,
}

-- The output at this position has this script.
abbrev pub HasScript : List Output → ℕ → Bytes → Type 0
HasScript outs i script = (o : Output) × (get_elem? outs i ≡ some o) × (o.script_pubkey ≡ script)

set_script-HasScript_self :
    (i : ℕ) (script : Bytes) (psbt : Psbt) (out : Output)
    → get_elem? psbt.outputs i ≡ some out
    → HasScript (set_script i script psbt).outputs i script
unfolding set_script
set_script-HasScript_self i script psbt out g =
    rw (g, set_script)
      (record out { script_pubkey = script }, get_elem?-set_self psbt.outputs i out _ g, refl)

set_script-HasScript_ne :
    (i j : ℕ) (script other : Bytes) (psbt : Psbt) (out : Output)
    → get_elem? psbt.outputs i ≡ some out
    → i ≢ j
    → HasScript psbt.outputs j other
    → HasScript (set_script i script psbt).outputs j other
unfolding set_script
set_script-HasScript_ne i j script other psbt out g ne (o, at, e) =
    rw (g, set_script) (o, get_elem?-set_ne psbt.outputs i j _ ne ∙ at, e)

-- A step with a derived script writes it where there was none, or found it there.
absorb_script-cases :
    (i : ℕ) (sent held script : Bytes) (next : Psbt) (lines : List Line) (after : Psbt)
    (lines' : List Line)
    → absorb_script i sent held (some script) next lines ≡ ok (after, lines')
    → (set_script i script next ≡ after) ⊎ ((next ≡ after) × (held ≡ script))
unfolding absorb_script ◌>>◌
absorb_script-cases i sent held script next lines after lines' h = ground arith

absorb_script-HasScript :
    (i : ℕ) (sent : Bytes) (held : Output) (script : Bytes) (next : Psbt) (lines : List Line)
    (after : Psbt) (lines' : List Line)
    → get_elem? next.outputs i ≡ some held
    → absorb_script i sent held.script_pubkey (some script) next lines ≡ ok (after, lines')
    → HasScript after.outputs i script
absorb_script-HasScript i sent held script next lines after lines' g h =
    elim (absorb_script-cases i sent held.script_pubkey script next lines after lines' h) [
      | inl e ↦
          subst (λ (p : Psbt). HasScript p.outputs i script) e
            (set_script-HasScript_self i script next held g)
      | inr (e, f) ↦ subst (λ (p : Psbt). HasScript p.outputs i script) e (held, g, f)
    ]

set_script-HasScript :
    (i j : ℕ) (other script : Bytes) (next : Psbt) (held : Output)
    → get_elem? next.outputs i ≡ some held
    → (i ≡ j → ◌≡◌ {A = Option Bytes} (some other) (some script))
    → HasScript next.outputs j script
    → HasScript (set_script i other next).outputs j script
set_script-HasScript i j other script next held g k s = elim (ℕ_discrete i j) [
  | yes e ↦
      let known : other ≡ script = cc (k e) in
      subst (λ n. HasScript (set_script i other next).outputs n script) e
        (subst (HasScript (set_script i other next).outputs i) known
          (set_script-HasScript_self i other next held g))
  | no ne ↦ set_script-HasScript_ne i j other script next held g ne s
]

-- A step leaves an output that has its derived script with that script.
absorb_script-HasScript_keep :
    (i j : ℕ) (sent : Bytes) (held : Output) (d : Option Bytes) (script : Bytes) (next : Psbt)
    (lines : List Line) (after : Psbt) (lines' : List Line)
    → get_elem? next.outputs i ≡ some held
    → (i ≡ j → d ≡ some script)
    → HasScript next.outputs j script
    → absorb_script i sent held.script_pubkey d next lines ≡ ok (after, lines')
    → HasScript after.outputs j script
unfolding absorb_script ◌>>◌
absorb_script-HasScript_keep i j sent held none script next lines after lines' g k (o, at, e) h =
    (o, ground arith, e)
absorb_script-HasScript_keep i j sent held (some other) script next lines after lines' g k s h =
    elim (absorb_script-cases i sent held.script_pubkey other next lines after lines' h) [
      | inl e ↦
          subst (λ (p : Psbt). HasScript p.outputs j script) e
            (set_script-HasScript i j other script next held g k s)
      | inr (e, f) ↦ subst (λ (p : Psbt). HasScript p.outputs j script) e s
    ]

absorb_scripts-HasScript_keep :
    (derived : Scripts) (incoming : Psbt) (rs : List Recipient) (j : ℕ) (script : Bytes)
    (next : Psbt) (lines : List Line) (after : Psbt) (lines' : List Line)
    → script_at j derived ≡ some script
    → HasScript next.outputs j script
    → absorb_scripts derived incoming rs next lines ≡ ok (after, lines')
    → HasScript after.outputs j script
unfolding absorb_scripts
absorb_scripts-HasScript_keep derived incoming [] j script next lines after lines' d s h =
    let whole : next ≡ after = ground arith in
    subst (λ (p : Psbt). HasScript p.outputs j script) whole s
absorb_scripts-HasScript_keep derived incoming (r ∷ rs) j script next lines after lines' d s h =
    let (sent, _, h₁) = >>=-eq-ok _ _ h in
    let (held, g, h₂) = >>=-eq-ok _ _ h₁ in
    let ((mid, lines₁), here, h₃) = >>=-eq-ok _ _ h₂ in
    absorb_scripts-HasScript_keep derived incoming rs j script mid lines₁ after lines' d
      (absorb_script-HasScript_keep r.output j sent.script_pubkey held _ script next lines mid
        lines₁ (or_fail-eq-ok _ _ g) (λ e. ap (λ n. script_at n derived) e ∙ d) s here)
      h₃

-- Every recipient in the list ends with the script that is derived for it, if one is.
abbrev pub Paid : Scripts → List Output → Recipient → Type 0
Paid derived outs r =
    (script : Bytes) → script_at r.output derived ≡ some script → HasScript outs r.output script

absorb_scripts-Paid :
    (derived : Scripts) (incoming : Psbt) (rs : List Recipient) (next : Psbt) (lines : List Line)
    (after : Psbt) (lines' : List Line)
    → absorb_scripts derived incoming rs next lines ≡ ok (after, lines')
    → All (Paid derived after.outputs) rs
unfolding absorb_scripts
absorb_scripts-Paid derived incoming [] next lines after lines' h = tt
absorb_scripts-Paid derived incoming (r ∷ rs) next lines after lines' h =
    let (sent, _, h₁) = >>=-eq-ok _ _ h in
    let (held, g, h₂) = >>=-eq-ok _ _ h₁ in
    let ((mid, lines₁), here, h₃) = >>=-eq-ok _ _ h₂ in
    (
      λ script d.
          absorb_scripts-HasScript_keep derived incoming rs r.output script mid lines₁ after lines'
            d
            (absorb_script-HasScript r.output sent.script_pubkey held script next lines mid lines₁
              (or_fail-eq-ok _ _ g) (rw d at here))
            h₃,
      absorb_scripts-Paid derived incoming rs mid lines₁ after lines' h₃,
    )

module _ (b : Bitcoin) where
  pub absorb_signatures-outputs :
      (incoming : Psbt) (tx : Transaction) (source : Source) (mine signed : List ℕ) (next : Psbt)
      (lines : List Line) (after : Psbt) (lines' : List Line)
      → absorb_signatures b incoming tx source mine signed next lines ≡ ok (after, lines')
      → next.outputs ≡ after.outputs
  unfolding absorb_signatures absorb_signature
  absorb_signatures-outputs incoming tx source mine [] next lines after lines' h = ground arith
  absorb_signatures-outputs incoming tx source mine (i ∷ signed) next lines after lines' h =
      let (mid, e, h₁) = >>=-eq-ok _ _ h in
      let (_, e₁) = >>-eq-ok _ _ e in
      let (arrived, _, e₂) = >>=-eq-ok _ _ e₁ in
      let (held, _, e₃) = >>=-eq-ok _ _ e₂ in
      let (_, _, e₄) = >>=-eq-ok _ _ e₃ in
      let step : next.outputs ≡ mid.outputs = ground arith in
      step ∙ absorb_signatures-outputs incoming tx source mine signed mid _ after lines' h₁

  absorb_signed-outputs :
      (incoming : Psbt) (source : Source) (mine signed : List ℕ) (next : Psbt) (lines : List Line)
      (after : Psbt) (lines' : List Line)
      → absorb_signed b incoming source mine signed next lines ≡ ok (after, lines')
      → next.outputs ≡ after.outputs
  unfolding absorb_signed
  absorb_signed-outputs incoming source mine [] next lines after lines' h = ground arith
  absorb_signed-outputs incoming source mine (i ∷ signed) next lines after lines' h =
      let (tx, _, h₁) = >>=-eq-ok _ _ h in
      absorb_signatures-outputs incoming tx source mine (i ∷ signed) next lines after lines' h₁

  -- A state whose shares are all proved, and whose silent payment outputs have the scripts that
  -- those shares derive, as far as the shares are complete.
  pub record IsSound (p : Psbt) : Type 0 where
    pub shares : Shares
    pub derived : Scripts
    pub named : List Recipient
    pub checked : check_shares b p ≡ ok shares
    pub proved : AllProved b 0 p.inputs
    pub derives : derive_scripts b p shares ≡ ok derived
    pub names : recipients b p ≡ ok named
    pub paid : All (Paid derived p.outputs) named

  -- Whatever the state was and whatever arrived, a state that `absorb` returns passes
  -- `check_shares`, each of its shares is proved for the key of its own input, and every silent
  -- payment output whose shares are complete has exactly the script that they derive.
  pub absorb-IsSound :
      (state incoming : Psbt) (source : Source) (mine : List ℕ) (after : Psbt) (lines : List Line)
      → absorb b state incoming source mine ≡ ok (after, lines)
      → IsSound after
  absorb-IsSound state incoming source mine after lines h =
      let a = absorb-Absorbed b state incoming source mine after lines h in
      let next = record state { inputs = a.shared.0 } in
      let view : share_view after ≡ share_view next =
        absorb_signed-view b incoming source mine _ a.scripted.0 a.scripted.1 after lines
          a.signatures_absorbed
        ∙ absorb_scripts-view a.derived incoming a.named next a.shared.1 a.scripted.0 a.scripted.1
            a.scripts_absorbed in
      let c =
        sym (check_shares-view b after)
        ∙ ap (check_shares b) view
        ∙ check_shares-view b next
        ∙ a.shares_checked in
      record {
        shares = a.shares;
        derived = a.derived;
        named = a.named;
        checked = c;
        proved = check_shares-AllProved b after a.shares c;
        derives =
            sym (derive_scripts-view b after a.shares)
            ∙ ap (λ p. derive_scripts b p a.shares) view
            ∙ derive_scripts-view b next a.shares
            ∙ a.scripts_derived;
        names =
            sym (recipients-view b after)
            ∙ ap (recipients b) view
            ∙ recipients-view b next
            ∙ a.recipients_read;
        paid =
            subst (λ os. All (Paid a.derived os) a.named)
              (absorb_signed-outputs incoming source mine _ a.scripted.0 a.scripted.1 after lines
                a.signatures_absorbed)
              (absorb_scripts-Paid a.derived incoming a.named next a.shared.1 a.scripted.0
                a.scripted.1 a.scripts_absorbed);
      }
