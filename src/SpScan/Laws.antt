-- ===== src/SpScan/Laws.antt =====
-- src/spscan.rs, `scan_candidate`: the transaction that is rebuilt from what a tweak stream publishes.
use kiss_bdk.SpScan.{
  TaprootOut, Scanner, SpOut, Found, Error, scanning, max_vout, blank, fill, synthetic, with_txid,
  larger, at_height, scan_candidate,
}
use kiss_bdk.SpSpend.{p2tr_script}
use kiss_bdk.Psbt.{TxOut, Transaction}
use kiss_bdk.Common.{
  ℕ, zero, suc, Bytes, Option, none, some, List, [], ◌∷◌, map, replicate, length, ◌==◌, ◌&&◌,
  if◌then◌else◌, arith, ◌≡◌, ◌<◌, All, Option-cases, refl, Result, ok, err, or_fail, ◌>>=◌, set, ap,
  inl, inr, ◌∙◌, sym, ◌≤◌, ◌≢◌,
}

-- `Script::is_p2tr`, with the output key.
abbrev pub taproot_key : Bytes → Option Bytes
taproot_key (a ∷ b ∷ key) =
    if (a == 0x51) && (b == 0x20) && (length key == 32) then some key else none
taproot_key (a ∷ []) = none
taproot_key [] = none

abbrev up : TaprootOut → TaprootOut
up out = record { vout = suc out.vout; key = out.key; amount = out.amount }

abbrev first : ℕ → Option Bytes → List TaprootOut → List TaprootOut
first value none outs = outs
first value (some key) outs = record { vout = 0; key = key; amount = value } ∷ outs

-- What a tweak stream publishes of a transaction: its taproot outputs, at their indices.
abbrev pub taproot_outs : List TxOut → List TaprootOut
taproot_outs [] = []
taproot_outs (o ∷ outputs) =
    first o.value (taproot_key o.script_pubkey) (map up (taproot_outs outputs))

abbrev shown : ℕ → Option Bytes → TxOut
shown value none = blank
shown value (some key) = record { value = value; script_pubkey = p2tr_script key }

-- The first outputs of a transaction, those that are not taproot left out.
abbrev masked : ℕ → List TxOut → List TxOut
masked zero outputs = []
masked (suc n) [] = blank ∷ masked n []
masked (suc n) (o ∷ outputs) = shown o.value (taproot_key o.script_pubkey) ∷ masked n outputs

fill-up :
    (outs : List TaprootOut) (o : TxOut) (os : List TxOut)
    → fill (map up outs) (o ∷ os) ≡ o ∷ fill outs os
fill-up [] o os = refl
fill-up (x ∷ outs) o os =
    fill-up outs o (set os x.vout (record { value = x.amount; script_pubkey = p2tr_script x.key }))

fill_nil : (outs : List TaprootOut) → fill outs [] ≡ []
fill_nil [] = refl
fill_nil (x ∷ outs) = fill_nil outs

masked_nil : (n : ℕ) → replicate n blank ≡ masked n []
masked_nil zero = refl
masked_nil (suc n) = ap (◌∷◌ blank) (masked_nil n)

fill-first :
    (value : ℕ) (k : Option Bytes) (outs : List TaprootOut) (os : List TxOut)
    → fill (first value k (map up outs)) (blank ∷ os) ≡ shown value k ∷ fill outs os
fill-first value none outs os = fill-up outs blank os
fill-first value (some key) outs os = fill-up outs (shown value (some key)) os

fill-taproot_outs :
    (outputs : List TxOut) (n : ℕ)
    → fill (taproot_outs outputs) (replicate n blank) ≡ masked n outputs
fill-taproot_outs outputs zero = fill_nil (taproot_outs outputs)
fill-taproot_outs [] (suc n) = masked_nil (suc n)
fill-taproot_outs (o ∷ outputs) (suc n) =
    fill-first o.value (taproot_key o.script_pubkey) (taproot_outs outputs) (replicate n blank)
    ∙ ap (◌∷◌ (shown o.value (taproot_key o.script_pubkey))) (fill-taproot_outs outputs n)

abbrev Below : ℕ → List TaprootOut → Type 0
Below n outs = All (λ o. o.vout < n) outs

Below-up : (n : ℕ) (outs : List TaprootOut) → Below (suc n) (map up outs) → Below n outs
Below-up n [] h = tt
Below-up n (x ∷ outs) h = (omega arith, Below-up n outs h.1)

Below-zero : (outs : List TaprootOut) → Below 0 outs → outs ≡ []
Below-zero [] h = refl
Below-zero (x ∷ outs) h = absurd (omega arith)

Below-first :
    (n value : ℕ) (k : Option Bytes) (outs : List TaprootOut)
    → Below n (first value k outs)
    → Below n outs
Below-first n value none outs h = h
Below-first n value (some key) outs h = h.1

taproot_key_key : (script key : Bytes) → taproot_key script ≡ some key → length key ≡ 32
taproot_key_key [] key h = cc
taproot_key_key (a ∷ []) key h = cc
taproot_key_key (a ∷ b ∷ rest) key h = ground arith

-- What is shown of an output has the taproot key of the output.
taproot_key-shown :
    (value : ℕ) (script : Bytes) (outs : List TaprootOut)
    → first
        (shown value (taproot_key script)).value
        (taproot_key (shown value (taproot_key script)).script_pubkey)
        outs
      ≡ first value (taproot_key script) outs
taproot_key-shown value script outs = elim (Option-cases (taproot_key script)) [
  | inl e ↦ rw e refl
  | inr (key, e) ↦ rw (e, taproot_key_key script key e) refl
]

taproot_outs-masked_nil : (n : ℕ) → taproot_outs (masked n []) ≡ []
taproot_outs-masked_nil zero = refl
taproot_outs-masked_nil (suc n) = ap (map up) (taproot_outs-masked_nil n)

taproot_outs-masked :
    (outputs : List TxOut) (n : ℕ)
    → Below n (taproot_outs outputs)
    → taproot_outs (masked n outputs) ≡ taproot_outs outputs
taproot_outs-masked [] n h = taproot_outs-masked_nil n
taproot_outs-masked (o ∷ outputs) zero h = sym (Below-zero (taproot_outs (o ∷ outputs)) h)
taproot_outs-masked (o ∷ outputs) (suc n) h =
    rw
      (taproot_outs-masked outputs n (
        Below-up n (taproot_outs outputs) (
          Below-first (suc n) o.value (taproot_key o.script_pubkey) (map up (taproot_outs outputs))
            h)))
      (taproot_key-shown o.value o.script_pubkey (map up (taproot_outs outputs)))

Below-weaken : (n m : ℕ) (outs : List TaprootOut) → n ≤ m → Below n outs → Below m outs
Below-weaken n m [] h b = tt
Below-weaken n m (x ∷ outs) h b = (omega arith, Below-weaken n m outs h b.1)

none-Below : (n : ℕ) (outs : List TaprootOut) → max_vout outs ≡ none → Below n outs
none-Below n [] e = tt
none-Below n (x ∷ outs) e = cc

larger-Below :
    (i width : ℕ) (m : Option ℕ)
    → ◌≡◌ {A = Option ℕ} (some (larger i m)) (some width)
    → (i < suc width) × ((w : ℕ) → m ≡ some w → suc w ≤ suc width)
larger-Below i width none h = (ground arith, λ w e. cc)
larger-Below i width (some j) h = (ground arith, λ w e. ground arith)

max_vout-Below :
    (outs : List TaprootOut) (width : ℕ) → max_vout outs ≡ some width → Below (suc width) outs
max_vout-Below [] width h = tt
max_vout-Below (x ∷ outs) width h =
    let bound = larger-Below x.vout width (max_vout outs) h in
    (
      bound.0,
      elim (Option-cases (max_vout outs)) [
        | inl e ↦ none-Below (suc width) outs e
        | inr (w, e) ↦ Below-weaken (suc w) (suc width) outs (bound.1 w e) (max_vout-Below outs w e)
      ],
    )

-- The outputs that are rebuilt from the taproot outputs of a transaction have just those taproot
-- outputs, at the same indices.
pub taproot_outs-synthetic :
    (outputs : List TxOut) (width : ℕ)
    → max_vout (taproot_outs outputs) ≡ some width
    → taproot_outs (synthetic (taproot_outs outputs) width).output ≡ taproot_outs outputs
taproot_outs-synthetic outputs width h =
    ap taproot_outs (fill-taproot_outs outputs (suc width))
    ∙ taproot_outs-masked outputs (suc width) (max_vout-Below (taproot_outs outputs) width h)

-- What a scan of a transaction finds under a transaction id, at a height.
abbrev pub found_under : Bytes → ℕ → Option (List SpOut) → Result Error (List Found)
found_under txid height none = err scanning
found_under txid height (some outs) = ok (map (λ out. at_height height (with_txid txid out)) outs)

-- If what a scan finds under an id depends on the taproot outputs of a transaction alone, scanning the
-- candidate that lists the taproot outputs of a transaction, of which there is one at least, finds
-- what scanning the whole transaction with the same tweak finds, under the published id.
pub scan_candidate-scan_txouts :
    (scanner : Scanner)
    → ((txid shared : Bytes) (height : ℕ) (t u : Transaction)
        → taproot_outs t.output ≡ taproot_outs u.output
        → found_under txid height (scanner.scan_txouts t shared)
          ≡ found_under txid height (scanner.scan_txouts u shared))
    → (tx : Transaction) (txid tweak : Bytes) (height : ℕ) → taproot_outs tx.output ≢ []
    → scan_candidate scanner
        (record { txid = txid; tweak = tweak; outputs = taproot_outs tx.output })
        height
      ≡ found_under txid height (scanner.scan_txouts tx (scanner.shared_secret tweak))
unfolding scan_candidate ◌>>=◌
scan_candidate-scan_txouts scanner reads tx txid tweak height some_output =
    elim (Option-cases (max_vout (taproot_outs tx.output))) [
      | inl e ↦ absurd (some_output (empty (taproot_outs tx.output) e))
      | inr (width, e) ↦
          rw (scan_candidate, e)
            (opened (
                scanner.scan_txouts (synthetic (taproot_outs tx.output) width)
                  (scanner.shared_secret tweak))
              ∙ reads txid (scanner.shared_secret tweak) height
                  (synthetic (taproot_outs tx.output) width) tx
                  (taproot_outs-synthetic tx.output width e))
    ]
  where
    empty : (outs : List TaprootOut) → max_vout outs ≡ none → outs ≡ []
    empty [] e = refl
    empty (x ∷ outs) e = cc

    opened :
        (found : Option (List SpOut))
        → (or_fail found scanning
            >>= (λ outs. ok (map (λ out. at_height height (with_txid txid out)) outs)))
          ≡ found_under txid height found
    opened none = refl
    opened (some outs) = refl
