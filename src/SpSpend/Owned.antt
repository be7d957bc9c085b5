-- ===== src/SpSpend/Owned.antt =====
-- A signature that passes is of the key that owns the coin that the input spends.
use kiss_bdk.SpSpend.Laws.{AllSigned, verify_each-AllSigned}
use kiss_bdk.Bitcoin.{Bitcoin}
use kiss_bdk.Psbt.{OutPoint, TxIn, OutPoint-discrete, V0Psbt, V0Input, TxOut}
use kiss_bdk.SpSpend.{
  SpCoin, coin_at, found_inputs, verify_signatures, Bitcoin, sp_inputs, found_at, witness_prevouts,
}
use kiss_bdk.Common.{
  ℕ, suc, Bytes, Option, none, some, List, [], ◌∷◌, if◌then◌else◌, ◌+◌, ◌≡◌, refl, sym, ap, ◌∙◌,
  subst, inl, inr, ◌⊎◌, Option-cases, arith, All, get_elem?, holds, ok, length, >>=-eq-ok, >>-eq-ok,
  ok-injective, ==_iff, guard-eq-ok, map, ◌<◌, ◌≤◌, or_fail-eq-ok,
}

abbrev pub In : SpCoin → List SpCoin → Type 0
In coin [] = ⊥
In coin (x ∷ coins) = (x ≡ coin) ⊎ In coin coins

some-injective : {A : Type 0} {x y : A} → ◌≡◌ {A = Option A} (some x) (some y) → x ≡ y
some-injective h = cc

coin_at-In :
    (o : OutPoint) (coins : List SpCoin) {coin : SpCoin}
    → coin_at o coins ≡ some coin
    → (coin.outpoint ≡ o) × In coin coins
unfolding coin_at
coin_at-In o [] h = cc
coin_at-In o (x ∷ coins) {coin = coin} h = elim (Option-cases (coin_at o coins)) [
  | inr (later, e) ↦
      let k = some-injective (rw e at h) in
      let (here, found) = coin_at-In o coins e in
      (ap (λ c. c.outpoint) (sym k) ∙ here, inr (subst (λ c. In c coins) k found))
  | inl e ↦ let k = rw e at h in by_test (OutPoint-discrete x.outpoint o) k
]
  where
    by_test :
        (d : Dec (x.outpoint ≡ o))
        → (if holds d then some x else none) ≡ some coin
        → (coin.outpoint ≡ o) × In coin (x ∷ coins)
    by_test (yes e) k =
        let same_coin = some-injective k in
        (ap (λ c. c.outpoint) (sym same_coin) ∙ e, inl same_coin)
    by_test (no n) k = absurd cc

-- An entry names an input that spends one of the coins, and the coin's key.
abbrev pub Spends : List TxIn → List SpCoin → ℕ × Bytes → Type 0
Spends txins coins entry =
    (coin : SpCoin) × (txin : TxIn) × In coin coins
    × (get_elem? txins entry.0 ≡ some txin)
    × (coin.outpoint ≡ txin.previous_output)
    × (coin.output_key ≡ entry.1)

-- The same with the positions counted from `i`.
SpendsFrom : ℕ → List TxIn → List SpCoin → ℕ × Bytes → Type 0
SpendsFrom i txins coins entry = (k : ℕ) × (entry.0 ≡ i + k) × Spends txins coins (k, entry.1)

later_entry :
    (i : ℕ) (txin : TxIn) (txins : List TxIn) (coins : List SpCoin) (entries : List (ℕ × Bytes))
    → All (SpendsFrom (suc i) txins coins) entries
    → All (SpendsFrom i (txin ∷ txins) coins) entries
unfolding SpendsFrom
later_entry i txin txins coins [] a = tt
later_entry i txin txins coins (entry ∷ entries) ((k, n, s), a) =
    ((suc k, omega arith, s), later_entry i txin txins coins entries a)

found_at-Spends :
    (i : ℕ) (txin : TxIn) (txins : List TxIn) (coins : List SpCoin) (found : Option SpCoin)
    (rest : List (ℕ × Bytes))
    → coin_at txin.previous_output coins ≡ found
    → All (SpendsFrom (suc i) txins coins) rest
    → All (SpendsFrom i (txin ∷ txins) coins) (found_at i found rest)
unfolding SpendsFrom
found_at-Spends i txin txins coins none rest e a = later_entry i txin txins coins rest a
found_at-Spends i txin txins coins (some coin) rest e a =
    let (there, found) = coin_at-In txin.previous_output coins e in
    (
      (0, omega arith, (coin, txin, found, refl, there, refl)),
      later_entry i txin txins coins rest a,
    )

found_inputs-Spends :
    (i : ℕ) (txins : List TxIn) (coins : List SpCoin)
    → All (SpendsFrom i txins coins) (found_inputs i txins coins)
unfolding found_inputs
found_inputs-Spends i [] coins = tt
found_inputs-Spends i (txin ∷ txins) coins =
    found_at-Spends i txin txins coins _ _ refl (found_inputs-Spends (suc i) txins coins)

from_start :
    (txins : List TxIn) (coins : List SpCoin) (entries : List (ℕ × Bytes))
    → All (SpendsFrom 0 txins coins) entries
    → All (Spends txins coins) entries
unfolding SpendsFrom
from_start txins coins [] a = tt
from_start txins coins (entry ∷ entries) ((k, n, (coin, txin, found, at, there, key)), a) =
    let here : k ≡ entry.0 = omega arith in
    (
      (coin, txin, found, subst (λ j. get_elem? txins j ≡ some txin) here at, there, key),
      from_start txins coins entries a,
    )

-- The positions rise, so no input is named twice.
abbrev pub Rises : List (ℕ × Bytes) → Type 0
Rises [] = Unit {0}
Rises (entry ∷ entries) = All (λ later. entry.0 < later.0) entries × Rises entries

abbrev From : ℕ → List (ℕ × Bytes) → Type 0
From i entries = All (λ later. i ≤ later.0) entries

From-weaken : (i : ℕ) (entries : List (ℕ × Bytes)) → From (suc i) entries → From i entries
From-weaken i [] a = tt
From-weaken i (entry ∷ entries) a = (omega arith, From-weaken i entries a.1)

found_at-Rises :
    (i : ℕ) (found : Option SpCoin) (rest : List (ℕ × Bytes))
    → From (suc i) rest
    → Rises rest
    → From i (found_at i found rest) × Rises (found_at i found rest)
found_at-Rises i none rest a r = (From-weaken i rest a, r)
found_at-Rises i (some coin) rest a r = ((omega arith, From-weaken i rest a), (a, r))

found_inputs-Rises :
    (i : ℕ) (txins : List TxIn) (coins : List SpCoin)
    → From i (found_inputs i txins coins) × Rises (found_inputs i txins coins)
unfolding found_inputs
found_inputs-Rises i [] coins = (tt, tt)
found_inputs-Rises i (txin ∷ txins) coins =
    let (a, r) = found_inputs-Rises (suc i) txins coins in found_at-Rises i _ _ a r

-- The outputs that the inputs spend, one for each input in the inputs' order.
abbrev pub AreSpent : List V0Input → List TxOut → Type 0
AreSpent inputs prevouts = map (λ (input : V0Input). input.witness_utxo) inputs ≡ map some prevouts

witness_prevouts-AreSpent :
    (i : ℕ) (inputs : List V0Input) {prevouts : List TxOut}
    → witness_prevouts i inputs ≡ ok prevouts
    → AreSpent inputs prevouts
unfolding witness_prevouts
witness_prevouts-AreSpent i [] h = subst (AreSpent []) (ok-injective h) refl
witness_prevouts-AreSpent i (input ∷ inputs) h =
    let (utxo, u, h₁) = >>=-eq-ok _ _ h in
    let (rest, r, e) = >>=-eq-ok _ _ h₁ in
    let here = or_fail-eq-ok _ _ u in
    let there = witness_prevouts-AreSpent (suc i) inputs r in
    subst (AreSpent (input ∷ inputs)) (ok-injective e) cc

-- Each entry's input is signed by the entry's key, over the outputs that all inputs spend.
abbrev pub AllVerified : Bitcoin → V0Psbt → List (ℕ × Bytes) → Type 0
AllVerified b psbt sp =
    (prevouts : List TxOut) × AreSpent psbt.inputs prevouts
    × AllSigned b psbt.unsigned_tx psbt.inputs prevouts sp

signed_all :
    (b : Bitcoin) (psbt : V0Psbt) (sp : List (ℕ × Bytes))
    → verify_signatures b psbt sp ≡ ok tt
    → (sp ≡ []) ⊎ AllVerified b psbt sp
unfolding verify_signatures
signed_all b psbt [] v = inl refl
signed_all b psbt (first ∷ sp) v =
    let (prevouts, p, h) = >>=-eq-ok _ _ v in
    inr (
      prevouts,
      witness_prevouts-AreSpent 0 psbt.inputs p,
      verify_each-AllSigned b psbt.unsigned_tx psbt.inputs prevouts (first ∷ sp) h,
    )

module _ (b : Bitcoin) where
  -- When the selected coins are found among the inputs and the signatures pass: there are as many
  -- entries as coins, of different inputs in rising order; each entry's input spends a selected coin,
  -- and its key is the coin's; and if there is an entry at all, every input has a witness UTXO, and each
  -- entry's input has a signature that verifies for the entry's key, with a sighash over the whole
  -- transaction and the witness UTXOs of all inputs.
  pub verify_signatures-Owned :
      (psbt : V0Psbt) (coins : List SpCoin) (sp : List (ℕ × Bytes))
      → sp_inputs psbt coins ≡ ok sp
      → verify_signatures b psbt sp ≡ ok tt
      → (length sp ≡ length coins)
        × Rises sp
        × All (Spends psbt.unsigned_tx.input coins) sp
        × ((sp ≡ []) ⊎ AllVerified b psbt sp)
  unfolding sp_inputs
  verify_signatures-Owned psbt coins sp h v =
      let (g, e) = >>-eq-ok _ _ h in
      let same_list = ok-injective e in
      (
        ap length (sym same_list) ∙ (==_iff _ _).0 (guard-eq-ok _ _ g),
        subst Rises same_list (found_inputs-Rises 0 psbt.unsigned_tx.input coins).1,
        subst (All (Spends psbt.unsigned_tx.input coins)) same_list (
            from_start psbt.unsigned_tx.input coins _
              (found_inputs-Spends 0 psbt.unsigned_tx.input coins)),
        signed_all b psbt sp v,
      )
