-- ===== src/SpSend/Placeholder.antt =====
-- src/spsend.rs: which of the outputs that BDK shuffled stand for a silent payment.
pub mod Laws
use kiss_bdk.Psbt.{TxOut, Transaction}
use kiss_bdk.Bitcoin.{Bitcoin}
use kiss_bdk.Sp.{SilentPaymentAddress}
use kiss_bdk.Common.{
  ℕ, zero, suc, refl, ◌≡◌, sym, ap, ◌∙◌, subst, inl, inr, some, none, Option, ok, err, Result, true,
  false, Bool, List, [], ◌∷◌, ◌++◌, map, arith, ◌>>=◌, ◌>>◌, Bytes, ◌+◌, ◌≤◌, ◌<◌, ◌⊎◌, ◌≢◌,
  if◌then◌else◌, or_fail, replicate, not, same, set, length, ◌&&◌,
}

pub data Error : Type 0 where
  missing_placeholder : Error

-- An output whose script the signer derives, and the address it must reach.
pub record SpOutput : Type 0 where
  pub index : ℕ
  pub recipient : SilentPaymentAddress

-- The first output from `i` on that carries the placeholder and is not claimed.
unfoldable pub find_unclaimed : Bytes → ℕ → List Bool → List TxOut → Option ℕ
find_unclaimed placeholder i (claimed ∷ marks) (out ∷ outputs) =
    if not claimed && same out.script_pubkey placeholder
    then some i
    else find_unclaimed placeholder (suc i) marks outputs
find_unclaimed placeholder i _ _ = none

unfoldable pub count_script : Bytes → List TxOut → ℕ
count_script placeholder [] = 0
count_script placeholder (out ∷ outputs) =
    (if same out.script_pubkey placeholder then 1 else 0) + count_script placeholder outputs

module _ (b : Bitcoin) where
  -- The P2TR script of the recipient's spend key.
  unfoldable pub placeholder_script : SilentPaymentAddress → Bytes
  placeholder_script recipient = 0x51 ∷ 0x20 ∷ b.x_only recipient.spend

  -- How many outputs carry this recipient's placeholder.
  unfoldable pub placeholder_count : Transaction → SilentPaymentAddress → ℕ
  placeholder_count tx recipient = count_script (placeholder_script recipient) tx.output

  -- The loop over the recipients, with what is claimed before.
  unfoldable pub resolve_from :
      List TxOut → List Bool → List SilentPaymentAddress → Result Error (List SpOutput)
  resolve_from outputs claimed [] = ok []
  resolve_from outputs claimed (recipient ∷ recipients) = do
    index ←
        or_fail (find_unclaimed (placeholder_script recipient) 0 claimed outputs)
          missing_placeholder
    rest ← resolve_from outputs (set claimed index true) recipients
    ok (record { index = index; recipient = recipient } ∷ rest)

  -- Match every recipient to the output that holds its placeholder.
  unfoldable pub resolve_sp_outputs :
      Transaction → List SilentPaymentAddress → Result Error (List SpOutput)
  resolve_sp_outputs tx recipients =
      resolve_from tx.output (replicate (length tx.output) false) recipients

  unfoldable pub placeholder_index : Transaction → SilentPaymentAddress → Result Error ℕ
  placeholder_index tx recipient = do
    resolved ← resolve_sp_outputs tx (recipient ∷ [])
    elim resolved [ [] ↦ err missing_placeholder | found ∷ rest ↦ ok found.index ]
