-- ===== src/SharedFlow/Step/Joining.antt =====
-- src/sharedflow.rs, `join` and `Terms::refuse`: when a proposal is joined, and when it is refused.
use kiss_bdk.SharedFlow.Run.{FlowError, Links, World, ◌>>=◌, and_then, answered, wallet, Saved}
use kiss_bdk.SharedFlow.Start.{
  Terms, NotJoined, refused_by, failed, join_proposal, checked_proposal, refuse_terms, funding,
  joining, fund, same_address,
}
use kiss_bdk.Psbt.{Psbt, V0Psbt}
use kiss_bdk.Bitcoin.{Bitcoin}
use kiss_bdk.Sp.{SilentPaymentAddress}
use kiss_bdk.Sp.Address
use kiss_bdk.Sp.Address.{AddressText}
use kiss_bdk.Shared.Error.{Error}
use kiss_bdk.Shared.Message.{Message}
use kiss_bdk.Shared.Terms.{share_of, join}
use kiss_bdk.Shared.Wire.{Wire}
use kiss_bdk.Shared.Proposal.{Proposal, read_proposal}
use kiss_bdk.Shared.Session.{Session}
use kiss_bdk.Shared.Session.Start.{join_session}
use kiss_bdk.Common.{
  ℕ, Bytes, Option, none, some, Result, ok, err, Bool, true, false, ◌≡◌, refl, sym, ap, ◌∙◌, subst,
  inl, inr, Result-cases, Bool-cases, ok-injective, same-≡, &&-true, holds_of, ==_iff,
  Bytes-discrete, ◌/◌, ◌==◌, not,
}

-- A proposal says what the joining wallet insists on: its address reads as the wallet's, and its
-- amount is the wallet's.
abbrev pub Meets : Bitcoin → AddressText → Terms → Proposal → Type 0
Meets b text terms agreed = PaysTo terms.to × Says terms.sats
  where
    PaysTo : Option Bytes → Type 0
    PaysTo none = Unit {0}
    PaysTo (some to) = Address.decode b text to ≡ ok agreed.recipient

    Says : Option ℕ → Type 0
    Says none = Unit {0}
    Says (some sats) = sats ≡ agreed.sats

abbrev pub MeetsAny : Bitcoin → AddressText → Option Terms → Proposal → Type 0
MeetsAny b text none agreed = Unit {0}
MeetsAny b text (some terms) agreed = Meets b text terms agreed

-- A half that the wallet gave when it was asked to pay its part of an agreed proposal.
abbrev pub IsFunded : {O : Type 0} → Links O → Proposal → V0Psbt → Type 0
IsFunded {O = O} links agreed half =
    (o : O) × ((links.fund agreed.recipient (agreed.sats / 2) agreed.fee_rate o).0 ≡ some half)

-- A proposal that does not pass the checks, does not say what is insisted on, or does not join with the
-- half that the wallet gives for it.
pub data IsRefused {O : Type 0} (links : Links O) (b : Bitcoin) (w : Wire) (text : AddressText)
    (updater : Psbt → Option Psbt) (me : Bytes) (message : Message) (terms : Option Terms)
    : Type 0 where
  unreadable :
      (e : Error)
      → read_proposal b w text message me ≡ err e
      → IsRefused links b w text updater me message terms
  other_terms :
      (agreed : Proposal)
      → read_proposal b w text message me ≡ ok agreed
      → (MeetsAny b text terms agreed → ⊥)
      → IsRefused links b w text updater me message terms
  not_joined :
      (agreed : Proposal) (half : V0Psbt) (e : Error)
      → read_proposal b w text message me ≡ ok agreed
      → IsFunded links agreed half
      → join_session b w updater me agreed half ≡ err e
      → IsRefused links b w text updater me message terms

network-≡ :
    (m n : Bool)
    → (elim m as (λ x. Bool → Bool) [ false ↦ λ k. not k | true ↦ λ k. k ]) n ≡ true
    → m ≡ n
network-≡ true true h = refl
network-≡ true false h = cc
network-≡ false true h = cc
network-≡ false false h = refl

same_address-≡ : (a other : SilentPaymentAddress) → same_address a other ≡ true → a ≡ other
same_address-≡ a other h =
    let (keys, network) = &&-true _ _ h in
    let (scan, spend) = &&-true _ _ keys in
    ap (λ k. record a { scan = k }) (same-≡ a.scan other.scan scan)
    ∙ ap (λ k. record a { scan = other.scan; spend = k }) (same-≡ a.spend other.spend spend)
    ∙ ap (λ k. record other { mainnet = k }) (network-≡ a.mainnet other.mainnet network)

network_refl :
    (m : Bool) → (elim m as (λ x. Bool → Bool) [ false ↦ λ k. not k | true ↦ λ k. k ]) m ≡ true
network_refl true = refl
network_refl false = refl

same_address_refl : (a : SilentPaymentAddress) → same_address a a ≡ true
same_address_refl a =
    rw
      (
        holds_of (Bytes-discrete a.scan a.scan) refl,
        holds_of (Bytes-discrete a.spend a.spend) refl,
        network_refl a.mainnet,
      )
      refl

other_address : (a other : SilentPaymentAddress) → same_address a other ≡ false → a ≡ other → ⊥
other_address a other h e =
    let k : same_address other other ≡ false = subst (λ x. same_address x other ≡ false) e h in
    let l = same_address_refl other in cc

module _ {O : Type 0} (links : Links O) (b : Bitcoin) (w : Wire) (text : AddressText)
    (updater : Psbt → Option Psbt) where
  -- What a verdict on the terms means.
  IsVerdict : Terms → Proposal → Result FlowError (Unit {0}) → Type 0
  IsVerdict terms agreed (ok x) = Meets b text terms agreed
  IsVerdict terms agreed (err e) = Meets b text terms agreed → ⊥

  refuse_terms-IsVerdict :
      (to : Option Bytes) (sats : Option ℕ) (agreed : Proposal)
      → IsVerdict
          (record { to = to; sats = sats })
          agreed
          (refuse_terms links b w text updater (record { to = to; sats = sats }) agreed)
  unfolding IsVerdict refuse_terms
  refuse_terms-IsVerdict none none agreed = (tt, tt)
  refuse_terms-IsVerdict none (some sats) agreed = elim (Bool-cases (sats == agreed.sats)) [
    | inl e ↦ rw e (tt, (==_iff _ _).0 e)
    | inr e ↦ rw e (λ meets. let k = (==_iff _ _).1 (meets.1) in cc)
  ]
  refuse_terms-IsVerdict (some to) none agreed = elim (Result-cases (Address.decode b text to)) [
    | inr (x, d) ↦ rw (refuse_terms, d) (λ meets. let k = sym d ∙ meets.0 in cc)
    | inl (address, d) ↦ elim (Bool-cases (same_address address agreed.recipient)) [
      | inr other ↦
          rw (refuse_terms, d, other)
            (λ meets. other_address address agreed.recipient other (ok-injective (sym d ∙ meets.0)))
      | inl same_one ↦
          rw (refuse_terms, d, same_one)
            (d ∙ ap ok (same_address-≡ address agreed.recipient same_one), tt)
    ]
  ]
  refuse_terms-IsVerdict (some to) (some sats) agreed =
      elim (Result-cases (Address.decode b text to)) [
        | inr (x, d) ↦ rw (refuse_terms, d) (λ meets. let k = sym d ∙ meets.0 in cc)
        | inl (address, d) ↦ elim (Bool-cases (same_address address agreed.recipient)) [
          | inr other ↦
              rw (refuse_terms, d, other)
                (λ meets.
                  other_address address agreed.recipient other (ok-injective (sym d ∙ meets.0)))
          | inl same_one ↦
              let to_same = d ∙ ap ok (same_address-≡ address agreed.recipient same_one) in
              elim (Bool-cases (sats == agreed.sats)) [
                | inl e ↦ rw (refuse_terms, d, same_one, e) (to_same, (==_iff _ _).0 e)
                | inr e ↦
                    rw (refuse_terms, d, same_one, e)
                      (λ meets. let k = (==_iff _ _).1 (meets.1) in cc)
              ]
        ]
      ]

  -- What the outcome of joining says of the proposal.
  abbrev pub IsOutcome : Bytes → Message → Option Terms → Result NotJoined Session → Type 0
  IsOutcome me message terms (ok s) =
      (agreed : Proposal) × (half : V0Psbt) × (read_proposal b w text message me ≡ ok agreed)
      × MeetsAny b text terms agreed
      × IsFunded links agreed half
      × (join_session b w updater me agreed half ≡ ok s)
  IsOutcome me message terms (err (refused_by e)) =
      IsRefused links b w text updater me message terms
  IsOutcome me message terms (err (failed e)) = Unit {0}

  checked_proposal-eq-ok :
      (me : Bytes) (message : Message) (terms : Option Terms) {agreed : Proposal}
      → checked_proposal links b w text updater me message terms ≡ ok agreed
      → (read_proposal b w text message me ≡ ok agreed) × MeetsAny b text terms agreed
  unfolding checked_proposal IsVerdict
  checked_proposal-eq-ok me message none h =
      elim (Result-cases (read_proposal b w text message me)) [
        | inr (x, r) ↦ let k = rw (checked_proposal, r) at h in cc
        | inl (read, r) ↦ let k = rw (checked_proposal, r) at h in (r ∙ ap ok (ok-injective k), tt)
      ]
  checked_proposal-eq-ok me message (some t) {agreed = agreed} h =
      elim (Result-cases (read_proposal b w text message me)) [
        | inr (x, r) ↦ let k = rw (checked_proposal, r) at h in cc
        | inl (read, r) ↦
            let verdict = refuse_terms-IsVerdict t.to t.sats read in
            elim (Result-cases (refuse_terms links b w text updater t read)) [
              | inr (x, v) ↦ let k = rw (checked_proposal, r, v) at h in cc
              | inl (x, v) ↦
                  let k = ok-injective (rw (checked_proposal, r, v) at h) in
                  let meets : Meets b text t read = subst (IsVerdict t read) v verdict in
                  (r ∙ ap ok k, subst (Meets b text t) k meets)
            ]
      ]

  checked_proposal-eq-err :
      (me : Bytes) (message : Message) (terms : Option Terms) {e : FlowError}
      → checked_proposal links b w text updater me message terms ≡ err e
      → IsRefused links b w text updater me message terms
  unfolding checked_proposal IsVerdict
  checked_proposal-eq-err me message none h =
      elim (Result-cases (read_proposal b w text message me)) [
        | inr (x, r) ↦ unreadable x r
        | inl (read, r) ↦ let k = rw (checked_proposal, r) at h in cc
      ]
  checked_proposal-eq-err me message (some t) h =
      elim (Result-cases (read_proposal b w text message me)) [
        | inr (x, r) ↦ unreadable x r
        | inl (read, r) ↦
            let verdict = refuse_terms-IsVerdict t.to t.sats read in
            elim (Result-cases (refuse_terms links b w text updater t read)) [
              | inl (x, v) ↦ let k = rw (checked_proposal, r, v) at h in cc
              | inr (x, v) ↦ other_terms read r (subst (IsVerdict t read) v verdict)
            ]
      ]

  -- The run of `join`: the session file stays, and the outcome is what the proposal deserves.
  pub join_proposal-IsOutcome :
      (me : Bytes) (message : Message) (terms : Option Terms) (before : Saved) (world : World O)
      → world.saved ≡ before
      → ((join_proposal links b w text updater me message terms world).1.saved ≡ before)
        × IsOutcome me message terms (join_proposal links b w text updater me message terms world).0
  unfolding join_proposal fund ◌>>=◌ share_of
  join_proposal-IsOutcome me message terms before world e =
      elim (Result-cases (checked_proposal links b w text updater me message terms)) [
        | inr (x, c) ↦ rw (join_proposal, c) (e, checked_proposal-eq-err me message terms c)
        | inl (agreed, c) ↦
            rw (join_proposal, c)
              (funded agreed (checked_proposal-eq-ok me message terms c)
                (links.fund agreed.recipient (share_of agreed.sats join) agreed.fee_rate
                  world.outside)
                refl)
      ]
    where
      joined :
          (agreed : Proposal)
          → (read_proposal b w text message me ≡ ok agreed) × MeetsAny b text terms agreed
          → (half : V0Psbt) (r : Result Error Session) (after : World O)
          → IsFunded links agreed half
          → join_session b w updater me agreed half ≡ r
          → after.saved ≡ before
          → ((joining links b w text updater r after).1.saved ≡ before)
            × IsOutcome me message terms (joining links b w text updater r after).0
      joined agreed (read, meets) half (ok s) after f j k = (k, (agreed, half, read, meets, f, j))
      joined agreed (read, meets) half (err x) after f j k = (k, not_joined agreed half x read f j)

      funded :
          (agreed : Proposal)
          → (read_proposal b w text message me ≡ ok agreed) × MeetsAny b text terms agreed
          → (answer : Option V0Psbt × O)
          → links.fund agreed.recipient (share_of agreed.sats join) agreed.fee_rate world.outside
            ≡ answer
          → ((and_then
                (λ half. joining links b w text updater (join_session b w updater me agreed half))
                (funding links b w text updater (answered wallet world answer))).1.saved
              ≡ before)
            × IsOutcome me message terms
                (and_then
                  (λ half. joining links b w text updater (join_session b w updater me agreed half))
                  (funding links b w text updater (answered wallet world answer))).0
      funded agreed passes (none, outside) a = (e, tt)
      funded agreed passes (some half, outside) a =
          joined agreed passes half (join_session b w updater me agreed half) _
            (world.outside, ap (λ x. x.0) a) refl e
