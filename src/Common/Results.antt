-- ===== src/Common/Results.antt =====
-- Fallible code: `anyhow::Result`, with the error that the code names.
use mathlib.Core.Path.{◌≡◌, refl}
use mathlib.Core.Logic.{◌⊎◌, inl, inr}
use mathlib.Core.Bool.{Bool, true, false, ◌&&◌}
use kiss_bdk.Common.Tests.{holds, holds-true}
use mathlib.Core.Option.{Option, none, some}

pub data Result {ℓ} (E : Type 0) (A : Type ℓ) : Type ℓ where
  ok : A → Result E A
  err : E → Result E A

infixl 5 ◌>>=◌ ◌>>◌
unfoldable pub ◌>>=◌ {ℓ κ} :
    {E : Type 0} {A : Type ℓ} {B : Type κ} → Result E A → (A → Result E B) → Result E B
ok a >>= f = f a
err e >>= f = err e

unfoldable pub ◌>>◌ {ℓ} : {E : Type 0} {B : Type ℓ} → Result E (Unit {0}) → Result E B → Result E B
ok a >> k = k
err e >> k = err e

-- `if !test { bail!(e) }`
abbrev pub guard : {E : Type 0} → Bool → E → Result E (Unit {0})
guard true e = ok tt
guard false e = err e

-- `if test { bail!(e) }`
abbrev pub refuse : {E : Type 0} → Bool → E → Result E (Unit {0})
refuse true e = err e
refuse false e = ok tt

-- `.context(e)?` on an option
abbrev pub or_fail {ℓ} : {E : Type 0} {A : Type ℓ} → Option A → E → Result E A
or_fail none e = err e
or_fail (some a) e = ok a

pub ok-injective {ℓ} :
    {E : Type 0} {A : Type ℓ} {x y : A} → ◌≡◌ {A = Result E A} (ok x) (ok y) → x ≡ y
ok-injective h = cc

-- Inversion of successful steps, for proofs in which the steps stay shut.
pub >>=-eq-ok {ℓ κ} :
    {E : Type 0} {A : Type ℓ} {B : Type κ} (m : Result E A) (f : A → Result E B) {b : B}
    → (m >>= f) ≡ ok b
    → (a : A) × (m ≡ ok a) × (f a ≡ ok b)
unfolding ◌>>=◌
>>=-eq-ok (ok a) f h = (a, refl, h)
>>=-eq-ok (err e) f h = cc

pub >>-eq-ok {ℓ} :
    {E : Type 0} {B : Type ℓ} (m : Result E (Unit {0})) (k : Result E B) {b : B}
    → (m >> k) ≡ ok b
    → (m ≡ ok tt) × (k ≡ ok b)
unfolding ◌>>◌
>>-eq-ok (ok tt) k h = (refl, h)
>>-eq-ok (err e) k h = cc

pub guard-eq-ok : {E : Type 0} (b : Bool) (e : E) → guard b e ≡ ok tt → b ≡ true
guard-eq-ok true e h = refl
guard-eq-ok false e h = cc

pub guard-holds {ℓ} : {E : Type 0} {P : Type ℓ} (d : Dec P) (e : E) → guard (holds d) e ≡ ok tt → P
guard-holds d e h = holds-true d (guard-eq-ok (holds d) e h)

pub &&-true : (x y : Bool) → (x && y) ≡ true → (x ≡ true) × (y ≡ true)
&&-true true y h = (refl, h)
&&-true false y h = cc

pub refuse-eq-ok : {E : Type 0} (b : Bool) (e : E) → refuse b e ≡ ok tt → b ≡ false
refuse-eq-ok true e h = cc
refuse-eq-ok false e h = refl

-- The steps the other way round: what succeeds when each step does.
pub refuse-ok : {E : Type 0} (b : Bool) (e : E) → b ≡ false → refuse b e ≡ ok tt
refuse-ok true e h = cc
refuse-ok false e h = refl

pub >>-ok {ℓ} :
    {E : Type 0} {B : Type ℓ} (m : Result E (Unit {0})) (k : Result E B) {b : B}
    → m ≡ ok tt
    → k ≡ ok b
    → (m >> k) ≡ ok b
unfolding ◌>>◌
>>-ok (ok tt) k h h' = h'
>>-ok (err e) k h h' = cc

pub or_fail-eq-ok {ℓ} :
    {E : Type 0} {A : Type ℓ} (o : Option A) (e : E) {a : A} → or_fail o e ≡ ok a → o ≡ some a
or_fail-eq-ok none e h = cc
or_fail-eq-ok (some a) e h = cc

-- `.with_context(e)?`: the error is replaced by the one that the caller names.
abbrev pub context {ℓ} : {D E : Type 0} {A : Type ℓ} → Result D A → E → Result E A
context (ok a) e = ok a
context (err d) e = err e

pub context-eq-ok {ℓ} :
    {D E : Type 0} {A : Type ℓ} (r : Result D A) (e : E) {a : A} → context r e ≡ ok a → r ≡ ok a
context-eq-ok (ok a) e h = cc
context-eq-ok (err d) e h = cc

pub Result-cases {ℓ} :
    {E : Type 0} {A : Type ℓ} (r : Result E A) → ((a : A) × (r ≡ ok a)) ⊎ ((e : E) × (r ≡ err e))
Result-cases (ok a) = inl (a, refl)
Result-cases (err e) = inr (e, refl)
