-- ===== src/Errors/Ensures.antt =====
-- Properties of whatever a fallible sequence of steps succeeds with.
use treetop_client_go.Errors.{Check, Err, Result, err, ok, pass, refuse_if, ◌>>=◌, ◌>>◌}
use treetop_client_go.Base.{Bool, false, refl, subst, true, ◌≡◌}

-- Whatever the result succeeds with has the property.
abbrev pub Ensures {ℓ κ} : {A : Type ℓ} → (A → Type κ) → Result A → Type κ
Ensures P (ok a) = P a
Ensures P (err e) = Unit

-- A sequence whose every continuation ensures the property ensures it.
pub then-Ensures {ℓ κ μ} :
    {A : Type ℓ} {B : Type κ} (P : B → Type μ) (m : Result A) (f : A → Result B)
    → ((a : A) → Ensures P (f a))
    → Ensures P (m >>= f)
then-Ensures P (ok a) f h = h a
then-Ensures P (err e) f h = tt

-- After a check, what the check establishes can be used.
pub check-Ensures {ℓ κ} :
    {B : Type ℓ} (P : B → Type κ) (c : Check) (r : Result B)
    → (c ≡ pass → Ensures P r)
    → Ensures P (c >> r)
check-Ensures P (ok _) r h = h refl
check-Ensures P (err e) r h = tt

pub ensured {ℓ κ} :
    {A : Type ℓ} (P : A → Type κ) (r : Result A) {a : A} → Ensures P r → r ≡ ok a → P a
ensured P (ok b) h e = subst P (cc e) h
ensured P (err x) h e = cc e

-- What the first step ensures can be used.
pub from-Ensures {ℓ κ μ ν} :
    {A : Type ℓ} {B : Type κ} (Q : A → Type ν) (P : B → Type μ) (m : Result A) (f : A → Result B)
    → Ensures Q m
    → ((a : A) → Q a → Ensures P (f a))
    → Ensures P (m >>= f)
from-Ensures Q P (ok a) f q h = h a q
from-Ensures Q P (err e) f q h = tt

-- After a guard, its negation can be used.
pub guard-Ensures {ℓ κ} :
    {B : Type ℓ} (P : B → Type κ) (b : Bool) (e : Err) (r : Result B)
    → (b ≡ false → Ensures P r)
    → Ensures P (refuse_if b e >> r)
guard-Ensures P true e r h = tt
guard-Ensures P false e r h = h refl

pub ok_inj {ℓ} : {A : Type ℓ} {a b : A} → ok a ≡ ok b → a ≡ b
ok_inj h = cc
