-- ===== src/Errors.antt =====
-- The error values of errors.go, and the results of fallible functions.
use treetop_client_go.Base.{
  Bool, Bytes, List, Option, String, [], arith, false, not, refl, true, ℕ, ◌↔◌, ◌∷◌, ◌≡◌, ◌≢◌,
}
-- A Go function that returns `(T, error)` is modelled by `Result T`: the value that stands beside a
-- non-nil error is not modelled. A function that returns only `error` is a `Check`.
pub mod Ensures
use treetop_client_go.Base.Int.{ℤ}

-- A piece of a text made by `fmt.Sprintf` or by joining strings: a literal, a decimal (`%d`), a
-- string (`%s`) or a quoted string (`%q`). What `fmt` writes for each piece is not modelled.
pub data Piece : Type 0 where
  lit : String → Piece
  num : ℤ → Piece
  arg quoted : Bytes → Piece

abbrev pub Message : Type 0
Message = List Piece

abbrev pub text : String → Message
text s = lit s ∷ []

pub record ValidationError : Type 0 where
  pub field : Message
  pub rule : Message
  pub value : Message

pub record ErrorDetails : Type 0 where
  pub line : Option ℕ
  pub column : Option ℕ

pub record ApiError : Type 0 where
  pub status_code : ℤ
  pub code : Bytes
  pub message : Message
  pub details : Option ErrorDetails

-- `wrapped m e` is `fmt.Errorf("m: %w", e)`; `build` is `RequestBuildError`; `out_of_fuel` belongs to
-- the model alone. `external` is an error that a library returns, `panic` an index out of range or a nil pointer.
mutual
  pub data Err : Type 0 where
    validation : ValidationError → Err
    configuration invalid_response evaluation external : Message → Err
    request_too_large response_too_large : ℤ → Err
    wrapped : Message → Err → Err
    api : ApiError → Err
    build : Errs → Err
    out_of_fuel panic : Err

  pub data Errs : Type 0 where
    nil : Errs
    cons : Err → Errs → Errs

pub data Result {ℓ} (A : Type ℓ) : Type ℓ where
  ok : A → Result A
  err : Err → Result A

abbrev pub Check : Type 0
Check = Result (Unit {0})

abbrev pub pass : Check
pass = ok tt

infixl 5 ◌>>=◌ ◌>>◌
abbrev pub ◌>>=◌ {ℓ κ} : {A : Type ℓ} {B : Type κ} → Result A → (A → Result B) → Result B
ok a >>= f = f a
err e >>= f = err e

-- `if err := m; err != nil { return err }`, and then `k`.
abbrev pub ◌>>◌ {ℓ} : {B : Type ℓ} → Check → Result B → Result B
ok _ >> k = k
err e >> k = err e

-- `if b { return e }`.
abbrev pub refuse_if : Bool → Err → Check
refuse_if true e = err e
refuse_if false e = pass

-- `fmt.Errorf("m: %w", err)` on the error path alone.
abbrev pub wrap {ℓ} : {A : Type ℓ} → Message → Result A → Result A
wrap m (ok a) = ok a
wrap m (err e) = err (wrapped m e)

-- `&ValidationError{Field: field, Value: value, Rule: rule}`
abbrev pub invalid : Message → Message → String → Err
invalid field value rule = validation (record { field = field; rule = text rule; value = value })

-- A sequence that succeeds went through its first step.
module _ {ℓ κ} {A : Type ℓ} {B : Type κ} where
  pub >>=-eq-ok :
      (first : Result A) (next : A → Result B) {last : B}
      → (first >>= next) ≡ ok last
      → (x : A) × (first ≡ ok x) × (next x ≡ ok last)
  >>=-eq-ok (err e) next h = cc
  >>=-eq-ok (ok x) next h = (x, refl, h)

pub refuse_if_iff {ℓ} :
    {B : Type ℓ} (b : Bool) (e : Err) (k : Result B) {x : B}
    → ((refuse_if b e >> k) ≡ ok x) ↔ ((b ≡ false) × (k ≡ ok x))
refuse_if_iff true e k = (λ h. cc, λ h. cc)
refuse_if_iff false e k = (λ h. (refl, h), λ h. h.1)

pub >>_iff {ℓ} :
    {B : Type ℓ} (m : Check) (k : Result B) {x : B} → ((m >> k) ≡ ok x) ↔ ((m ≡ pass) × (k ≡ ok x))
>>_iff (ok tt) k = (λ h. (refl, h), λ h. h.1)
>>_iff (err e) k = (λ h. cc, λ h. cc)

pub >>_pass : (m : Check) → (m >> pass) ≡ m
>>_pass (ok tt) = refl
>>_pass (err e) = refl

pub >>_assoc {ℓ} : {B : Type ℓ} (m n : Check) (k : Result B) → (m >> n >> k) ≡ (m >> (n >> k))
>>_assoc (ok tt) n k = refl
>>_assoc (err e) n k = refl

-- Two checks in a row accept exactly when both do.
pub >>_iff_× :
    {P Q : Type 0} {m n : Check} → (m ≡ pass) ↔ P → (n ≡ pass) ↔ Q → ((m >> n) ≡ pass) ↔ (P × Q)
>>_iff_× {m} {n} p q =
    (λ h. let (a, b) = (>>_iff m n).0 h in (p.0 a, q.0 b), λ w. (>>_iff m n).1 (p.1 w.0, q.1 w.1))

pub >>_iff_×₃ :
    {P Q R : Type 0} {m n o : Check}
    → (m ≡ pass) ↔ P
    → (n ≡ pass) ↔ Q
    → (o ≡ pass) ↔ R
    → ((m >> (n >> o)) ≡ pass) ↔ (P × Q × R)
>>_iff_×₃ {m} {n} {o} p q r = (
  λ h.
      let (a, h') = (>>_iff m (n >> o)).0 h in
      let (b, c) = (>>_iff n o).0 h' in (p.0 a, q.0 b, r.0 c),
  λ w. (>>_iff m (n >> o)).1 (p.1 w.0, (>>_iff n o).1 (q.1 w.1, r.1 w.2)),
)

pub iff_trans : {P Q R : Type 0} → P ↔ Q → Q ↔ R → P ↔ R
iff_trans p q = (λ x. q.0 (p.0 x), λ z. p.1 (q.1 z))

pub iff_swap : {P Q R : Type 0} → P ↔ (Q × R) → P ↔ (R × Q)
iff_swap p = (λ x. let (q, r) = p.0 x in (r, q), λ w. p.1 (w.1, w.0))

pub ×_iff : {P Q R S : Type 0} → P ↔ R → Q ↔ S → (P × Q) ↔ (R × S)
×_iff p q = (λ w. (p.0 w.0, q.0 w.1), λ w. (p.1 w.0, q.1 w.1))

pub wrap_iff : {P : Type 0} {c : Check} (m : Message) → (c ≡ pass) ↔ P → (wrap m c ≡ pass) ↔ P
wrap_iff {c} m p = iff_trans (at c) p
  where
    at : (c : Check) → (wrap m c ≡ pass) ↔ (c ≡ pass)
    at (ok tt) = (λ h. refl, λ h. refl)
    at (err e) = (λ h. cc, λ h. cc)

-- A part that is known may be left out.
pub iff_given : {P Q R : Type 0} → Q → P ↔ (Q × R) → P ↔ R
iff_given q p = (λ x. (p.0 x).1, λ r. p.1 (q, r))

pub refuse_unless_iff {ℓ} :
    {B : Type ℓ} (b : Bool) (e : Err) (k : Result B) {x : B}
    → ((refuse_if (not b) e >> k) ≡ ok x) ↔ ((b ≡ true) × (k ≡ ok x))
refuse_unless_iff true e k = (λ h. (refl, h), λ h. h.1)
refuse_unless_iff false e k = (λ h. cc, λ h. cc)

pub refuse_if_ne {ℓ} :
    {B : Type ℓ} (b : Bool) (e : Err) {k : Result B} {r : Result B}
    → err e ≢ r
    → k ≢ r
    → (refuse_if b e >> k) ≢ r
refuse_if_ne true e h n = h
refuse_if_ne false e h n = n

pub refuse_iff : (b : Bool) (e : Err) → (refuse_if b e ≡ pass) ↔ (b ≡ false)
refuse_iff b e = ground arith
