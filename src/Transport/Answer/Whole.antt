-- ===== src/Transport/Answer/Whole.antt =====
-- Which answers of the server are taken, and what of them.
use treetop_client_go.Base.{
  Bytes, Option, ap, arith, length, not, refl, subst, sym, take, true, ◌↔◌, ◌≡◌,
}
use treetop_client_go.Base.Int.{max_int64, negsuc, pos, pos_part, suc_ℤ, ℤ, ◌≤ℤ◌}
use treetop_client_go.Errors.{
  >>=-eq-ok, >>_iff, Check, Err, Result, err, ok, pass, refuse_if, refuse_unless_iff, wrap, ◌>>=◌,
  ◌>>◌,
}
use treetop_client_go.Errors.{Message}
use treetop_client_go.Errors.Ensures.{ok_inj}
use treetop_client_go.Text.Runes.Utf8.{valid_utf8}
use treetop_client_go.Transport.Answer.{
  Answer, Reader, Target, at_end, decode_json, decode_text, is_2xx, only_value, read_text, Trailing,
  another_value, no_value,
}
use treetop_client_go.Transport.Read.{read_bounded}
use treetop_client_go.Transport.Read.Whole.{read_bounded_iff}

-- The status is 2xx, and the content and its declared length are within the limit.
abbrev pub IsTaken : ℤ → Answer → Bytes → Type 0
IsTaken limit answer content =
    ((pos 200 ≤ℤ answer.status_code) × (answer.status_code ≤ℤ pos 299))
    × (pos (length content) ≤ℤ limit)
    × (answer.response.content_length ≤ℤ limit)

is_2xx_iff : (status : ℤ) → (is_2xx status ≡ true) ↔ ((pos 200 ≤ℤ status) × (status ≤ℤ pos 299))
is_2xx_iff (pos n) = ground arith
is_2xx_iff (negsuc n) = ground arith

only_value_iff : (t : Trailing) → (only_value t ≡ pass) ↔ (t ≡ at_end)
unfolding only_value
only_value_iff at_end = (λ h. refl, λ h. refl)
only_value_iff another_value = (λ h. cc, λ h. cc)
only_value_iff (no_value e) = (λ h. cc, λ h. cc)

-- A response is read whole when its status is a success.
module _ {ℓ} {B : Type ℓ} (limit : ℤ) (answer : Answer) (content : Bytes)
    (bounded : suc_ℤ limit ≤ℤ pos max_int64)
    (reads : (n : ℤ) → answer.response.read_all n ≡ ok (take (pos_part n) content)) where
  IsTaken-iff :
      (e : Err) (next : Bytes → Result B) (value : B)
      → ((refuse_if (not (is_2xx answer.status_code)) e
            >> (read_bounded answer.response limit >>= next))
          ≡ ok value)
        ↔ (IsTaken limit answer content × (next content ≡ ok value))
  IsTaken-iff e next value = (
    λ h.
        let (s, h1) = (refuse_unless_iff (is_2xx answer.status_code) e _).0 h in
        let (body, r, h2) = >>=-eq-ok (read_bounded answer.response limit) next h1 in
        let (same, l, d) =
          (read_bounded_iff answer.response content limit body bounded reads).0 r in
        (((is_2xx_iff answer.status_code).0 s, l, d), subst (λ b. next b ≡ ok value) (sym same) h2),
    λ w.
        let ((s, l, d), v) = w in
        let r : read_bounded answer.response limit ≡ ok content =
          (read_bounded_iff answer.response content limit content bounded reads).1 (refl, l, d) in
        (refuse_unless_iff (is_2xx answer.status_code) e _).1
          ((is_2xx_iff answer.status_code).1 s, rw r v),
  )

-- What follows the reading in `decodeJSON`.
checked_iff {ℓ} :
    {A : Type ℓ} (first : Result A) (m : Message) (rest : Trailing) (validate : A → Check)
    (value : A)
    → ((wrap m first >>= λ v. only_value rest >> (validate v >> ok v)) ≡ ok value)
      ↔ ((first ≡ ok value) × (rest ≡ at_end) × (validate value ≡ pass))
checked_iff (err e) m rest validate value = (λ h. cc, λ w. cc w.0)
checked_iff (ok v) m rest validate value = (
  λ h.
      let (t, h1) = (>>_iff (only_value rest) _).0 h in
      let (p, e) = (>>_iff (validate v) (ok v)).0 h1 in
      (e, (only_value_iff rest).0 t, subst (λ x. validate x ≡ pass) (ok_inj e) p),
  λ w. (>>_iff (only_value rest) _).1 (
    (only_value_iff rest).1 w.1,
    (>>_iff (validate v) (ok v)).1 (subst (λ x. validate x ≡ pass) (sym (ok_inj w.0)) w.2, w.0),
  ),
)

-- The value of a JSON answer is returned exactly when the status is 2xx, the content and its declared
-- length are within the limit, the decoder takes the value from the whole content with nothing behind
-- it, and the value is valid. The limit is below the greatest int64, and the reader gives as many
-- bytes of the content as its limit lets through.
pub decode_json_iff {ℓ} :
    {A : Type ℓ} (reader : Reader) (target : Target A) (access upload : Option Bytes)
    (answer : Answer) (content : Bytes) (value : A)
    → suc_ℤ reader.max_response_bytes ≤ℤ pos max_int64
    → ((n : ℤ) → answer.response.read_all n ≡ ok (take (pos_part n) content))
    → (decode_json reader target access upload answer ≡ ok value) ↔ (
        IsTaken reader.max_response_bytes answer content
        × ((target.decode content ≡ ok value)
            × (target.trailing content ≡ at_end)
            × (target.validate_value value ≡ pass)))
unfolding decode_json
decode_json_iff reader target access upload answer content value bounded reads = (
  λ h.
      let (t, h1) =
        (IsTaken-iff reader.max_response_bytes answer content bounded reads _ _ value).0 h in
      (t, (checked_iff (target.decode content) _ (target.trailing content) _ value).0 h1),
  λ w.
      let (t, c) = w in
      (IsTaken-iff reader.max_response_bytes answer content bounded reads _ _ value).1 (
        t,
        (checked_iff (target.decode content) _ (target.trailing content) target.validate_value
              value).1
            c,
      ),
)

-- The text of an answer is returned exactly when the status is 2xx, the content and its declared
-- length are within the limit, and the content is valid UTF-8; it is then the content. The limit is
-- below the greatest int64, and the reader gives as many bytes of the content as its limit lets
-- through.
pub decode_text_iff :
    (reader : Reader) (access upload : Option Bytes) (answer : Answer) (content text : Bytes)
    → suc_ℤ reader.max_response_bytes ≤ℤ pos max_int64
    → ((n : ℤ) → answer.response.read_all n ≡ ok (take (pos_part n) content))
    → (decode_text reader access upload answer ≡ ok text) ↔ (
        IsTaken reader.max_response_bytes answer content
        × ((valid_utf8 content ≡ true) × (content ≡ text)))
unfolding decode_text read_text
decode_text_iff reader access upload answer content text bounded reads = (
  λ h.
      let (t, h1) =
        (IsTaken-iff reader.max_response_bytes answer content bounded reads _ _ text).0 h in
      let (u, e) = (refuse_unless_iff (valid_utf8 content) _ (ok content)).0 h1 in
      (t, (u, ok_inj e)),
  λ w.
      let (t, (u, e)) = w in
      (IsTaken-iff reader.max_response_bytes answer content bounded reads _ _ text).1
        (t, (refuse_unless_iff (valid_utf8 content) _ (ok content)).1 (u, ap ok e)),
)
