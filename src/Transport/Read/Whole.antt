-- ===== src/Transport/Read/Whole.antt =====
-- A response body is read whole, or not at all.
use treetop_client_go.Errors.{ok, refuse_if_iff, response_too_large}
use treetop_client_go.Base.{
  Bytes, [], ap, arith, dec_lt, false, length, refl, suc, sym, take, zero, ℕ, ◌+◌, ◌↔◌, ◌∙◌, ◌∷◌,
  ◌≡◌, ◌≤◌,
}
use treetop_client_go.Base.Int.{ltb_ℤ, max_int64, negsuc, pos, pos_part, suc_ℤ, ℤ, ◌≤ℤ◌}
use treetop_client_go.Transport.Read.{HttpResponse, read_bounded, read_limit}

take-all : (n : ℕ) (s : Bytes) → length s ≤ n → take n s ≡ s
take-all zero [] h = refl
take-all zero (b ∷ s) h = absurd (omega arith)
take-all (suc n) [] h = refl
take-all (suc n) (b ∷ s) h = ap (λ t. b ∷ t) (take-all n s (omega arith))

length-take : (n : ℕ) (s : Bytes) → n ≤ length s → length (take n s) ≡ n
length-take zero s h = omega arith
length-take (suc n) [] h = absurd (omega arith)
length-take (suc n) (b ∷ s) h = omega (arith, length-take n s (omega arith))

not_cut : (n : ℕ) (s : Bytes) → length (take (n + 1) s) ≤ n → length s ≤ n
not_cut n s h = elim (dec_lt n (length s)) [
  | yes p ↦ absurd (omega (arith, length-take (n + 1) s (omega arith)))
  | no p ↦ omega arith
]

-- With room for one byte more than the limit, what is read fits the limit when the content does.
fits_iff :
    (limit : ℤ) (content body : Bytes)
    → ((pos (length (take (pos_part (suc_ℤ limit)) content)) ≤ℤ limit)
        × (take (pos_part (suc_ℤ limit)) content ≡ body))
      ↔ ((content ≡ body) × (pos (length content) ≤ℤ limit))
fits_iff (pos n) content body = (
  λ w.
      let l : length content ≤ n = not_cut n content (omega arith) in
      (sym (take-all (n + 1) content (omega arith)) ∙ w.1, omega arith),
  λ w. let whole = take-all (n + 1) content (omega arith) in (rw whole (omega arith), whole ∙ w.0),
)
fits_iff (negsuc zero) content body = (λ w. absurd (omega arith), λ w. absurd (omega arith))
fits_iff (negsuc (suc m)) content body = (λ w. absurd (omega arith), λ w. absurd (omega arith))

read_limit-suc : (limit : ℤ) → suc_ℤ limit ≤ℤ pos max_int64 → read_limit limit ≡ suc_ℤ limit
unfolding read_limit
read_limit-suc (pos n) h = ground arith
read_limit-suc (negsuc zero) h = ground arith
read_limit-suc (negsuc (suc n)) h = ground arith

within_iff : (x limit : ℤ) → (ltb_ℤ limit x ≡ false) ↔ (x ≤ℤ limit)
within_iff x limit = ground arith

-- `readBounded` returns the content of a response exactly when the content, and its declared length,
-- are within the limit: a body is never cut short. The limit is below the greatest int64, and the
-- reader gives as many bytes of the content as its limit lets through.
pub read_bounded_iff :
    (response : HttpResponse) (content : Bytes) (limit : ℤ) (body : Bytes)
    → suc_ℤ limit ≤ℤ pos max_int64
    → ((n : ℤ) → response.read_all n ≡ ok (take (pos_part n) content))
    → (read_bounded response limit ≡ ok body)
      ↔ ((content ≡ body) × (pos (length content) ≤ℤ limit) × (response.content_length ≤ℤ limit))
unfolding read_bounded
read_bounded_iff response content limit body bounded reads =
    let taken = take (pos_part (suc_ℤ limit)) content in
    let too_large = response_too_large limit in
    rw (read_limit-suc limit bounded, reads (suc_ℤ limit))
      (
        (λ h.
            let (declared, h1) =
              (refuse_if_iff (ltb_ℤ limit response.content_length) too_large _).0 h in
            let (short, e) =
              (refuse_if_iff (ltb_ℤ limit (pos (length taken))) too_large (ok taken)).0 h1 in
            let same : taken ≡ body = cc e in
            let (whole, l) =
              (fits_iff limit content body).0
                ((within_iff (pos (length taken)) limit).0 short, same) in
            (whole, l, (within_iff response.content_length limit).0 declared)),
        λ w.
            let (short, e) = (fits_iff limit content body).1 (w.0, w.1) in
            (refuse_if_iff _ _ _).1 (
              (within_iff response.content_length limit).1 w.2,
              (refuse_if_iff _ _ _).1 ((within_iff (pos (length taken)) limit).1 short, ap ok e),
            ),
      )
