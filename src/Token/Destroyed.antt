-- ===== src/Token/Destroyed.antt =====
-- What `Destroy` does to the tokens that share an array with the destroyed one.
use treetop_client_go.Base.{
  All, Bool, Bytes, Option, [], false, if◌then◌else◌, is_empty, length, map, none, not, refl, some,
  suc, sym, true, zero, ℕ, ◌++◌, ◌∷◌, ◌≡◌,
}
use treetop_client_go.Errors.{err}
use treetop_client_go.Token.{
  Heap, Token, access_error, allocate, bad_upload, clear_at, clear_slice, clone, destroy, exposed,
  exposed_slice, read, token_runs, upload_error, valid_bearer_token, validate_access,
  validate_upload,
}

abbrev IsZero : ℕ → Type 0
IsZero b = b ≡ 0

map-zeros : (s : Bytes) → All IsZero (map (λ b. 0) s)
map-zeros [] = tt
map-zeros (b ∷ s) = (refl, map-zeros s)

-- A cleared array holds nothing but zero bytes.
clear_at-zeros : (i : ℕ) (h : Heap) → All IsZero (read i (clear_at i h))
unfolding read clear_at
clear_at-zeros i [] = tt
clear_at-zeros zero (s ∷ h) = map-zeros s
clear_at-zeros (suc i) (s ∷ h) = clear_at-zeros i h

zeros_no_bearer : (s : Bytes) → All IsZero s → not (valid_bearer_token s) ≡ true
unfolding token_runs
zeros_no_bearer [] z = refl
zeros_no_bearer (b ∷ s) (e, z) = rw e refl

zeros_no_header : (s : Bytes) → All IsZero s → bad_upload s ≡ true
unfolding token_runs
zeros_no_header [] z = refl
zeros_no_header (b ∷ s) (e, z) = rw e refl

slice_zeros : (v : Option ℕ) (h : Heap) → All IsZero (exposed_slice v (clear_slice v h))
unfolding exposed_slice clear_slice
slice_zeros none h = tt
slice_zeros (some i) h = clear_at-zeros i h

destroyed-zeros : (t : Token) (h : Heap) → All IsZero (exposed t (destroy (some t) h).1)
unfolding exposed destroy
destroyed-zeros t h = slice_zeros t.value h

-- After `Destroy`, every copy of the token, whose slice shares the array, is refused by `validate`,
-- as an access token and as an upload token, with the error of the constructor.
pub destroy-refused :
    (t : Token) (h : Heap)
    → (validate_access t (destroy (some t) h).1 ≡ err access_error)
      × (validate_upload t (destroy (some t) h).1 ≡ err upload_error)
unfolding validate_access validate_upload
destroy-refused t h = (
  rw (zeros_no_bearer _ (destroyed-zeros t h)) refl,
  rw (zeros_no_header _ (destroyed-zeros t h)) refl,
)

read_last : (h : Heap) (s : Bytes) → read (length h) (h ++ s ∷ []) ≡ s
unfolding read
read_last [] s = refl
read_last (t ∷ h) s = read_last h s

-- Clearing an array that holds bytes leaves one that is allocated after it.
read-clear_at-append :
    (i : ℕ) (h : Heap) (s : Bytes)
    → is_empty (read i h) ≡ false
    → read (length h) (clear_at i (h ++ s ∷ [])) ≡ s
unfolding read clear_at
read-clear_at-append i [] s e = cc
read-clear_at-append zero (t ∷ h) s e = read_last h s
read-clear_at-append (suc i) (t ∷ h) s e = read-clear_at-append i h s e

is_empty_lem : (s : Bytes) → is_empty s ≡ true → s ≡ []
is_empty_lem [] h = refl
is_empty_lem (b ∷ s) h = cc

abbrev cloned : Bool → Option ℕ → Heap → Token × Heap
cloned c v h = if c then (record { value = none }, h) else allocate (exposed_slice v h) h

clone_cases :
    (v : Option ℕ) (h : Heap) (c : Bool)
    → is_empty (exposed_slice v h) ≡ c
    → exposed (cloned c v h).0 (clear_slice v (cloned c v h).1) ≡ exposed_slice v h
unfolding exposed exposed_slice allocate clear_slice read
clone_cases v h true e = sym (is_empty_lem _ e)
clone_cases none h false e = cc
clone_cases (some i) h false e = read-clear_at-append i h (read i h) e

-- `Destroy` leaves a clone: after it, a token that was cloned before still has its bytes.
pub clone-destroy :
    (t : Token) (h : Heap) → exposed (clone t h).0 (destroy (some t) (clone t h).1).1 ≡ exposed t h
unfolding clone destroy exposed
clone-destroy t h = clone_cases t.value h (is_empty (exposed_slice t.value h)) refl

copy_cases :
    (v : Option ℕ) (h : Heap) (c : Bool)
    → is_empty (exposed_slice v h) ≡ c
    → exposed (cloned c v h).0 (cloned c v h).1 ≡ exposed_slice v h
unfolding exposed exposed_slice allocate
copy_cases v h true e = sym (is_empty_lem _ e)
copy_cases none h false e = cc
copy_cases (some i) h false e = read_last h (read i h)

-- A clone has the bytes of its token.
pub exposed-clone : (t : Token) (h : Heap) → exposed (clone t h).0 (clone t h).1 ≡ exposed t h
unfolding clone exposed
exposed-clone t h = copy_cases t.value h (is_empty (exposed_slice t.value h)) refl
