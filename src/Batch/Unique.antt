-- ===== src/Batch/Unique.antt =====
-- A batch is accepted exactly when its items are valid and their IDs are distinct.
use mathlib.Core.Bool.{false≢true}
use treetop_client_go.Base.{
  All, Bool-cases, Bytes, List, Option, [], arith, bytes_eq_iff, false, inl, inr, none, refl, some,
  sym, true, ℕ, ◌+◌, ◌↔◌, ◌∙◌, ◌∷◌, ◌≡◌, ◌≢◌,
}
use treetop_client_go.Errors.{>>_iff_×, >>_iff_×₃, Check, iff_trans, pass, wrap_iff, ◌>>=◌}
use treetop_client_go.Validation.{Net}
use treetop_client_go.Validation.Entity.{IsName}
use treetop_client_go.Cedar.Valid.{validate_rid_iff}
use treetop_client_go.Request.Valid.{IsEntry, IsRequest, validate_attrs_iff, validate_request_iff}
use treetop_client_go.Batch.{
  AuthRequest, batch_loop, is_member, note_id, request_id, validate_auth_request, validate_batch,
}

-- The IDs that the items of a batch carry, in order.
abbrev pub onto : Option Bytes → List Bytes → List Bytes
onto none ids = ids
onto (some id) ids = id ∷ ids

abbrev pub given_ids : List AuthRequest → List Bytes
given_ids [] = []
given_ids (r ∷ rs) = onto (request_id r) (given_ids rs)

-- No two entries of a list are equal.
abbrev pub IsDistinct : List Bytes → Type 0
IsDistinct [] = Unit
IsDistinct (x ∷ xs) = All (λ y. x ≢ y) xs × IsDistinct xs

module _ (net : Net) where
  abbrev pub IsAuthRequest : AuthRequest → Type 0
  IsAuthRequest r =
      (r.id.set ≡ true → IsName r.id.value) × All (IsEntry net) r.context × IsRequest net r.request

  pub validate_auth_request_iff :
      (r : AuthRequest) → (validate_auth_request net r ≡ pass) ↔ IsAuthRequest r
  unfolding validate_auth_request
  validate_auth_request_iff r =
      >>_iff_×₃ (validate_rid_iff r.id) (validate_attrs_iff net _ _ r.context)
        (validate_request_iff net r.request)

abbrev Avoids : List Bytes → List Bytes → Type 0
Avoids seen ids = All (λ id. All (λ s. s ≢ id) seen) ids

is_member-false :
    (id : Bytes) (seen : List Bytes) → (is_member id seen ≡ false) ↔ All (λ s. s ≢ id) seen
unfolding is_member
is_member-false id [] = (λ h. tt, λ h. refl)
is_member-false id (s ∷ seen) = ground (arith, bytes_eq_iff s id, is_member-false id seen)

All-×_iff :
    (P Q : Bytes → Type 0) (xs : List Bytes) → All (λ x. P x × Q x) xs ↔ (All P xs × All Q xs)
All-×_iff P Q [] = (λ _. (tt, tt), λ _. tt)
All-×_iff P Q (x ∷ xs) =
    let r = All-×_iff P Q xs in
    (
      λ h. let (p, q) = r.0 h.1 in ((h.0.0, p), (h.0.1, q)),
      λ w. ((w.0.0, w.1.0), r.1 (w.0.1, w.1.1)),
    )

-- Noting an ID and going on, against what is asked of the IDs that follow.
note_iff :
    (o : Option Bytes) (seen ids : List Bytes) (loop : List Bytes → Check) (P : Type 0)
    → ((seen' : List Bytes) → (loop seen' ≡ pass) ↔ (P × IsDistinct ids × Avoids seen' ids))
    → ((note_id o seen >>= loop) ≡ pass) ↔ (P × IsDistinct (onto o ids) × Avoids seen (onto o ids))
unfolding note_id
note_iff none seen ids loop P rest = rest seen
note_iff (some id) seen ids loop P rest = elim (Bool-cases (is_member id seen)) [
  | inl old ↦ rw old (
    (λ h. cc),
    λ w. let fresh = (is_member-false id seen).1 w.2.0 in absurd (false≢true (sym fresh ∙ old)),
  )
  | inr new ↦
      let split_avoids = All-×_iff (λ y. id ≢ y) (λ y. All (λ s. s ≢ y) seen) ids in
      rw new (
        (λ h.
            let (p, d, a) = (rest (id ∷ seen)).0 h in
            let (ne, av) = split_avoids.0 a in (p, (ne, d), ((is_member-false id seen).0 new, av))),
        λ w. (rest (id ∷ seen)).1 (w.0, w.1.1, split_avoids.1 (w.1.0, w.2.1)),
      )
]

module _ (net : Net) where
  batch_loop_iff :
      (i : ℕ) (rs : List AuthRequest) (seen : List Bytes)
      → (batch_loop net i rs seen ≡ pass)
        ↔ (All (IsAuthRequest net) rs × IsDistinct (given_ids rs) × Avoids seen (given_ids rs))
  unfolding batch_loop
  batch_loop_iff i [] seen = (λ _. (tt, tt, tt), λ _. refl)
  batch_loop_iff i (r ∷ rs) seen =
      iff_trans
        (>>_iff_× (wrap_iff _ (validate_auth_request_iff net r)) (
          note_iff (request_id r) seen (given_ids rs) (batch_loop net (i + 1) rs)
            (All (IsAuthRequest net) rs) (λ seen'. batch_loop_iff (i + 1) rs seen')))
        (λ w. ((w.0, w.1.0), w.1.1, w.1.2), λ w. (w.0.0, (w.0.1, w.1, w.2)))

-- `AuthorizeRequest.Validate` accepts a batch exactly when every item is valid and no two items
-- carry the same ID; items without an ID do not count.
pub validate_batch_iff :
    (net : Net) (rs : List AuthRequest)
    → (validate_batch net (some rs) ≡ pass)
      ↔ (All (IsAuthRequest net) rs × IsDistinct (given_ids rs))
unfolding validate_batch
validate_batch_iff net rs =
    iff_trans (batch_loop_iff net 0 rs [])
      (λ w. (w.0, w.1), λ w. (w.0, w.1, avoids_nothing (given_ids rs)))
  where
    avoids_nothing : (ids : List Bytes) → Avoids [] ids
    avoids_nothing [] = tt
    avoids_nothing (id ∷ ids) = (tt, avoids_nothing ids)
