-- ===== src/Response/Find.antt =====
-- What `FindByID` finds in a response that was accepted.
use treetop_client_go.Decision.Fits.{labels_equal_iff}
use treetop_client_go.Base.{
  All, Bool, Bool-cases, Bytes, List, Option, [], inl, inr, none, some, subst, sym, ◌++◌, ◌∙◌, ◌∷◌,
  ◌≡◌, ◌≢◌,
}
use treetop_client_go.Batch.{AuthRequest, request_id}
use treetop_client_go.Batch.Unique.{IsDistinct, given_ids, onto}
use treetop_client_go.Decision.{AnyDecision, labels_equal}
use treetop_client_go.Response.{AuthorizeResponse, IndexedResult, find_by_id, find_loop}
use treetop_client_go.Response.Correlated.{SameIds}

head_fresh :
    (o : Option Bytes) (ids : List Bytes) (id : Bytes)
    → o ≡ some id
    → All (λ y. id ≢ y) (onto o ids)
    → ⊥
head_fresh none ids id h f = cc
head_fresh (some y) ids id h f = f.0 (cc h)

tail_fresh :
    (o : Option Bytes) (ids : List Bytes) (id : Bytes)
    → All (λ y. id ≢ y) (onto o ids)
    → All (λ y. id ≢ y) ids
tail_fresh none ids id f = f
tail_fresh (some y) ids id f = f.1

tail_IsDistinct : (o : Option Bytes) (ids : List Bytes) → IsDistinct (onto o ids) → IsDistinct ids
tail_IsDistinct none ids d = d
tail_IsDistinct (some y) ids d = d.1

head_IsDistinct :
    (o : Option Bytes) (ids : List Bytes) (id : Bytes)
    → o ≡ some id
    → IsDistinct (onto o ids)
    → All (λ y. id ≢ y) ids
head_IsDistinct none ids id h d = cc
head_IsDistinct (some y) ids id h d =
    let same : y ≡ id = cc h in subst (λ x. All (λ z. x ≢ z) ids) same d.0

module _ (is_object : Bytes → Bool) {T : Type 0} (any_of : T → AnyDecision) where
  -- The ID of a result among those that answer a batch is an ID of the batch.
  not_given :
      (before after : List (IndexedResult T)) (r : IndexedResult T) (qs : List AuthRequest)
      (id : Bytes)
      → SameIds is_object any_of (before ++ r ∷ after) qs
      → r.id ≡ some id
      → All (λ y. id ≢ y) (given_ids qs)
      → ⊥
  not_given [] after r [] id same e fresh = absurd same
  not_given [] after r (q ∷ qs) id same e fresh =
      head_fresh (request_id q) (given_ids qs) id (sym same.0 ∙ e) fresh
  not_given (s ∷ before) after r [] id same e fresh = absurd same
  not_given (s ∷ before) after r (q ∷ qs) id same e fresh =
      not_given before after r qs id same.1 e (tail_fresh (request_id q) (given_ids qs) id fresh)

  find_loop-SameIds :
      (before after : List (IndexedResult T)) (r : IndexedResult T) (qs : List AuthRequest)
      (id : Bytes)
      → SameIds is_object any_of (before ++ r ∷ after) qs
      → IsDistinct (given_ids qs)
      → r.id ≡ some id
      → find_loop is_object any_of (before ++ r ∷ after) id ≡ some r
  unfolding find_loop
  find_loop-SameIds [] after r qs id same d e = rw ((labels_equal_iff r.id (some id)).1 e)
  find_loop-SameIds (s ∷ before) after r [] id same d e = absurd same
  find_loop-SameIds (s ∷ before) after r (q ∷ qs) id same d e =
      elim (Bool-cases (labels_equal s.id (some id))) [
        | inl t ↦
            let sent = sym same.0 ∙ (labels_equal_iff s.id (some id)).0 t in
            absurd (
              not_given before after r qs id same.1 e
                (head_IsDistinct (request_id q) (given_ids qs) id sent d))
        | inr f ↦ rw f (
            find_loop-SameIds before after r qs id same.1
              (tail_IsDistinct (request_id q) (given_ids qs) d) e)
      ]

  -- In a response that carries the IDs of a batch whose IDs are distinct, `FindByID` finds by the ID
  -- of a result that very result.
  pub find_by_id-SameIds :
      (response : AuthorizeResponse T) (before after : List (IndexedResult T)) (r : IndexedResult T)
      (qs : List AuthRequest) (id : Bytes)
      → response.results ≡ before ++ r ∷ after
      → SameIds is_object any_of response.results qs
      → IsDistinct (given_ids qs)
      → r.id ≡ some id
      → find_by_id is_object any_of (some response) id ≡ some r
  unfolding find_by_id
  find_by_id-SameIds response before after r qs id place same d e = rw place (
      find_loop-SameIds before after r qs id
        (subst (λ rs. SameIds is_object any_of rs qs) place same) d e)
