-- ===== src/Client/Authorize/Answered.antt =====
-- Every answer that `Authorize` accepts for one item makes `IsAllowed` return: a verdict, or the error
-- that the server reported.
use treetop_client_go.Base.{
  Bool, Bytes, List, [], arith, inl, inr, length, refl, some, ◌∷◌, ◌≡◌, ◌⊎◌,
}
use treetop_client_go.Base.Int.{max_int64, pos, suc_ℤ, ◌≤ℤ◌}
use treetop_client_go.Errors.{Result, arg, err, evaluation, ok, pass}
use treetop_client_go.Request.{Request}
use treetop_client_go.Batch.Unique.{validate_auth_request_iff, validate_batch_iff}
use treetop_client_go.Batch.Items.{plain_item, single_authorize_request_lem}
use treetop_client_go.Limits.{validate_request_limits}
use treetop_client_go.Decision.{AuthorizeDecisionBrief, PolicyVersion, brief}
use treetop_client_go.Response.{
  AuthorizeResponse, BatchResult, BatchStatus, IndexedResult, failed, other_status, success,
}
use treetop_client_go.Response.Consistent.{IsPayload, ItemsFit}
use treetop_client_go.Client.Authorize.{
  Settings, authorize, decided, is_allow, is_allowed, single_verdict, verdict,
}
use treetop_client_go.Client.Authorize.Sound.{authorize_iff}
use treetop_client_go.Client.Authorize.Verdict.{single}

module _ (p : Settings) (exchange : Bytes → Result (AuthorizeResponse AuthorizeDecisionBrief)) where
  -- The single result is a verdict, or a failure with the error that `IsAllowed` returns.
  abbrev pub Outcome : List (IndexedResult AuthorizeDecisionBrief) → Result Bool → Type 0
  Outcome rs out =
      (r : IndexedResult AuthorizeDecisionBrief) × (rs ≡ r ∷ [])
      × (((v : Bool) × (out ≡ ok v) × (r.batch.status ≡ success))
          ⊎ ((out ≡ err (evaluation (arg r.batch.error ∷ []))) × (r.batch.status ≡ failed)))

  verdict_cases :
      (s : BatchStatus) (r : BatchResult AuthorizeDecisionBrief) (version : PolicyVersion)
      → IsPayload p.is_object brief version s r
      → ((v : Bool) × (verdict s r ≡ ok v) × (s ≡ success))
        ⊎ ((verdict s r ≡ err (evaluation (arg r.error ∷ []))) × (s ≡ failed))
  unfolding verdict decided
  verdict_cases success r version (t, e, _, _) = inl (is_allow t.decision, rw e, refl)
  verdict_cases failed r version payload = inr (refl, refl)
  verdict_cases (other_status s) r version payload = absurd payload

  single_verdict-Outcome :
      (rs : List (IndexedResult AuthorizeDecisionBrief)) (version : PolicyVersion)
      → length rs ≡ 1
      → ItemsFit p.is_object brief version 0 rs
      → Outcome rs (single_verdict rs)
  unfolding single_verdict
  single_verdict-Outcome [] version one items = absurd (omega arith)
  single_verdict-Outcome (r ∷ []) version one items =
      (r, refl, verdict_cases r.batch.status r.batch version items.1)
  single_verdict-Outcome (r ∷ s ∷ rs) version one items = absurd (omega arith)

  -- Whenever `Authorize` accepts a response for the plain item of a request, `IsAllowed` returns
  -- what its one result says: a verdict where it is a success, and an evaluation error with the
  -- error text of the server where it failed. It never finds a result missing. The limits are those
  -- that the configuration lets through, with `MaxContextBytes` below the greatest int64.
  pub is_allowed-Outcome :
      (request : Request) (response : AuthorizeResponse AuthorizeDecisionBrief)
      → suc_ℤ p.limits.max_context_bytes ≤ℤ pos max_int64
      → validate_request_limits p.limits ≡ pass
      → authorize p brief exchange (some (single p exchange request)) ≡ ok response
      → Outcome response.results (is_allowed p exchange request)
  unfolding is_allowed
  is_allowed-Outcome request response bounded good h =
      let (v, _, _, (c, _)) =
        (authorize_iff p brief exchange (single p exchange request) response bounded good).0 h in
      let item = (validate_auth_request_iff p.net (plain_item request)).1 v.0.0 in
      let batch = (validate_batch_iff p.net (plain_item request ∷ [])).1 v in
      rw (single_authorize_request_lem p.net request item batch, h)
        (single_verdict-Outcome response.results response.version c.complete c.items)
