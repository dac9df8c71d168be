-- ===== src/Client/Authorize/Verdict.antt =====
-- What the verdict of `IsAllowed` rests on.
use treetop_client_go.Base.{
  Bool, Bytes, List, [], false, inl, inr, is_empty, refl, some, true, ◌∷◌, ◌≡◌, ◌⊎◌,
}
use treetop_client_go.Base.Int.{max_int64, pos, suc_ℤ, ◌≤ℤ◌}
use treetop_client_go.Errors.{>>=-eq-ok, Result, ok, pass}
use treetop_client_go.Request.{Request}
use treetop_client_go.Batch.{AuthRequest, single_authorize_request}
use treetop_client_go.Batch.Items.{plain_item, single_authorize_request-eq-ok}
use treetop_client_go.Limits.{validate_request_limits}
use treetop_client_go.Decision.{
  AuthorizeDecisionBrief, Decision, PolicyVersion, allow, brief, deny, other_decision,
}
use treetop_client_go.Response.{
  AuthorizeResponse, BatchResult, BatchStatus, IndexedResult, failed, other_status, success,
}
use treetop_client_go.Decision.Fits.{IsDecided}
use treetop_client_go.Response.Consistent.{IsPayload, ItemsFit}
use treetop_client_go.Client.Authorize.{
  Settings, authorize, decided, is_allow, is_allowed, single_verdict, verdict,
}
use treetop_client_go.Client.Authorize.Sound.{authorize_iff}

-- A verdict is the decision of a policy match: true is Allow with a policy, false is Deny without one.
abbrev pub IsVerdict : Bool → AuthorizeDecisionBrief → Type 0
IsVerdict true d = (d.decision ≡ allow) × (is_empty d.policy_id ≡ false)
IsVerdict false d = (d.decision ≡ deny) × (is_empty d.policy_id ≡ true)

decision_verdict :
    (d : Decision) (unmatched v : Bool)
    → IsDecided d unmatched
    → ok (is_allow d) ≡ ok v
    → ((v ≡ true) × (d ≡ allow) × (unmatched ≡ false))
      ⊎ ((v ≡ false) × (d ≡ deny) × (unmatched ≡ true))
unfolding is_allow
decision_verdict allow unmatched v h e = inl (cc, refl, h)
decision_verdict deny unmatched v h e = inr (cc, refl, h)
decision_verdict (other_decision s) unmatched v h e = absurd h

IsVerdict-IsDecided :
    (d : AuthorizeDecisionBrief) (v : Bool)
    → ((v ≡ true) × (d.decision ≡ allow) × (is_empty d.policy_id ≡ false))
      ⊎ ((v ≡ false) × (d.decision ≡ deny) × (is_empty d.policy_id ≡ true))
    → IsVerdict v d
IsVerdict-IsDecided d v (inl w) = rw w.0 (w.1, w.2)
IsVerdict-IsDecided d v (inr w) = rw w.0 (w.1, w.2)

module _ (p : Settings) (exchange : Bytes → Result (AuthorizeResponse AuthorizeDecisionBrief)) where
  -- The batch that `IsAllowed` sends: one item, with no ID and no context.
  abbrev pub single : Request → List AuthRequest
  single request = plain_item request ∷ []

  -- The one result that a verdict is read from.
  abbrev pub IsJudged : AuthorizeResponse AuthorizeDecisionBrief → Bool → Type 0
  IsJudged response v =
      (r : IndexedResult AuthorizeDecisionBrief) × (d : AuthorizeDecisionBrief) × (response.results
        ≡ r ∷ [])
      × (r.batch.result ≡ some d)
      × (d.version ≡ response.version)
      × IsVerdict v d

  verdict-IsVerdict :
      (s : BatchStatus) (r : BatchResult AuthorizeDecisionBrief) (version : PolicyVersion)
      (v : Bool)
      → IsPayload p.is_object brief version s r
      → verdict s r ≡ ok v
      → (d : AuthorizeDecisionBrief) × (r.result ≡ some d) × (d.version ≡ version) × IsVerdict v d
  unfolding verdict decided
  verdict-IsVerdict success r version v (t, e, _, (same, h)) q = (
    t,
    e,
    same,
    IsVerdict-IsDecided t v (decision_verdict t.decision _ v h (rw (e, decided) at q)),
  )
  verdict-IsVerdict failed r version v payload q = cc
  verdict-IsVerdict (other_status s) r version v payload q = absurd payload

  single_verdict-IsVerdict :
      (rs : List (IndexedResult AuthorizeDecisionBrief)) (version : PolicyVersion) (v : Bool)
      → ItemsFit p.is_object brief version 0 rs
      → single_verdict rs ≡ ok v
      → (r : IndexedResult AuthorizeDecisionBrief) × (d : AuthorizeDecisionBrief) × (rs ≡ r ∷ [])
        × (r.batch.result ≡ some d)
        × (d.version ≡ version)
        × IsVerdict v d
  unfolding single_verdict
  single_verdict-IsVerdict [] version v items q = cc
  single_verdict-IsVerdict (r ∷ []) version v items q =
      let (d, e, same, h) = verdict-IsVerdict r.batch.status r.batch version v items.1 q in
      (r, d, refl, e, same, h)
  single_verdict-IsVerdict (r ∷ s ∷ rs) version v items q = cc

  -- `IsAllowed` answers true or false only on a response that `Authorize` accepted for the one item
  -- sent: true where its only result is a decision Allow with a policy, false where it is Deny with
  -- none, in both cases under the policy version of the response. The limits are those that the
  -- configuration lets through, with `MaxContextBytes` below the greatest int64.
  pub is_allowed-IsJudged :
      (request : Request) (v : Bool)
      → suc_ℤ p.limits.max_context_bytes ≤ℤ pos max_int64
      → validate_request_limits p.limits ≡ pass
      → is_allowed p exchange request ≡ ok v
      → (response : AuthorizeResponse AuthorizeDecisionBrief) × (authorize p brief exchange
            (some (single request))
          ≡ ok response)
        × IsJudged response v
  unfolding is_allowed
  is_allowed-IsJudged request v bounded good h =
      let (batch, s, h1) = >>=-eq-ok (single_authorize_request p.net request) _ h in
      let (response, a, q) = >>=-eq-ok (authorize p brief exchange (some batch)) _ h1 in
      let same = single_authorize_request-eq-ok p.net request batch s in
      let accepted : authorize p brief exchange (some (single request)) ≡ ok response =
        rw (← same) a in
      let (_, _, _, (c, _)) =
        (authorize_iff p brief exchange (single request) response bounded good).0 accepted in
      (response, accepted, single_verdict-IsVerdict response.results response.version v c.items q)
