-- ===== src/Response/Consistent.antt =====
-- Which responses `validateAuthorizeResponseStructure` accepts.
use treetop_client_go.Base.{
  ==_iff, Bool, Bytes, List, Option, [], arith, false, is_empty, length, none, not, refl, some,
  subst, sym, ℕ, ◌+◌, ◌-◌, ◌==◌, ◌||◌, ◌↔◌, ◌∷◌, ◌≡◌,
}
use treetop_client_go.Base.Int.{eq_ℤ, pos, ℤ}
use treetop_client_go.Errors.{
  >>=-eq-ok, >>_iff, iff_trans, ok, pass, refuse_if_iff, refuse_unless_iff, ×_iff,
}
use treetop_client_go.Decision.{AnyDecision, PolicyVersion, is_zero}
use treetop_client_go.Response.{
  AuthorizeResponse, BatchResult, BatchStatus, IndexedResult, check_counts, check_failure,
  check_status, check_success, failed, other_status, results_loop, success, validate_structure,
}
use treetop_client_go.Decision.Fits.{DecisionFits, eq_ℤ_iff, validate_decision_iff}

or_false_iff : (a b : Bool) → ((a || b) ≡ false) ↔ ((a ≡ false) × (b ≡ false))
or_false_iff a b = ground arith

module _ (is_object : Bytes → Bool) {T : Type 0} (any_of : T → AnyDecision) where
  -- A success has a fitting decision and no error; a failure has no decision.
  abbrev pub IsPayload : PolicyVersion → BatchStatus → BatchResult T → Type 0
  IsPayload version success r =
      (t : T) × (r.result ≡ some t) × (r.error ≡ []) × DecisionFits is_object version (any_of t)
  IsPayload version failed r = r.result ≡ none
  IsPayload version (other_status s) r = ⊥

  -- The items from a position on: each reports its own position.
  abbrev pub ItemsFit : PolicyVersion → ℕ → List (IndexedResult T) → Type 0
  ItemsFit version position [] = Unit
  ItemsFit version position (r ∷ rs) =
      (r.index ≡ pos position)
      × IsPayload version r.batch.status r.batch
      × ItemsFit version (position + 1) rs

  abbrev pub is_success : BatchStatus → ℕ
  is_success success = 1
  is_success _ = 0

  abbrev pub successes_in : List (IndexedResult T) → ℕ
  successes_in [] = 0
  successes_in (r ∷ rs) = is_success r.batch.status + successes_in rs

  abbrev Fits : PolicyVersion → Option T → Type 0
  Fits version none = ⊥
  Fits version (some t) = DecisionFits is_object version (any_of t)

  no_error : (error : Bytes) → (not (is_empty error) ≡ false) ↔ (error ≡ [])
  no_error [] = (λ _. refl, λ _. refl)
  no_error (b ∷ s) = (λ h. cc, λ h. cc)

  check_success_iff :
      (o : Option T) (error : Bytes) (version : PolicyVersion) (index : ℤ)
      → (check_success is_object any_of o error version index ≡ pass)
        ↔ ((t : T) × (o ≡ some t) × (error ≡ []) × DecisionFits is_object version (any_of t))
  unfolding check_success
  check_success_iff none error version index = (λ h. cc, λ w. cc w.1)
  check_success_iff (some t) error version index = (
    λ h.
        let (e, d) = (refuse_if_iff _ _ _).0 h in
        (
          t,
          refl,
          (no_error error).0 e,
          (validate_decision_iff is_object (any_of t) version index).0 d,
        ),
    λ w. (refuse_if_iff _ _ _).1 (
      (no_error error).1 w.2,
      (validate_decision_iff is_object (any_of t) version index).1
          (subst (Fits version) (sym w.1) w.3),
    ),
  )

  check_failure_iff :
      (o : Option T) (index : ℤ) → (check_failure is_object any_of o index ≡ pass) ↔ (o ≡ none)
  unfolding check_failure
  check_failure_iff none index = (λ _. refl, λ _. refl)
  check_failure_iff (some t) index = (λ h. cc, λ h. cc)

  check_status_iff :
      (s : BatchStatus) (r : BatchResult T) (version : PolicyVersion) (index : ℤ) (n m : ℕ)
      → (check_status is_object any_of s r version index n ≡ ok m)
        ↔ (IsPayload version s r × (n + is_success s ≡ m))
  unfolding check_status
  check_status_iff success r version index n m =
      iff_trans (>>_iff _ _)
        (×_iff (check_success_iff r.result r.error version index) (ground arith))
  check_status_iff failed r version index n m =
      iff_trans (>>_iff _ _) (×_iff (check_failure_iff r.result index) (ground arith))
  check_status_iff (other_status s) r version index n m = (λ h. cc, λ w. absurd w.0)

  -- The loop succeeds on the fitting items alone, and then returns the number of successes.
  results_loop_iff :
      (version : PolicyVersion) (position : ℕ) (rs : List (IndexedResult T)) (n m : ℕ)
      → (results_loop is_object any_of version position rs n ≡ ok m)
        ↔ (ItemsFit version position rs × (n + successes_in rs ≡ m))
  unfolding results_loop
  results_loop_iff version position [] n m = (λ h. (tt, ground arith), λ w. ground arith)
  results_loop_iff version position (r ∷ rs) n m = (
    λ h.
        let (i, h') = (refuse_unless_iff (eq_ℤ r.index (pos position)) _ _).0 h in
        let (n', s, l) =
          >>=-eq-ok (check_status is_object any_of r.batch.status r.batch version r.index n)
            (results_loop is_object any_of version (position + 1) rs) h' in
        let (p, e) = (check_status_iff r.batch.status r.batch version r.index n n').0 s in
        let (rest, e') = (results_loop_iff version (position + 1) rs n' m).0 l in
        (((eq_ℤ_iff r.index (pos position)).0 i, p, rest), omega arith),
    λ w. (refuse_unless_iff (eq_ℤ r.index (pos position)) _ _).1 (
      (eq_ℤ_iff r.index (pos position)).1 w.0.0,
      rw
          ((check_status_iff r.batch.status r.batch version r.index n
              (n + is_success r.batch.status)).1
            (w.0.1, refl))
          ((results_loop_iff version (position + 1) rs (n + is_success r.batch.status) m).1
            (w.0.2, omega arith)),
    ),
  )

  check_counts_iff :
      (r : AuthorizeResponse T) (n : ℕ)
      → (check_counts is_object any_of r n ≡ pass)
        ↔ ((r.successful ≡ pos n) × (r.failed ≡ pos (length r.results - n)))
  unfolding check_counts
  check_counts_iff r n =
      ground (arith, eq_ℤ_iff r.successful (pos n), eq_ℤ_iff r.failed (pos (length r.results - n)))

  -- What an accepted response is: as many items as were asked for, each at its own position, a policy
  -- version that is present and that every decision repeats, and counts that add up.
  pub record IsConsistent (r : AuthorizeResponse T) (expected : ℕ) : Type 0 where
    pub complete : length r.results ≡ expected
    pub hashed : is_empty r.version.hash ≡ false
    pub loaded : is_zero r.version.loaded_at ≡ false
    pub items : ItemsFit r.version 0 r.results
    pub success_count : r.successful ≡ pos (successes_in r.results)
    pub failure_count : r.failed ≡ pos (length r.results - successes_in r.results)

  -- `validateAuthorizeResponseStructure` accepts exactly the consistent responses.
  pub validate_structure_iff :
      (r : AuthorizeResponse T) (expected : ℕ)
      → (validate_structure is_object any_of (some r) expected ≡ pass) ↔ IsConsistent r expected
  unfolding validate_structure
  validate_structure_iff r expected = (
    λ h.
        let (c, h1) = (refuse_unless_iff (length r.results == expected) _ _).0 h in
        let (v, h2) =
          (refuse_if_iff (is_empty r.version.hash || is_zero r.version.loaded_at) _ _).0 h1 in
        let (n, l, k) =
          >>=-eq-ok (results_loop is_object any_of r.version 0 r.results 0)
            (check_counts is_object any_of r) h2 in
        let (fits, e) = (results_loop_iff r.version 0 r.results 0 n).0 l in
        let (s, f) = (check_counts_iff r n).0 k in
        let same : n ≡ successes_in r.results = omega arith in
        record {
          complete = (==_iff (length r.results) expected).0 c;
          hashed = ((or_false_iff (is_empty r.version.hash) (is_zero r.version.loaded_at)).0 v).0;
          loaded = ((or_false_iff (is_empty r.version.hash) (is_zero r.version.loaded_at)).0 v).1;
          items = fits;
          success_count = rw (← same) s;
          failure_count = rw (← same) f;
        },
    λ w. (refuse_unless_iff (length r.results == expected) _ _).1 (
      (==_iff (length r.results) expected).1 w.complete,
      (refuse_if_iff (is_empty r.version.hash || is_zero r.version.loaded_at) _ _).1 (
        (or_false_iff (is_empty r.version.hash) (is_zero r.version.loaded_at)).1
            (w.hashed, w.loaded),
        rw
            ((results_loop_iff r.version 0 r.results 0 (successes_in r.results)).1
              (w.items, omega arith))
            ((check_counts_iff r (successes_in r.results)).1 (w.success_count, w.failure_count)),
      ),
    ),
  )
