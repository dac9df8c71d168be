-- ===== src/Server/Decisions/Tagged.antt =====
-- A decoded result is a success with a payload or a failure without one.
use treetop_client_go.Errors.{Result, ok}
use treetop_client_go.Response.{
  AuthorizeResponse, BatchResult, BatchStatus, IndexedResult, failed, other_status, success,
}
use treetop_client_go.Errors.Ensures.{Ensures, ensured, from-Ensures, then-Ensures}
use treetop_client_go.Json.Fields.{
  members_of, plain_field, pointer_field, raw_field, required, struct_field,
}
use treetop_client_go.Base.{All, Bytes, Option, [], codes, none, some, ◌≡◌}
use treetop_client_go.Json.{Json, null}
use treetop_client_go.Json.Fields.Keeps.{
  OnSome, pointer_field_keeps, read_array_keeps, required_keeps,
}
use treetop_client_go.Server.{Formats}
use treetop_client_go.Server.Versions.{version_of}
use treetop_client_go.Server.Versions.Valid.{
  IsInRange, IsVersion, version_field-IsInRange, version_of-IsVersion,
}
use treetop_client_go.Server.Decisions.{
  authorize_response_from_json, batch_result_from_json, failure_from, indexed_result_from_json,
  result_from, status_of, success_from,
}

module _ {T : Type 0} where
  abbrev pub IsTagged : BatchStatus → Option T → Bytes → Type 0
  IsTagged success (some t) [] = Unit
  IsTagged failed none error = Unit
  IsTagged _ _ _ = ⊥

  abbrev pub IsTaggedResult : BatchResult T → Type 0
  IsTaggedResult r = IsTagged r.status r.result r.error

  abbrev pub IsDecoded : AuthorizeResponse T → Type 0
  IsDecoded r =
      All (λ (i : IndexedResult T). IsTaggedResult i.batch) r.results × IsVersion r.version

module _ {T : Type 0} (encode : T → Result Json) (decode : Json → Result T) where
  result_from-IsTagged :
      (s : BatchStatus) (result : Option Json) (e : Option Bytes)
      → Ensures IsTaggedResult (result_from encode decode s result e)
  unfolding result_from success_from failure_from
  result_from-IsTagged success none e = tt
  result_from-IsTagged success (some null) e = tt
  result_from-IsTagged success (some v) (some e) = tt
  result_from-IsTagged success (some v) none = then-Ensures IsTaggedResult (decode v) _ (λ t. tt)
  result_from-IsTagged failed none none = tt
  result_from-IsTagged failed none (some e) = tt
  result_from-IsTagged failed (some v) e = tt
  result_from-IsTagged (other_status s) result e = tt

  batch_result_from_json-IsTagged :
      (v : Json) → Ensures IsTaggedResult (batch_result_from_json encode decode v)
  unfolding batch_result_from_json
  batch_result_from_json-IsTagged v = then-Ensures IsTaggedResult (members_of v) _ (λ ms.
      then-Ensures IsTaggedResult (plain_field (codes "status") _ _ ms) _ (λ s.
        then-Ensures IsTaggedResult (raw_field (codes "result") ms) _ (λ r.
          then-Ensures IsTaggedResult (pointer_field (codes "error") _ ms) _
            (λ e. result_from-IsTagged (status_of s) r e))))

  abbrev IsTaggedItem : IndexedResult T → Type 0
  IsTaggedItem i = IsTaggedResult i.batch

  indexed_result_from_json-Ensures :
      (v : Json) → Ensures IsTaggedItem (indexed_result_from_json encode decode v)
  unfolding indexed_result_from_json
  indexed_result_from_json-Ensures v = then-Ensures IsTaggedItem (members_of v) _ (λ ms.
      then-Ensures IsTaggedItem (pointer_field (codes "index") _ ms) _ (λ i.
        then-Ensures IsTaggedItem (pointer_field (codes "id") _ ms) _ (λ id.
          then-Ensures IsTaggedItem (required _ i) _ (λ i'.
            from-Ensures IsTaggedResult IsTaggedItem (batch_result_from_json encode decode v) _
              (batch_result_from_json-IsTagged v) (λ b p. p)))))

  authorize_response_from_json-Ensures :
      (formats : Formats) (v : Json)
      → Ensures IsDecoded (authorize_response_from_json encode decode formats v)
  unfolding authorize_response_from_json
  authorize_response_from_json-Ensures formats v = then-Ensures IsDecoded (members_of v) _ (λ ms.
      from-Ensures (OnSome (All IsTaggedItem)) IsDecoded (pointer_field (codes "results") _ ms) _
        (pointer_field_keeps (All IsTaggedItem) (codes "results") _ ms
          (λ v. read_array_keeps IsTaggedItem _ v indexed_result_from_json-Ensures))
        (λ results tagged.
          from-Ensures (OnSome IsInRange) IsDecoded (struct_field (codes "version") _ _ ms) _
            (version_field-IsInRange formats (codes "version") ms)
            (λ version range.
              then-Ensures IsDecoded (pointer_field (codes "successful") _ ms) _ (λ n.
                then-Ensures IsDecoded (pointer_field (codes "failed") _ ms) _ (λ m.
                  from-Ensures (All IsTaggedItem) IsDecoded (required _ results) _
                    (required_keeps (All IsTaggedItem) _ results tagged)
                    (λ rs t.
                      from-Ensures IsInRange IsDecoded (required _ version) _
                        (required_keeps IsInRange _ version range)
                        (λ w g. then-Ensures IsDecoded (required _ n) _ (λ n'.
                          then-Ensures IsDecoded (required _ m) _ (λ m'.
                            from-Ensures IsVersion IsDecoded (version_of w) _
                              (version_of-IsVersion w g) (λ v p. (t, p)))))))))))

  -- Whatever is decoded as an authorization response has a policy version with a hash, a time and a
  -- generation of 64 bits, and each of its results is a success with a payload and no error, or a
  -- failure without a payload.
  pub authorize_response_from_json-IsDecoded :
      (formats : Formats) (v : Json) (r : AuthorizeResponse T)
      → authorize_response_from_json encode decode formats v ≡ ok r
      → IsDecoded r
  authorize_response_from_json-IsDecoded formats v r h =
      ensured IsDecoded (authorize_response_from_json encode decode formats v)
        (authorize_response_from_json-Ensures formats v) h
