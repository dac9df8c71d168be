-- ===== src/Server/Decisions/RoundTrip.antt =====
-- The flattened form of a result is decoded to the result.
use treetop_client_go.Response.{BatchStatus, IndexedResult, failed, success}
use treetop_client_go.Base.{Bytes, Option, [], bytes_eq, none, put, refl, some, true, ◌≡◌, ◌≢◌}
use treetop_client_go.Base.Int.{negsuc, pos, ℤ}
use treetop_client_go.Errors.{Result, ok, ◌>>=◌}
use treetop_client_go.Text.Runes.{runes}
use treetop_client_go.Text.Runes.Utf8.{coerced-valid, utf8_runs, valid_utf8}
use treetop_client_go.Json.{
  Json, array, boolean, integer, integer_json, null, object, object_of, other_number, read_int64,
  read_pointer, read_string, string, string_json,
}
use treetop_client_go.Json.Fields.{
  each_field, keep, map_entries, matches, members_of, plain_field, pointer_field, raw_field,
  read_map, required,
}
use treetop_client_go.Json.Fields.Keeps.{OnSome}
use treetop_client_go.Codec.Attributes.RoundTrip.{IsInt64, int64_lem}
use treetop_client_go.Server.Decisions.{
  batch_result_from_json, batch_result_json, failure_from, failure_json, id_entry,
  indexed_result_from_json, indexed_result_json, result_from, result_json, status_of, success_from,
  success_json,
}
use treetop_client_go.Server.Decisions.Tagged.{IsTagged}

-- The index is a 64-bit integer, and the texts are UTF-8.
abbrev pub IsWritableResult : {T : Type 0} → IndexedResult T → Type 0
IsWritableResult r =
    IsInt64 r.index × OnSome (λ id. valid_utf8 id ≡ true) r.id × (valid_utf8 r.batch.error ≡ true)

-- A payload is written, as something else than null, and decoded from what is written.
abbrev pub IsReadBack : {T : Type 0} → (T → Result Json) → (Json → Result T) → T → Type 0
IsReadBack encode decode t = (j : Json) × (encode t ≡ ok j) × (decode j ≡ ok t) × (j ≢ null)

index_lem : (n : ℤ) → IsInt64 n → read_pointer read_int64 (integer_json n) ≡ ok (some n)
unfolding read_pointer integer_json
index_lem (pos n) h = unfold integer_json in rw (int64_lem (pos n) h)
index_lem (negsuc n) h = unfold integer_json in rw (int64_lem (negsuc n) h)

module _ {T : Type 0} (encode : T → Result Json) (decode : Json → Result T) where
  success_from_lem :
      (j : Json) (t : T)
      → decode j ≡ ok t
      → j ≢ null
      → success_from encode decode (some j) none
        ≡ ok (record { status = success; result = some t; error = [] })
  unfolding success_from
  success_from_lem null t e n = absurd (n refl)
  success_from_lem (boolean b) t e n = rw e
  success_from_lem (integer s m) t e n = rw e
  success_from_lem (other_number s) t e n = rw e
  success_from_lem (string s) t e n = rw e
  success_from_lem (array vs) t e n = rw e
  success_from_lem (object ms) t e n = rw e

  abbrev flat : ℤ → Option Bytes → BatchStatus → Option T → Bytes → IndexedResult T
  flat n id s o e = record {
    index = n;
    id = id;
    batch = record { status = s; result = o; error = e };
  }

  abbrev Returns : IndexedResult T → Type 0
  Returns r =
      (indexed_result_json encode decode r >>= indexed_result_from_json encode decode) ≡ ok r

  flat_lem :
      (n : ℤ) (id : Option Bytes) (s : BatchStatus) (o : Option T) (e : Bytes)
      → OnSome (IsReadBack encode decode) o
      → IsTagged s o e
      → IsWritableResult (flat n id s o e)
      → Returns (flat n id s o e)
  unfolding indexed_result_json batch_result_json result_json success_json failure_json id_entry
      indexed_result_from_json batch_result_from_json result_from failure_from status_of read_map
      map_entries put object_of members_of pointer_field plain_field raw_field each_field keep
      required matches runes utf8_runs bytes_eq read_string string_json read_pointer
  flat_lem n none success (some t) [] c h w =
      let (j, a, b, d) = c in rw (a, index_lem n w.0, success_from_lem j t b d)
  flat_lem n (some id) success (some t) [] c h w =
      let (j, a, b, d) = c in
      rw (a, index_lem n w.0, coerced-valid id w.1, success_from_lem j t b d)
  flat_lem n none failed none e c h w = rw (index_lem n w.0, coerced-valid e w.2)
  flat_lem n (some id) failed none e c h w =
      rw (index_lem n w.0, coerced-valid id w.1, coerced-valid e w.2)
  flat_lem n id _ _ _ c h w = absurd h

  -- A result that is a success with a payload and no error, or a failure without a payload, is decoded
  -- from its flattened JSON form. The payload, if there is one, is written, not as null, and decoded from
  -- what is written; the index has 64 bits and the texts are UTF-8.
  pub indexed_result_from_json-indexed_result_json :
      (r : IndexedResult T)
      → OnSome (IsReadBack encode decode) r.batch.result
      → IsTagged r.batch.status r.batch.result r.batch.error
      → IsWritableResult r
      → (indexed_result_json encode decode r >>= indexed_result_from_json encode decode) ≡ ok r
  indexed_result_from_json-indexed_result_json r c h w =
      flat_lem r.index r.id r.batch.status r.batch.result r.batch.error c h w
