-- ===== src/Lib.antt =====
-- The Go client of the Treetop policy engine: what it builds, checks and sends, and what it accepts.
--
-- An application constructs Cedar values (namespaces, entity IDs, users, groups, actions, resources
-- with attributes), puts requests of them into a batch, and asks the client for decisions. The client
-- validates the batch, checks its limits, turns it into wire values, encodes these within a size
-- limit, exchanges them with the server over HTTP, and validates the answer against the batch.
--
-- Parts, and the code that they model:
-- Base, Errors: names, lists, integers, and the errors of errors.go with the result type.
-- Text: "::" as a separator for strings.Index, Split and Join, the UTF-8 decoding of a range loop
--   over a string, and what encoding/json writes of a string that is not UTF-8.
-- Validation: validation.go, one function for each of its functions.
-- Cedar: cedar_types.go, `NewNamespace`, `ParseNamespace`, `Segments`, entity types, entity IDs and
--   request IDs.
-- Attr: `AttrValue` of request_types.go with its `Validate`, and `attrDepth` of authorization_request.go.
-- Json: values as encoding/json hands them to a decoder, and the rules by which it decodes them into
--   strings, numbers, pointers, structs, slices and maps.
-- Options, Entities, Request: the rest of request_types.go but for its codecs. A functional option is a function that
--   changes the value under construction or fails; `apply_all` is the loop over them.
-- Batch: `AuthRequest` and `AuthorizeRequest` of authorization_request.go. `batch_loop` is the loop of
--   `Validate`, with the IDs seen so far in place of the map.
-- Limits: `validateLimits` of authorization_request.go and `RequestLimits` of response_types.go.
-- Wire: wire_types.go.
-- Transport: of transport.go, `encodeJSONBounded` and `limitedBuffer` (Encode), the headers that
--   `newRequest` sets (Headers), `readBounded` (Read), and `decodeJSON`, `decodeText`
--   and `apiError` (Answer), where a response is an `Answer`, and `Reader` and `Target` hold what the
--   client and package json give.
-- Decision, Response: of response_types.go, policy versions and decisions, then responses, with their
--   validation. The check of a listed policy is `validateResponse` of response_validation.go.
-- Codec: the `MarshalJSON` and `UnmarshalJSON` methods of cedar_types.go, request_types.go and
--   authorization_request.go, and what the tags of wire_types.go make of the wire values.
-- Server: response_validation.go and the documents of response_types.go. The decoder of a document is
--   `x_from_json`; where it ends in `validateResponse`, its part before that is `x_fields`. Brief
--   decisions and policy versions are also written (Decisions.Brief, Versions.Written).
-- Config: options.go and client.go. An option is a constructor of `ClientOption`; `apply_option` is the
--   function that it is. Url has base URLs and endpoints, Http `buildHTTPClient`, Make `New`, Upload
--   the uploaders of uploader.go, and Query the query for the policies of a user of endpoints.go.
-- Client.Authorize: `Authorize`, `AuthorizeDetailed` and `IsAllowed` of endpoints.go.
-- Builder: request_builder.go; the setters return the changed builder. Input: request_input.go.
-- Token: token.go. A token is the address of an array in a heap, so that copies share the bytes that
--   `Destroy` clears. Redact has `redactSecrets`, where `sort.Slice`, which orders values of equal
--   length as it likes, is an insertion sort.
-- Tests: instances of the theorems.
--
-- Strings are lists of bytes. A Go map is the list of its entries, in the order in which `range` gives
-- them; the order is arbitrary, and theorems hold for each. A value beside a non-nil error is not
-- modelled. Native integers of the program that are counters or lengths are natural numbers: none of
-- them passes the length of a value in memory. Sizes and limits are signed integers.
--
-- Loops without a structural argument run on fuel: `path_loop` on the length of the path and one
-- round more, since each round drops a separator at least; `validate_loop` and `depth_loop` on the
-- number of values in the attribute, since each round takes one of them off the stack. The theorems on
-- these loops are on all inputs, so the fuel is enough.
--
-- encoding/json: a value is decoded field by field, in the order of the struct. Where more than one
-- field fails, the error of the earliest stands for whichever the package reports. The members of a
-- map are written in the order of its entries. Slices are decoded into new memory.
--
-- Parameters: package net (`Net`), whether a text is a JSON object (`is_object`), the JSON encoder
-- (`encode_context`, `encode_batch`), what package io reads of a body (`read_all`), the exchange with
-- the server together with the decoding of its answer (`exchange`), what encoding/json decodes of a body
-- (`Envelope`, `Target`), strings.ToValidUTF8 (`to_valid_utf8`), the texts that time.Time and
-- url.Parse read (`Formats`) and that time.Time writes (`write_time`), the text that a json.RawMessage keeps (`raw`), the codec of a payload,
-- net/url, net.ParseIP and string comparison for base URLs (`Urls`; `unescape` is url.PathUnescape), certificate pools with the
-- default transport (`Trust`), and strings.NewReplacer (`replace`).
--
-- Not modelled: the parser and the printer of encoding/json, the text of the error of url.Parse in a
-- message, `String` and `CloseIdleConnections` of the client, HTTP itself, probes
-- and downloads, the sending of uploads, and the texts of errors.
pub mod Base
pub mod Errors
pub mod Text
pub mod Validation
pub mod Cedar
pub mod Attr
pub mod Options
pub mod Json
pub mod Entities
pub mod Request
pub mod Batch
pub mod Wire
pub mod Transport
pub mod Limits
pub mod Decision
pub mod Response
pub mod Codec
pub mod Server
pub mod Client
pub mod Builder
pub mod Input
pub mod Token
pub mod Config
pub mod Tests
