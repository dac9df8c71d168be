-- ===== src/Server.antt =====
-- response_validation.go and response_types.go: what the client decodes of the server's documents.
use treetop_client_go.Json.Fields.{json_runs}
use treetop_client_go.Errors.{Check, Err, Result, err, invalid_response, ok, text, ◌>>=◌, ◌>>◌}
use treetop_client_go.Json.{Json, read_string, type_error}
use treetop_client_go.Base.Int.{pos}
pub mod Versions
pub mod Decisions
pub mod Metadata
pub mod Status
pub mod Policies
pub mod Documents
use treetop_client_go.Base.{Bool, Bytes, Option, String, none, some}
use treetop_client_go.Decision.{Time}

-- The texts that other packages read: `parse_time` is what `time.Time` makes of a JSON string, and
-- `is_absolute` tells whether `url.Parse` succeeds with a scheme and a host.
pub record Formats : Type 0 where
  pub parse_time : Bytes → Option Time
  pub is_absolute : Bytes → Bool

-- The zero `time.Time`.
abbrev pub zero_time : Time
zero_time = pos 0

-- `invalidResponse`
pub bad_response : String → Err
bad_response message = invalid_response (text message)

module _ (formats : Formats) where
  time_of : Option Time → Result Time
  time_of none = err type_error
  time_of (some t) = ok t

  pub read_time : Json → Result Time
  read_time v = read_string v >>= λ s. time_of (formats.parse_time s)

-- `return v.validateResponse()`, with the value that was assigned.
abbrev pub validated : {A : Type 0} → (A → Check) → A → Result A
validated validate a = validate a >> ok a

-- The definitions of this file, for a test by evaluation.
unfoldable pub server_runs : Unit {0}
unfolding json_runs bad_response time_of read_time
server_runs = tt
