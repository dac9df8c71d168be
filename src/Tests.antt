-- ===== src/Tests.antt =====
-- Sample values for the instances of the theorems.
pub mod Clients
pub mod Values
pub mod Requests
pub mod Codecs
pub mod Servers
pub mod Configs
pub mod Decisions
pub mod Escapes
use treetop_client_go.Base.{
  Bool, Bytes, List, Option, [], bytes_eq, codes, false, none, some, true, ◌∷◌,
}
use treetop_client_go.Base.Int.{pos, ℤ}
use treetop_client_go.Validation.{Net}
use treetop_client_go.Cedar.{EntityId, global}
use treetop_client_go.Attr.{
  AttrValue, attr, attr_set, empty, ip_type, item, long, long_type, set_type, str,
}
use treetop_client_go.Entities.{Action, Group, User, user_principal}
use treetop_client_go.Request.{Request, Resource}
use treetop_client_go.Batch.{AuthRequest}
use treetop_client_go.Limits.{default_request_limits}
use treetop_client_go.Decision.{AuthorizeDecisionBrief, Decision, PolicyVersion, allow, deny}
use treetop_client_go.Response.{AuthorizeResponse, IndexedResult, failed, success}
use treetop_client_go.Client.Authorize.{Settings}
use treetop_client_go.Wire.{AttrMapWire, set}

abbrev net : Net
net = record { is_ip = bytes_eq (codes "10.0.0.1"); is_cidr = λ s. false }

abbrev is_object : Bytes → Bool
is_object s = bytes_eq s (codes "{}")

abbrev encode_context : AttrMapWire → Option Bytes
encode_context m = some (codes "{}")

abbrev id_of : Bytes → EntityId
id_of s = record { value = s; set = true }

abbrev admins : Group
admins = record { id = id_of (codes "admins"); namespace = global }

abbrev alice : User
alice = record {
  id = id_of (codes "alice");
  namespace = record { path = codes "App::Core" };
  groups = admins ∷ [];
}

abbrev view : Action
view = record { id = id_of (codes "view"); namespace = global }

abbrev sizes : AttrValue
sizes =
    attr_set set_type
      (item (attr long_type (long (pos 3))) (item (attr ip_type (str (codes "10.0.0.1"))) empty))

abbrev photo : Resource
photo = record {
  kind = record { name = codes "App::Photo" };
  id = id_of (codes "p1");
  attrs = (codes "sizes", sizes) ∷ [];
}

abbrev view_photo : Request
view_photo = record { principal = user_principal alice; action = view; resource = photo }

abbrev named : Bytes → AuthRequest
named id = record {
  id = record { value = id; set = true };
  context = (codes "ip", sizes) ∷ [];
  request = view_photo;
}

abbrev batch : List AuthRequest
batch = named (codes "a") ∷ named (codes "b") ∷ []

abbrev version : PolicyVersion
version = record { hash = codes "f00d"; loaded_at = pos 7; label_set = none; generation = 2 }

abbrev decided_brief : Decision → Bytes → AuthorizeDecisionBrief
decided_brief d policy_id = record { decision = d; version = version; policy_id = policy_id }

abbrev succeeded : ℤ → Option Bytes → AuthorizeDecisionBrief → IndexedResult AuthorizeDecisionBrief
succeeded i id d = record {
  index = i;
  id = id;
  batch = record { status = success; result = some d; error = [] };
}

-- The answer to one item without an ID.
abbrev allowed : AuthorizeResponse AuthorizeDecisionBrief
allowed = record {
  results = succeeded (pos 0) none (decided_brief allow (codes "policy0")) ∷ [];
  version = version;
  successful = pos 1;
  failed = pos 0;
}

-- The answer to the two items of the batch.
abbrev mixed : AuthorizeResponse AuthorizeDecisionBrief
mixed = record {
  results =
      succeeded (pos 0) (some (codes "a")) (decided_brief deny [])
      ∷ (record {
        index = pos 1;
        id = some (codes "b");
        batch = record { status = failed; result = none; error = codes "no" };
      })
      ∷ [];
  version = version;
  successful = pos 1;
  failed = pos 1;
}

abbrev settings : Settings
settings = record {
  net = net;
  is_object = is_object;
  encode_context = encode_context;
  encode_batch = λ w. some (codes "{}");
  limits = default_request_limits;
  max_request_bytes = pos 100;
}
