-- ===== src/Cedar/Valid.antt =====
-- What the validators of IDs and namespaces accept.
use mathlib.Core.Bool.{false≢true}
use treetop_client_go.Base.{
  All, Bool, Bytes, [], ap, arith, false, if◌then◌else◌, not, refl, sym, true, ◌↔◌, ◌∷◌, ◌≡◌,
}
use treetop_client_go.Errors.{Message, iff_trans, ok, pass, refuse_if_iff, text, ×_iff}
use treetop_client_go.Text.Split.{split}
use treetop_client_go.Text.Runes.{runes}
use treetop_client_go.Validation.{unsafe_in_id, validate_entity_id}
use treetop_client_go.Validation.Identifier.{IsIdentifier}
use treetop_client_go.Validation.Path.{validate_cedar_path_iff}
use treetop_client_go.Validation.Entity.{IsName, validate_entity_id_iff, validate_request_id_iff}
use treetop_client_go.Cedar.{
  EntityId, EntityType, Namespace, RequestId, new_entity_id, new_entity_type, new_request_id,
  segments, validate_id, validate_ns, validate_rid, validate_type,
}

-- No rune is a quote, a backslash or a control.
abbrev pub IsSafeId : Bytes → Type 0
IsSafeId s = All (λ r. unsafe_in_id r ≡ false) (runes s)

abbrev pub IsId : EntityId → Type 0
IsId id = (id.set ≡ true) × IsSafeId id.value

-- The global namespace, or Cedar identifiers between separators.
abbrev pub IsPath : Bytes → Type 0
IsPath [] = Unit
IsPath (c ∷ s) = All IsIdentifier (split (c ∷ s))

pub validate_id_iff : (field : Message) (id : EntityId) → (validate_id field id ≡ pass) ↔ IsId id
unfolding validate_id
validate_id_iff field id =
    iff_trans (refuse_if_iff (not id.set) _ (validate_entity_id field id.value))
      (×_iff (ground arith) (validate_entity_id_iff field id.value))

path_iff :
    (field : Message) (p : Bytes) → (validate_ns field (record { path = p }) ≡ pass) ↔ IsPath p
unfolding validate_ns
path_iff field [] = (λ h. tt, λ h. refl)
path_iff field (c ∷ s) = validate_cedar_path_iff field (c ∷ s)

-- A namespace is accepted when it is global or when its parts are identifiers.
pub validate_ns_parts :
    (field : Message) (n : Namespace) → (validate_ns field n ≡ pass) ↔ IsPath n.path
validate_ns_parts field n = path_iff field n.path

pub validate_type_iff :
    (field : Message) (t : EntityType)
    → (validate_type field t ≡ pass) ↔ All IsIdentifier (split t.name)
unfolding validate_type
validate_type_iff field t = validate_cedar_path_iff field t.name

rid_iff :
    (s : Bool) (v : Bytes)
    → ((if s then validate_rid (record { value = v; set = s }) else pass) ≡ pass)
      ↔ (s ≡ true → IsName v)
unfolding validate_rid
rid_iff true v = iff_trans (validate_request_id_iff v) (λ n _. n, λ h. h refl)
rid_iff false v = (λ _ e. absurd (false≢true e), λ _. refl)

-- The optional check of a request ID: one that is set is a safe name.
pub validate_rid_iff :
    (id : RequestId)
    → ((if id.set then validate_rid id else pass) ≡ pass) ↔ (id.set ≡ true → IsName id.value)
validate_rid_iff id = rid_iff id.set id.value

segments_path : (p : Bytes) → IsPath p → All IsIdentifier (segments (record { path = p }))
unfolding segments
segments_path [] h = tt
segments_path (c ∷ s) h = h

-- The segments of a well-formed namespace are Cedar identifiers.
pub segments-IsIdentifier : (n : Namespace) → IsPath n.path → All IsIdentifier (segments n)
segments-IsIdentifier n h = segments_path n.path h

-- A Cedar path is a valid entity type.
pub new_entity_type_lem :
    (t : EntityType) → All IsIdentifier (split t.name) → new_entity_type t.name ≡ ok t
unfolding new_entity_type
new_entity_type_lem t h = rw ((validate_cedar_path_iff (text "entity type") t.name).1 h)

abbrev id_with : Bytes → Bool → EntityId
id_with v b = record { value = v; set = b }

-- The constructor accepts a safe ID.
pub new_entity_id_lem :
    (field : Message) (id : EntityId) → IsId id → new_entity_id field id.value ≡ ok id
unfolding new_entity_id
new_entity_id_lem field id (s, h) =
    rw ((validate_entity_id_iff field id.value).1 h) (ap (λ b. ok (id_with id.value b)) (sym s))

-- The constructor accepts a safe name.
pub new_request_id_lem :
    (v : Bytes) → IsName v → new_request_id v ≡ ok (record { value = v; set = true })
unfolding new_request_id
new_request_id_lem v h = rw ((validate_request_id_iff v).1 h)
