-- ===== src/Validation/Entity.antt =====
-- What the rune checks of IDs and names say about the bytes.
use treetop_client_go.Base.{
  All, Bool, Bytes, List, [], arith, dec_lt, false, true, ℕ, ◌<◌, ◌↔◌, ◌∷◌, ◌≡◌, ◌≢◌, ◌≤◌, ◌⊎◌,
}
use treetop_client_go.Errors.{Err, Message, pass}
use treetop_client_go.Text.Runes.{runes}
use treetop_client_go.Text.Runes.Ascii.{runes-ascii}
use treetop_client_go.Validation.{
  Net, is_control, refuse_runes, unsafe_in_id, validate_attribute_name, validate_entity_id,
  validate_ip, validate_request_id,
}

refuse_runes_iff :
    (bad : ℕ → Bool) (e : Err) (rs : List ℕ)
    → (refuse_runes bad e rs ≡ pass) ↔ All (λ r. bad r ≡ false) rs
unfolding refuse_runes
refuse_runes_iff bad e [] = ground arith
refuse_runes_iff bad e (r ∷ rs) = ground (arith, refuse_runes_iff bad e rs)

-- A byte that can stand in a quoted Cedar string as it is: no quote, no backslash, no control.
abbrev pub IsPlainByte : ℕ → Type 0
IsPlainByte b = (b ≢ b'"') × (b ≢ b'\\') × (0x20 ≤ b) × (b ≢ 0x7F)

All-imp : {P Q : ℕ → Type 0} (f : (b : ℕ) → P b → Q b) (xs : List ℕ) → All P xs → All Q xs
All-imp f [] h = tt
All-imp f (x ∷ xs) (p, h) = (f x p, All-imp f xs h)

plain_byte : (b : ℕ) → (b < 0x80 → unsafe_in_id b ≡ false) → IsPlainByte b
unfolding unsafe_in_id is_control
plain_byte b h = elim (dec_lt b 0x80) [ yes p ↦ ground (arith, h p) | no p ↦ ground arith ]

-- An accepted entity ID can be put between quotes: none of its bytes is a quote, a backslash or an
-- ASCII control, however its UTF-8 decodes.
pub validate_entity_id-IsPlainByte :
    (field : Message) (value : Bytes)
    → validate_entity_id field value ≡ pass
    → All IsPlainByte value
unfolding validate_entity_id
validate_entity_id-IsPlainByte field value h =
    All-imp plain_byte value
      (runes-ascii (λ r. unsafe_in_id r ≡ false) value ((refuse_runes_iff _ _ (runes value)).0 h))

-- The entity IDs that are accepted: no rune is a quote, a backslash or a control.
pub validate_entity_id_iff :
    (field : Message) (value : Bytes)
    → (validate_entity_id field value ≡ pass) ↔ All (λ r. unsafe_in_id r ≡ false) (runes value)
unfolding validate_entity_id
validate_entity_id_iff field value = refuse_runes_iff _ _ (runes value)

pub validate_ip_iff :
    (net : Net) (value : Bytes)
    → (validate_ip net value ≡ pass) ↔ ((net.is_ip value ≡ true) ⊎ (net.is_cidr value ≡ true))
unfolding validate_ip
validate_ip_iff net value = ground arith

-- A name with no control in it, and not the empty one.
abbrev pub IsName : Bytes → Type 0
IsName [] = ⊥
IsName (b ∷ s) = All (λ r. is_control r ≡ false) (runes (b ∷ s))

pub validate_attribute_name_iff :
    (field : Message) (name : Bytes) → (validate_attribute_name field name ≡ pass) ↔ IsName name
unfolding validate_attribute_name
validate_attribute_name_iff field [] = (λ h. cc, λ h. absurd h)
validate_attribute_name_iff field (b ∷ s) = refuse_runes_iff _ _ (runes (b ∷ s))

pub validate_request_id_iff : (id : Bytes) → (validate_request_id id ≡ pass) ↔ IsName id
unfolding validate_request_id
validate_request_id_iff [] = (λ h. cc, λ h. absurd h)
validate_request_id_iff (b ∷ s) = refuse_runes_iff _ _ (runes (b ∷ s))
