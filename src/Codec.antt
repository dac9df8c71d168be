-- ===== src/Codec.antt =====
-- The `MarshalJSON` and `UnmarshalJSON` methods of the request types.
pub mod Names
pub mod Attributes
pub mod Entities
pub mod Requests
pub mod Batches
pub mod Wire
