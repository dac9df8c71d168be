-- ===== src/Token/Redact.antt =====
-- token.go: `redactSecrets`. `replace` is `strings.NewReplacer` with these pairs and `Replace`.
use treetop_client_go.Base.{
  Bool, Bytes, List, [], bytes_eq, codes, false, if◌then◌else◌, is_empty, length, ltb, map, ◌++◌,
  ◌||◌, ◌∷◌,
}
pub mod Order

-- `seen[value]`
is_seen : Bytes → List Bytes → Bool
is_seen value [] = false
is_seen value (s ∷ seen) = bytes_eq s value || is_seen value seen

-- The first loop, after the values `done`.
distinct_values : List Bytes → List Bytes → List Bytes
distinct_values [] done = done
distinct_values (secret ∷ secrets) done =
    let kept = distinct_values secrets done in
    let added = distinct_values secrets (done ++ secret ∷ []) in
    if is_empty secret || is_seen secret done then kept else added

-- A value among values that are sorted, behind those that are at least as long. `sort.Slice` may give
-- values of equal length in any order.
insert : Bytes → List Bytes → List Bytes
insert value [] = value ∷ []
insert value (v ∷ vs) =
    let rest = insert value vs in if ltb (length v) (length value) then value ∷ v ∷ vs else v ∷ rest

longest_first : List Bytes → List Bytes
longest_first [] = []
longest_first (v ∷ vs) = insert v (longest_first vs)

abbrev pub redacted : Bytes
redacted = codes "[REDACTED]"

-- The values that are replaced.
pub redacted_values : List Bytes → List Bytes
redacted_values secrets = longest_first (distinct_values secrets [])

pub redact_secrets : (List (Bytes × Bytes) → Bytes → Bytes) → Bytes → List Bytes → Bytes
redact_secrets replace message secrets =
    let replaced = replace (map (λ v. (v, redacted)) (redacted_values secrets)) message in
    if is_empty (redacted_values secrets) then message else replaced
