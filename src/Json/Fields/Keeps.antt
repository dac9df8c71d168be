-- ===== src/Json/Fields/Keeps.antt =====
-- What holds of a field before it is decoded, and after each of its members, holds of it in the end.
use treetop_client_go.Base.{All, Bytes, Option, false, none, some, true}
use treetop_client_go.Errors.{Err, Result, ◌>>=◌}
use treetop_client_go.Errors.Ensures.{Ensures, from-Ensures}
use treetop_client_go.Json.{
  Json, Jsons, Members, array, boolean, element, integer, member, no_elements, no_members, null,
  object, other_number, read_pointer, string,
}
use treetop_client_go.Json.Fields.{
  each_field, matches, over_pointer, pointer_field, read_array, read_items, required, struct_field,
}

-- A pointer that is not nil points to a value with the property.
abbrev pub OnSome {ℓ κ} : {A : Type ℓ} → (A → Type κ) → Option A → Type κ
OnSome P none = Unit
OnSome P (some a) = P a

pub each_field_keeps {ℓ κ} :
    {S : Type ℓ} (P : S → Type κ) (name : Bytes) (step : Json → S → Result S) (ms : Members) (s : S)
    → ((v : Json) (s : S) → P s → Ensures P (step v s))
    → P s
    → Ensures P (each_field name step ms s)
unfolding each_field
each_field_keeps {S} P name step no_members s h p = p
each_field_keeps {S} P name step (member key v ms) s h p =
    let rest : (s' : S) → P s' → Ensures P (each_field name step ms s') =
      λ s' p'. each_field_keeps P name step ms s' h p' in
    elim (matches name key)
      as (λ b. Ensures P (elim b [
        | true ↦ step v s >>= each_field name step ms
        | false ↦ each_field name step ms s
      ])) [
        | true ↦ from-Ensures P P (step v s) (each_field name step ms) (h v s p) rest
        | false ↦ rest s p
      ]

pub struct_field_keeps {ℓ κ} :
    {A : Type ℓ} (P : A → Type κ) (name : Bytes) (step : Json → A → Result A) (unset : A)
    (ms : Members)
    → ((v : Json) (a : A) → P a → Ensures P (step v a))
    → P unset
    → Ensures (OnSome P) (struct_field name step unset ms)
unfolding struct_field over_pointer
struct_field_keeps {A} P name step unset ms h p =
    each_field_keeps (OnSome P) name (over_pointer step unset) ms none over tt
  where
    over : (v : Json) (o : Option A) → OnSome P o → Ensures (OnSome P) (over_pointer step unset v o)
    over null o q = tt
    over v none q = from-Ensures P (OnSome P) (step v unset) _ (h v unset p) (λ a q. q)
    over v (some a) q = from-Ensures P (OnSome P) (step v a) _ (h v a q) (λ a q. q)

pub pointer_field_keeps {ℓ κ} :
    {A : Type ℓ} (P : A → Type κ) (name : Bytes) (read : Json → Result A) (ms : Members)
    → ((v : Json) → Ensures P (read v))
    → Ensures (OnSome P) (pointer_field name read ms)
unfolding pointer_field read_pointer
pointer_field_keeps {A} P name read ms h =
    each_field_keeps (OnSome P) name (λ v _. read_pointer read v) ms none (λ v o _. to v) tt
  where
    to : (v : Json) → Ensures (OnSome P) (read_pointer read v)
    to null = tt
    to v = from-Ensures P (OnSome P) (read v) _ (h v) (λ a q. q)

pub required_keeps {ℓ κ} :
    {A : Type ℓ} (P : A → Type κ) (e : Err) (o : Option A) → OnSome P o → Ensures P (required e o)
unfolding required
required_keeps P e none h = tt
required_keeps P e (some a) h = h

pub read_array_keeps {ℓ κ} :
    {A : Type ℓ} (P : A → Type κ) (read : Json → Result A) (v : Json)
    → ((v : Json) → Ensures P (read v))
    → Ensures (All P) (read_array read v)
unfolding read_array read_items
read_array_keeps {A} P read v h = array_case v
  where
    items : (vs : Jsons) → Ensures (All P) (read_items read vs)
    items no_elements = tt
    items (element v vs) =
        from-Ensures P (All P) (read v) _ (h v)
          (λ a p. from-Ensures (All P) (All P) (read_items read vs) _ (items vs) (λ as' q. (p, q)))

    array_case : (v : Json) → Ensures (All P) (read_array read v)
    array_case (array vs) = items vs
    array_case null = tt
    array_case (boolean b) = tt
    array_case (integer s n) = tt
    array_case (other_number s) = tt
    array_case (string s) = tt
    array_case (object ms) = tt
