-- ===== src/Crates/Json.antt =====
-- serde_json: `Value`, `Map<String, Value>`, `from_str` and `to_string`.
use guyos.Prelude.{ℕ, suc, ◌^◌, ◌<◌, ◌≡◌, Bool, Option, none, some, List, All, if◌then◌else◌}
use guyos.Text.{Text, text_eq}

-- The enum `serde_json::Value`, over the crate's own number, array and map types.
pub data Value (Number Array Map : Type 0) : Type 0 where
  null : Value Number Array Map
  bool : Bool → Value Number Array Map
  number : Number → Value Number Array Map
  string : Text → Value Number Array Map
  array : Array → Value Number Array Map
  object : Map → Value Number Array Map

pub record JsonTypes : Type 1 where
  pub Number : Type 0
  pub Array : Type 0
  pub Map : Type 0
  -- `Number::from(u32)` and `Number::as_u64`.
  pub from_u32 : ℕ → Number
  pub as_u64 : Number → Option ℕ
  -- `Vec<Value>` as a list.
  pub elements : Array → List (Value Number Array Map)
  pub new_map : Map
  pub get : Map → Text → Option (Value Number Array Map)
  pub insert : Map → Text → Value Number Array Map → Map
  pub to_string : Value Number Array Map → Option Text
  pub from_str : Text → Option (Value Number Array Map)

abbrev pub JsonValue : JsonTypes → Type 0
JsonValue J = Value J.Number J.Array J.Map

-- A value whose numbers are all `u64`s, with at most `depth` arrays and objects inside one another.
abbrev pub IsPlain : (J : JsonTypes) → ℕ → JsonValue J → Type 0
IsPlain J depth null = Unit
IsPlain J depth (bool b) = Unit
IsPlain J depth (string s) = Unit
IsPlain J depth (number n) = (k : ℕ) × (J.as_u64 n ≡ some k)
IsPlain J (suc depth) (array a) = All (λ v. IsPlain J depth v) (J.elements a)
IsPlain J (suc depth) (object m) =
    (k : Text) (v : JsonValue J) → J.get m k ≡ some v → IsPlain J depth v
IsPlain J depth v = ⊥

-- `Map` is a map; a `u32` is read back from its number; a number read as `u64` is one; the parser
-- reads back what the printer wrote of a plain value within its recursion limit of 128.
pub record SerdeJson : Type 1 where
  pub types : JsonTypes
  pub open types use *
  pub as_u64-from_u32 : (n : ℕ) → n < 2 ^ 32 → types.as_u64 (types.from_u32 n) ≡ some n
  pub get-new_map : (k : Text) → types.get types.new_map k ≡ none
  pub get-insert :
      (m : types.Map) (k j : Text) (v : JsonValue types)
      → types.get (types.insert m k v) j ≡ (if text_eq k j then some v else types.get m j)
  pub from_str-to_string :
      (v : JsonValue types) (s : Text)
      → IsPlain types 127 v
      → types.to_string v ≡ some s
      → types.from_str s ≡ some v
