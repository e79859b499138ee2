-- ===== src/Crates/Ids.antt =====
-- uuid and time.
use guyos.Prelude.{◌≡◌, ◌↔◌, Bool, true, Option, some}
use guyos.Text.{Text, Bytes}

pub record UuidCrate : Type 1 where
  pub Uuid : Type 0
  pub uuid_eq : Uuid → Uuid → Bool
  pub uuid_to_string : Uuid → Text
  pub parse_str : Text → Option Uuid
  pub from_bytes : Bytes → Uuid
  -- The derived `Eq` is equality, and the hyphenated print is read back.
  pub uuid_eq_iff : (u v : Uuid) → (uuid_eq u v ≡ true) ↔ (u ≡ v)
  pub parse_str-to_string : (u : Uuid) → parse_str (uuid_to_string u) ≡ some u

pub record TimeCrate : Type 1 where
  pub OffsetDateTime : Type 0
  -- `ts.format(&Rfc3339)` and `OffsetDateTime::parse(s, &Rfc3339)`; `none` is an error.
  pub format : OffsetDateTime → Option Text
  pub parse : Text → Option OffsetDateTime
  pub parse-format : (t : OffsetDateTime) (s : Text) → format t ≡ some s → parse s ≡ some t
