-- ===== src/Crates/Sample.antt =====
-- Small crates that keep every law of `Crates`, on which the tests run.
pub mod Json
pub mod Base64
use guyos.Prelude.{◌≡◌, refl, sym, ap, ◌∙◌, some, [], ◌∷◌}
use guyos.Text.{Text, text_eq, text_eq_iff}
use guyos.Crates.{Crates}
use guyos.Crates.Ids.{UuidCrate, TimeCrate}
use Json.{sample_json}

-- An id is its own print.
abbrev pub sample_uuid : UuidCrate
sample_uuid = record {
  Uuid = Text;
  uuid_eq = text_eq;
  uuid_to_string = λ u. u;
  parse_str = λ s. some s;
  from_bytes = λ b. b;
  uuid_eq_iff = text_eq_iff;
  parse_str-to_string = λ u. refl;
}

-- A time is its own print.
abbrev pub sample_time : TimeCrate
sample_time = record {
  OffsetDateTime = Text;
  format = λ t. some t;
  parse = λ s. some s;
  parse-format = λ t s h. sym h;
}

abbrev pub sample : Crates
sample = record { json = sample_json; uuid = sample_uuid; time = sample_time; debug_str = λ s. s }
