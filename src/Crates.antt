-- ===== src/Crates.antt =====
-- The third-party crates that the domain calls: serde_json, uuid, time, data-encoding, hmac with sha2,
-- subtle. Each is a record of the operations that the code uses and of documented laws.
pub mod Json
pub mod Ids
pub mod Crypto
pub mod Sample
use Json.{SerdeJson}
use guyos.Text.{Text}
use Ids.{UuidCrate, TimeCrate}

-- The crates of the wire protocol.
pub record Crates : Type 1 where
  pub json : SerdeJson
  pub open json use *
  pub uuid : UuidCrate
  pub open uuid use *
  pub time : TimeCrate
  pub open time use *
  -- `format!("{:?}", s)` of a text, which rests on the Unicode tables of the standard library.
  pub debug_str : Text → Text
