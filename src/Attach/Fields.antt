-- ===== src/Attach/Fields.antt =====
-- Reading the fields of an attach from its JSON object.
use guyos.Prelude.{ℕ, ◌≤◌, ◌≡◌, some, ok, arith}
use guyos.Text.{Text, lit}
use guyos.Crates.Json.{SerdeJson, number, string}
use guyos.Attach.{
  u31_max, Attach, validate_attach_preamble, require_attach_u31, require_attach_string,
  attach_from_decoded_map,
}

module _ (J : SerdeJson) where
  require_attach_u31_of :
      (m : J.Map) (key : Text) (n : ℕ)
      → J.get m key ≡ some (number (J.from_u32 n))
      → n ≤ u31_max
      → require_attach_u31 J.types m key ≡ ok n
  unfolding require_attach_u31
  require_attach_u31_of m key n e h = rw (e, J.as_u64-from_u32 n (omega arith)) (ground arith)

  require_attach_string_of :
      (m : J.Map) (key s : Text)
      → J.get m key ≡ some (string s)
      → require_attach_string J.types m key ≡ ok s
  unfolding require_attach_string
  require_attach_string_of m key s e = rw e

  -- The preamble test accepts versions of 31 bits.
  pub preamble_ok :
      (a : Attach)
      → a.protocol_major ≤ u31_max
      → a.protocol_minor ≤ u31_max
      → validate_attach_preamble a ≡ ok tt
  unfolding validate_attach_preamble
  preamble_ok a h k = ground arith

  pub preamble_inv :
      (a : Attach)
      → validate_attach_preamble a ≡ ok tt
      → (a.protocol_major ≤ u31_max) × (a.protocol_minor ≤ u31_max)
  unfolding validate_attach_preamble
  preamble_inv a h = ground arith

  -- An object with these three fields is decoded to the attach that they spell.
  pub attach_from_fields :
      (m : J.Map) (a : Attach)
      → J.get m (lit "protocol_major") ≡ some (number (J.from_u32 a.protocol_major))
      → J.get m (lit "protocol_minor") ≡ some (number (J.from_u32 a.protocol_minor))
      → J.get m (lit "ticket") ≡ some (string a.ticket)
      → a.protocol_major ≤ u31_max
      → a.protocol_minor ≤ u31_max
      → attach_from_decoded_map J.types m ≡ ok a
  unfolding attach_from_decoded_map
  attach_from_fields m a e1 e2 e3 h k = rw (
    require_attach_u31_of m (lit "protocol_major") a.protocol_major e1 h,
    require_attach_u31_of m (lit "protocol_minor") a.protocol_minor e2 k,
    require_attach_string_of m (lit "ticket") a.ticket e3,
    preamble_ok a h k,
  )
