-- ===== src/Address/Errors.antt =====
-- The errors of endpoint.go, editions.go and address.go, with what their texts mention.
use minecraft_ping.Base.{ℕ, Bytes}
use minecraft_ping.Base.Int.{ℤ}

-- `addressFamily` is a uint8; `unnamed` holds a value that has no constant.
pub data AddressFamily : Type 0 where
  family_any family4 family6 : AddressFamily
  unnamed : ℕ → AddressFamily

pub data Error : Type 0 where
  missing_destination server_too_long uses_brackets control_characters includes_port : Error
  invalid_port out_of_uint16 : ℤ → Error
  invalid_port_text invalid_destination unsupported_edition : Bytes → Error
  invalid_family : ℕ → Error
  not_a_literal refused_non_public : Bytes → Error
  wrong_family : Bytes → AddressFamily → Bytes → Error
  none_resolved only_non_public none_dialable : Bytes → Error
  lookup_failed : ℕ → Error
  derive_port : Bytes → Error → Error
