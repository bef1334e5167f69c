-- ===== src/Wire/Error.antt =====
-- The exceptions of fusion_relay/wire.py and of the stream observer, by their messages.
pub data WireError : Type 0 where
  varint_too_long truncated_varint field_number_zero unsupported_wire_type : WireError
  truncated_field truncated_header invalid_flags payload_too_large : WireError
  truncated_payload too_many_frames bytes_after_trailer : WireError
  -- `bytes([flags])` and `struct.pack` raise outside their ranges
  flags_overflow length_overflow : WireError
  -- a loop of the model ran out of its fuel; it never does
  fuel_exhausted : WireError
