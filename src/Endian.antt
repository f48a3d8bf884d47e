-- ===== src/Endian.antt =====
-- The byte swaps of transcation/ev_respond.cpp, by which PLC words are read. A masked and shifted
-- byte is written with `/` and `%`; the bytes of an `|` do not overlap, so it is a sum.
pub mod Involution
mod Tests
use dev_hub.Base.{ℕ, ◌+◌, ◌*◌, ◌/◌, ◌%◌, ◌^◌, Bool, true, false, if◌then◌else◌}

-- Byte `n` of a value.
abbrev pub byte : ℕ → ℕ → ℕ
byte n v = (v / 256 ^ n) % 256

unfoldable pub bl_endian_ushort : ℕ → Bool → ℕ
bl_endian_ushort value enable = if enable then byte 0 value * 256 + byte 1 value else value

unfoldable pub bl_endian_uint32 : ℕ → ℕ
bl_endian_uint32 value =
    byte 0 value * 256 ^ 3 + byte 1 value * 256 ^ 2 + byte 2 value * 256 + byte 3 value

unfoldable pub bl_endian_int_swap : ℕ → Bool → ℕ
bl_endian_int_swap value enable =
    if enable
    then byte 0 value * 256 + byte 1 value + byte 2 value * 256 ^ 3 + byte 3 value * 256 ^ 2
    else value

unfoldable pub bl_endian_long_swap : ℕ → Bool → ℕ
bl_endian_long_swap value enable =
    if enable
    then byte 0 value * 256
      + byte 1 value
      + byte 2 value * 256 ^ 3
      + byte 3 value * 256 ^ 2
      + byte 4 value * 256 ^ 5
      + byte 5 value * 256 ^ 4
      + byte 6 value * 256 ^ 7
      + byte 7 value * 256 ^ 6
    else value
