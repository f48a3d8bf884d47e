-- ===== src/Endian/Tests.antt =====
-- Swaps of concrete values.
use dev_hub.Base.{◌+◌, ◌*◌, ◌≡◌, refl}
use dev_hub.Endian.{bl_endian_uint32}

swapped : bl_endian_uint32 (256 * 256 * 256 + 2) ≡ 2 * 256 * 256 * 256 + 1
unfolding bl_endian_uint32
swapped = refl
