-- ===== src/Endian/Involution.antt =====
-- The byte swaps of transcation/ev_respond.cpp undo themselves.
use dev_hub.Base.{ℕ, ◌+◌, ◌*◌, ◌/◌, ◌%◌, ◌^◌, ◌<◌, ◌≡◌, refl, Bool, true, false, arith}
use dev_hub.Endian.{bl_endian_ushort, bl_endian_uint32, bl_endian_int_swap, bl_endian_long_swap}

ushort_twice :
    (v : ℕ) (enable : Bool) → v < 2 ^ 16 → bl_endian_ushort (bl_endian_ushort v enable) enable ≡ v
unfolding bl_endian_ushort
ushort_twice v false h = refl
ushort_twice v true h = omega arith

uint32_twice : (v : ℕ) → v < 2 ^ 32 → bl_endian_uint32 (bl_endian_uint32 v) ≡ v
unfolding bl_endian_uint32
uint32_twice v h = omega arith

int_swap_twice :
    (v : ℕ) (enable : Bool)
    → v < 2 ^ 32
    → bl_endian_int_swap (bl_endian_int_swap v enable) enable ≡ v
unfolding bl_endian_int_swap
int_swap_twice v false h = refl
int_swap_twice v true h = omega arith

long_swap_twice :
    (v : ℕ) (enable : Bool)
    → v < 2 ^ 64
    → bl_endian_long_swap (bl_endian_long_swap v enable) enable ≡ v
unfolding bl_endian_long_swap
long_swap_twice v false h = refl
long_swap_twice v true h = omega arith

-- Each swap undoes itself on the values of its width, whether it is enabled or not.
pub swap-swap :
    (enable : Bool)
    → ((v : ℕ) → v < 2 ^ 16 → bl_endian_ushort (bl_endian_ushort v enable) enable ≡ v)
      × ((v : ℕ) → v < 2 ^ 32 → bl_endian_uint32 (bl_endian_uint32 v) ≡ v)
      × ((v : ℕ) → v < 2 ^ 32 → bl_endian_int_swap (bl_endian_int_swap v enable) enable ≡ v)
      × ((v : ℕ) → v < 2 ^ 64 → bl_endian_long_swap (bl_endian_long_swap v enable) enable ≡ v)
swap-swap enable = (
  λ v. ushort_twice v enable,
  uint32_twice,
  λ v. int_swap_twice v enable,
  λ v. long_swap_twice v enable,
)

-- Word `n` of a value, swapped.
abbrev pub word : ℕ → ℕ → ℕ
word v n = bl_endian_ushort ((v / 2 ^ (16 * n)) % 2 ^ 16) true

-- With `enable` the swaps of 32 and 64 bits swap the bytes of every 16-bit word and leave the words
-- in their places.
pub swap_words :
    (v : ℕ)
    → v < 2 ^ 64
    → (bl_endian_long_swap v true
        ≡ word v 0 + word v 1 * 2 ^ 16 + word v 2 * 2 ^ 32 + word v 3 * 2 ^ 48)
      × (bl_endian_int_swap (v % 2 ^ 32) true ≡ word v 0 + word v 1 * 2 ^ 16)
unfolding bl_endian_long_swap bl_endian_int_swap bl_endian_ushort
swap_words v h = (omega arith, omega arith)
