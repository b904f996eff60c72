-- ===== src/Util/Misc.antt =====
-- src/util/misc.cpp: alignment, bit fields and canonical addresses on 64-bit words.
pub mod Align
pub mod Odd
pub mod Fields
use cpp_os.Base.{
  ℕ, ◌+◌, ◌-◌, ◌*◌, ◌/◌, ◌%◌, ◌^◌, bit_and, bit_or, bit_xor, ltb, ◌==◌, if◌then◌else◌, add64, sub64,
  not64,
}

-- `usize align_up (usize addr, usize align)`
unfoldable pub align_up : ℕ → ℕ → ℕ
align_up addr align = bit_and (sub64 (add64 addr align) 1) (not64 (sub64 align 1))

-- `usize align_down (usize addr, usize align)`
unfoldable pub align_down : ℕ → ℕ → ℕ
align_down addr align = bit_and addr (not64 (sub64 align 1))

-- `usize align_of (usize addr)`
unfoldable pub align_of : ℕ → ℕ
align_of addr = if addr == 0 then 0 else add64 (bit_xor addr (sub64 addr 1)) 1 / 2

-- The mask of `get_bits`: bits 0 to `h`, for `h` up to 63.
unfoldable pub bits_mask : ℕ → ℕ
bits_mask h = if h == 63 then 0xffffffffffffffff else sub64 (2 ^ (h + 1) % 2 ^ 64) 1

-- `u64 get_bits (u64 n, u8 l, u8 h)`
unfoldable pub get_bits : ℕ → ℕ → ℕ → ℕ
unfolding bits_mask
get_bits n l h = bit_and (bits_mask h) n / 2 ^ l

-- `u64 get_bits_raw (u64 n, u8 l, u8 h)`
unfoldable pub get_bits_raw : ℕ → ℕ → ℕ → ℕ
unfolding bits_mask
get_bits_raw n l h = bit_and (bits_mask h) n / 2 ^ l * 2 ^ l % 2 ^ 64

-- `MAX_SUPPORTED_MEM`
abbrev pub max_supported_mem : ℕ
max_supported_mem = 2 ^ 39

-- `usize canonical_addr (usize addr)`
unfoldable pub canonical_addr : ℕ → ℕ
canonical_addr addr =
    if ltb (max_supported_mem / 2 - 1) addr then bit_or addr (not64 max_supported_mem) else addr
