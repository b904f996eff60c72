-- ===== src/Util/Math.antt =====
-- src/util/math.cpp, include/util/math.hpp and src/arch/x64/util/math.asm.
pub mod Laws
use cpp_os.Base.{
  ℕ, zero, suc, ◌+◌, ◌-◌, ◌*◌, ◌/◌, ◌%◌, ◌^◌, bit_xor, ◌||◌, ltb, ◌==◌, if◌then◌else◌,
}
use cpp_os.Base.Int.{ℤ, pos, negsuc, pos_part, ◌+ℤ◌, ◌-ℤ◌, ltb_ℤ, tmod}
use cpp_os.Util.Misc.{align_up}

-- The loop of `powi` and `powu`: `b` rounds of `out *= a` on 64 bits.
unfoldable pub pow_loop : ℕ → ℕ → ℕ → ℕ
pow_loop a zero out = out
pow_loop a (suc b) out = pow_loop a b (out * a % 2 ^ 64)

-- `usize powu (const usize a, const usize b)`
unfoldable pub powu : ℕ → ℕ → ℕ
unfolding pow_loop
powu a b = pow_loop a b 1

-- `isize powi (const isize a, const usize b)`, on the bit patterns of the signed words.
unfoldable pub powi : ℕ → ℕ → ℕ
unfolding pow_loop
powi a b = pow_loop a b 1

-- The index of the highest bit that is set, for at most `fuel` halvings.
unfoldable pub bsr : ℕ → ℕ → ℕ
bsr zero n = 0
bsr (suc fuel) n = let rest = bsr fuel (n / 2) in if ltb n 2 then 0 else suc rest

-- `u8 log2 (u64 in)`: the instruction `bsr`; of 0 it returns all ones, which is cut to a byte.
unfoldable pub log2 : ℕ → ℕ
unfolding bsr
log2 n = if n == 0 then 255 else bsr 64 n

-- `1 << s` on `int`, converted to `usize`: the machine takes the count modulo 32, and the sign is
-- extended.
unfoldable pub shl_int : ℕ → ℕ
shl_int s = let w = 2 ^ (s % 32) in if ltb w (2 ^ 31) then w else w + (2 ^ 64 - 2 ^ 32)

-- `u8 log2_up (u64 in)`
unfoldable pub log2_up : ℕ → ℕ
log2_up n = log2 (align_up n (shl_int (log2 n)))

-- `int wrap (const int in, const int lower, const int upper)`, for `lower ≤ upper`.
unfoldable pub wrap : ℤ → ℤ → ℤ → ℤ
wrap n lower upper =
    if ltb_ℤ n lower || ltb_ℤ upper n
    then tmod n (pos_part (upper -ℤ lower +ℤ pos 1)) +ℤ lower
    else n

-- `int clamp (const int in, const int lower, const int upper)`
unfoldable pub clamp : ℤ → ℤ → ℤ → ℤ
clamp n lower upper = if ltb_ℤ n lower then lower else if ltb_ℤ upper n then upper else n

-- `i32 abs (i32 in)` on bit patterns: `temp` is the sign in every bit.
unfoldable pub abs : ℕ → ℕ
abs n = let temp = (if ltb n (2 ^ 31) then 0 else 2 ^ 32 - 1) in (bit_xor n temp + temp) % 2 ^ 32

-- `i8 sign (i32 in)` on a bit pattern; the three results as integers.
unfoldable pub sign : ℕ → ℤ
sign n = if n == 0 then pos 0 else if ltb n (2 ^ 31) then pos 1 else negsuc 0
