-- ===== src/Util/Str.antt =====
-- src/util/string.cpp. A string is the list of its bytes before the terminator, 0 behind its end.
pub mod Reverse
pub mod Decimal
use cpp_os.Base.{
  ℕ, zero, suc, ◌+◌, ◌-◌, ◌*◌, ◌/◌, ◌%◌, ◌^◌, Bool, true, false, List, [], ◌∷◌, ◌++◌, ltb, ◌==◌,
  if◌then◌else◌, length, get_or, set,
}
use cpp_os.Base.Int.{ℤ, pos, negsuc}
use cpp_os.Util.Math.{powu, powi}

-- The loop of `memcpy`, on the bytes of memory, from index `i` on for `n` bytes.
unfoldable pub memcpy : (ℕ → ℕ) → ℕ → ℕ → ℕ → ℕ → ℕ → ℕ
memcpy m dest src zero i = m
memcpy m dest src (suc n) i =
    memcpy (λ a. if a == dest + i then m (src + i) else m a) dest src n (i + 1)

-- The loop of `memset`.
unfoldable pub memset : (ℕ → ℕ) → ℕ → ℕ → ℕ → ℕ → ℕ → ℕ
memset m s zero c i = m
memset m s (suc n) c i = memset (λ a. if a == s + i then c else m a) s n c (i + 1)

-- `usize strlen (const char *str)`
abbrev pub strlen : List ℕ → ℕ
strlen s = length s

-- `char temp = a - b`, a signed byte.
unfoldable pub char_diff : ℕ → ℕ → ℤ
char_diff a b = let d = (a + 256 - b) % 256 in if ltb d 128 then pos d else negsuc (255 - d)

-- `int strcmp (const char *str1, const char *str2)`
unfoldable pub strcmp : List ℕ → List ℕ → ℤ
unfolding char_diff
strcmp [] t = pos 0
strcmp (a ∷ s) [] = pos 0
strcmp (a ∷ s) (b ∷ t) = let rest = strcmp s t in if a == b then rest else char_diff a b

-- `int strncmp (const char *str1, const char *str2, usize n)`
unfoldable pub strncmp : List ℕ → List ℕ → ℕ → ℤ
unfolding char_diff
strncmp s t zero = pos 0
strncmp [] t (suc n) = pos 0
strncmp (a ∷ s) [] (suc n) = pos 0
strncmp (a ∷ s) (b ∷ t) (suc n) = let rest = strncmp s t n in if a == b then rest else char_diff a b

-- A round of `revstr`: the bytes at `i` and `len - i - 1` change places.
abbrev pub swap_ends : ℕ → ℕ → List ℕ → List ℕ
swap_ends len i s =
    let temp = get_or s i 0 in
    let s' = set s i (get_or s (len - i - 1) 0) in set s' (len - i - 1) temp

-- The first `n` rounds of `revstr`.
unfoldable pub swap_rounds : ℕ → ℕ → List ℕ → List ℕ
swap_rounds len zero s = s
swap_rounds len (suc n) s = swap_ends len n (swap_rounds len n s)

-- `void revstr (char *str)`
unfoldable pub revstr : List ℕ → List ℕ
revstr s = let len = strlen s in swap_rounds len (len / 2) s

-- The loop of `atoi`: `out` and `num` are words of 32 bits, `num` below `2 ^ 31`.
unfoldable pub atoi_loop : List ℕ → ℕ → ℕ → ℕ
atoi_loop [] num out = out
atoi_loop (c ∷ s) num out =
    let rest = atoi_loop s (num / 10) ((out + (c - 48) * num) % 2 ^ 32) in
    if ltb c 48 then 0 else if ltb 57 c then 0 else rest

-- `u32 atoi (const char *str)`, for at most ten digits, where `10 ^ (len - 1)` is an `int`.
unfoldable pub atoi : List ℕ → ℕ
atoi s = atoi_loop s (powi 10 (strlen s - 1) % 2 ^ 32) 0

-- `char itoc (u32 num)`
unfoldable pub itoc : ℕ → ℕ
itoc num = if ltb num 10 then 48 + num else if ltb num 16 then 87 + num else 0

-- The loop of `itoa`, for the powers `i - 1` down to 0: `out` is what stands in `str_out`, `flag`
-- whether a digit other than zero was found.
unfoldable pub itoa_loop : ℕ → ℕ → Bool → List ℕ → List ℕ
itoa_loop zero num flag out = if length out == 0 then 48 ∷ [] else out
itoa_loop (suc i) num flag out =
    let n1 = powu 10 i in
    let n2 = num / n1 in
    let digit = itoa_loop i (num - n1 * n2) true (out ++ (itoc (n2 % 2 ^ 32) ∷ [])) in
    let filler = itoa_loop i num true (out ++ (48 ∷ [])) in
    let skip = itoa_loop i num false out in
    if n2 == 0 then (if flag then filler else skip) else digit

-- `void itoa (char *str_out, u64 num)`: the powers from 20 down.
unfoldable pub itoa : ℕ → List ℕ
itoa num = itoa_loop 21 num false []

-- The loop of `itoa_hex`, from the last place back.
unfoldable pub hex_loop : ℕ → ℕ → List ℕ → List ℕ
hex_loop zero num out = out
hex_loop (suc n) num out = hex_loop n (num / 16) (itoc (num % 16) ∷ out)

-- `void itoa_hex (char *str_out, u64 num)`
unfoldable pub itoa_hex : ℕ → List ℕ
itoa_hex num = hex_loop 16 num []
