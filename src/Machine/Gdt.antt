-- ===== src/Machine/Gdt.antt =====
-- src/gdt.cpp: the segment descriptors and the task state segment's.
use cpp_os.Base.{
  ℕ, ◌+◌, ◌*◌, ◌%◌, ◌^◌, ◌<◌, ◌≡◌, bit_and, List, length, set, get_or, get_or-set_self, arith, refl,
  subst, sym,
}
use cpp_os.Base.Bits.{and_low, and_comm}
use cpp_os.Util.Misc.{get_bits}
use cpp_os.Util.Misc.Fields.{get_bits_lem}

-- `struct gdt_e`
pub record GdtE : Type 0 where
  pub limit_1 : ℕ
  pub base_1 : ℕ
  pub base_2 : ℕ
  pub access : ℕ
  pub limit_2 : ℕ
  pub flags : ℕ
  pub base_3 : ℕ

-- `struct tss_e`
pub record TssE : Type 0 where
  pub limit_1 : ℕ
  pub base_1 : ℕ
  pub base_2 : ℕ
  pub acces : ℕ
  pub limit_2 : ℕ
  pub flags : ℕ
  pub base_3 : ℕ
  pub base_4 : ℕ
  pub last_word : ℕ

-- `struct gdt`
pub record Gdt : Type 0 where
  pub entries : List GdtE
  pub tss : TssE

-- `void gdt_add_entry (u8 index, u32 base, u32 limit, u8 access, u8 flags)`; each field keeps the
-- bits of its width.
unfoldable pub gdt_add_entry : Gdt → ℕ → ℕ → ℕ → ℕ → ℕ → Gdt
gdt_add_entry g index base limit access flags = record g {
  entries = set g.entries index (record {
    limit_1 = get_bits limit 0 15;
    base_1 = get_bits base 0 15;
    base_2 = get_bits base 16 23;
    access = access;
    limit_2 = get_bits limit 16 19;
    flags = bit_and 0x0f flags;
    base_3 = get_bits base 24 31;
  });
}

-- The descriptor of the task state segment that `gdt_init` writes; `zero` is left as it is.
unfoldable pub tss_entry : TssE → ℕ → TssE
tss_entry e tss_addr = record e {
  base_1 = get_bits tss_addr 0 15;
  base_2 = get_bits tss_addr 16 23;
  base_3 = get_bits tss_addr 24 31;
  base_4 = get_bits tss_addr 32 63;
  limit_1 = 104;
  limit_2 = 0;
  acces = 0x89;
  flags = 0;
}

-- `void gdt_init ()`, less the loading of the tables, with the address of `tss`.
unfoldable pub gdt_init : Gdt → ℕ → Gdt
gdt_init g tss_addr =
    let g₀ = gdt_add_entry g 0 0 0 0 0 in
    let g₁ = gdt_add_entry g₀ 1 0 0xffffffff 0x9a 0x0a in
    let g₂ = gdt_add_entry g₁ 2 0 0xffffffff 0x92 0x0a in
    let g₃ = gdt_add_entry g₂ 3 0 0xffffffff 0xf2 0x0a in
    let g₄ = gdt_add_entry g₃ 4 0 0xffffffff 0xfa 0x0a in
    record g₄ { tss = tss_entry g₄.tss tss_addr }

-- The base and the limit as the processor puts them together.
abbrev pub base_of : GdtE → ℕ
base_of e = e.base_1 + e.base_2 * 2 ^ 16 + e.base_3 * 2 ^ 24

abbrev pub limit_of : GdtE → ℕ
limit_of e = e.limit_1 + e.limit_2 * 2 ^ 16

abbrev pub tss_base_of : TssE → ℕ
tss_base_of e = e.base_1 + e.base_2 * 2 ^ 16 + e.base_3 * 2 ^ 24 + e.base_4 * 2 ^ 32

base_whole :
    (base : ℕ)
    → base < 2 ^ 32
    → get_bits base 0 15 + get_bits base 16 23 * 2 ^ 16 + get_bits base 24 31 * 2 ^ 24 ≡ base
base_whole base w = ground (
  arith,
  get_bits_lem base 0 15 (omega arith) (omega arith),
  get_bits_lem base 16 23 (omega arith) (omega arith),
  get_bits_lem base 24 31 (omega arith) (omega arith),
)

limit_whole : (limit : ℕ) → get_bits limit 0 15 + get_bits limit 16 19 * 2 ^ 16 ≡ limit % 2 ^ 20
limit_whole limit = ground (
  arith,
  get_bits_lem limit 0 15 (omega arith) (omega arith),
  get_bits_lem limit 16 19 (omega arith) (omega arith),
)

-- A descriptor that `gdt_add_entry` writes inside the table has the whole base, the low 20 bits of
-- the limit, the access byte and the low four flags.
pub base_of-gdt_add_entry :
    (g : Gdt) (index base limit access flags : ℕ) (d : GdtE)
    → index < length g.entries
    → base < 2 ^ 32
    → let e = get_or (gdt_add_entry g index base limit access flags).entries index d in
      (base_of e ≡ base)
      × (limit_of e ≡ limit % 2 ^ 20)
      × (e.access ≡ access)
      × (e.flags ≡ flags % 2 ^ 4)
unfolding gdt_add_entry
base_of-gdt_add_entry g index base limit access flags d h w =
    subst
      (λ (e : GdtE).
        (base_of e ≡ base)
        × (limit_of e ≡ limit % 2 ^ 20)
        × (e.access ≡ access)
        × (e.flags ≡ flags % 2 ^ 4))
      (sym (get_or-set_self g.entries index _ d h))
      (
        base_whole base w,
        limit_whole limit,
        refl,
        ground (arith, and_comm 15 flags, and_low 4 flags),
      )

-- The descriptor of the task state segment has all 64 bits of its address.
pub tss_base_of-gdt_init :
    (g : Gdt) (addr : ℕ) → addr < 2 ^ 64 → tss_base_of (gdt_init g addr).tss ≡ addr
unfolding gdt_init tss_entry
tss_base_of-gdt_init g addr w = ground (
  arith,
  get_bits_lem addr 0 15 (omega arith) (omega arith),
  get_bits_lem addr 16 23 (omega arith) (omega arith),
  get_bits_lem addr 24 31 (omega arith) (omega arith),
  get_bits_lem addr 32 63 (omega arith) (omega arith),
)
