-- ===== src/Mem/Pages/Translate.antt =====
-- What `translate` of src/mem/vmem.cpp can return.
use cpp_os.Base.{
  ℕ, zero, suc, ◌+◌, ◌*◌, ◌/◌, ◌%◌, ◌^◌, ◌≡◌, ◌⊎◌, inl, inr, refl, ap, Option, none, some, arith,
  Bool-cases, bit_and, ◌==◌,
}
use cpp_os.Base.Bits.{and_field}
use cpp_os.Util.Misc.{get_bits}
use cpp_os.Mem.Pages.{
  Pages, read, is_present, next_table, translate_from, translate, kernel_vma, page_table_bits,
}

-- Null, the kernel's first page, or 512 bytes behind its start.
abbrev pub IsStuck : Option ℕ → Type 0
IsStuck o = (o ≡ none) ⊎ (o ≡ some kernel_vma) ⊎ (o ≡ some (kernel_vma + 512))

next_table-IsStuck : (e : ℕ) → IsStuck (some (next_table e))
unfolding next_table
next_table-IsStuck e =
    let bit : bit_and e 512 ≡ e / 2 ^ 9 % 2 * 512 = and_field 1 9 e in
    elim (Bool-cases (e / 2 ^ 9 % 2 == 0)) [
      | inl z ↦ inr (inl (ap some (ground (arith, bit))))
      | inr z ↦ inr (inr (ap some (ground (arith, bit))))
    ]

translate_from-IsStuck :
    (m : Pages) (virt_addr level table : ℕ) → IsStuck (translate_from m virt_addr level table)
unfolding translate_from
translate_from-IsStuck m virt_addr zero table =
    elim (Bool-cases (is_present (read m table (get_bits virt_addr 12 20)))) [
      | inl y ↦ rw y (next_table-IsStuck (read m table (get_bits virt_addr 12 20)))
      | inr n ↦ rw n (inl refl)
    ]
translate_from-IsStuck m virt_addr (suc level) table =
    let l = page_table_bits * suc level + 12 in
    let e = read m table (get_bits virt_addr l (l + 8)) in
    elim (Bool-cases (is_present e)) [
      | inl y ↦ rw y (translate_from-IsStuck m virt_addr level (next_table e))
      | inr n ↦ rw n (inl refl)
    ]

-- `translate` never finds a page: whatever is mapped, and for every address, it returns null, the
-- kernel's first address, or the one 512 bytes behind it.
pub translate-IsStuck :
    (m : Pages) (pml4_table virt_addr : ℕ) → IsStuck (translate m pml4_table virt_addr)
unfolding translate
translate-IsStuck m pml4_table virt_addr = translate_from-IsStuck m virt_addr 3 _
