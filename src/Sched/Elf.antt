-- ===== src/Sched/Elf.antt =====
-- src/sched/process.cpp and include/sched/process.hpp: `process::load_elf`, the loading of a program.
pub mod Outcome
use cpp_os.Base.{
  ℕ, zero, suc, ◌+◌, ◌*◌, ◌%◌, ◌^◌, Bool, true, false, ◌||◌, not, List, [], ◌∷◌, ◌++◌, ltb, ◌==◌,
  if◌then◌else◌, add64, bit_and, bit_or,
}
use cpp_os.Mem.Zones.{page_size}

-- `struct elf::header`, less the fields that are not read.
pub record Header : Type 0 where
  pub magic : ℕ
  pub bits : ℕ
  pub endian : ℕ
  pub abi : ℕ
  pub arch : ℕ
  pub entry : ℕ
  pub p_hdr : ℕ
  pub p_hdr_entry_size : ℕ
  pub p_hdr_n : ℕ

-- `struct elf::p_header`, less the fields that are not read.
pub record PHeader : Type 0 where
  pub type : ℕ
  pub flags : ℕ
  pub p_offset : ℕ
  pub p_vaddr : ℕ
  pub p_filesz : ℕ
  pub p_memsz : ℕ

-- `ELF_MAGIC`, `ELF_64_BIT`, `ELF_LITTLE_ENDIAN`, `ELF_SYSTEM_V`, `ELF_x64` and `ELF_P_LOAD`
abbrev pub elf_magic : ℕ
elf_magic = 0x464c457f

abbrev pub elf_64_bit : ℕ
elf_64_bit = 2

abbrev pub elf_little_endian : ℕ
elf_little_endian = 1

abbrev pub elf_system_v : ℕ
elf_system_v = 0

abbrev pub elf_x64 : ℕ
elf_x64 = 0x3e

abbrev pub elf_p_load : ℕ
elf_p_load = 1

-- `sizeof (elf::p_header)`
abbrev pub p_header_size : ℕ
p_header_size = 56

-- The calls that `load_elf` makes of other parts, each with its arguments.
pub data Event : Type 0 where
  create_process : ℕ → Event
  delete_process : Event
  allocz : ℕ → Event
  copy_bytes : ℕ → ℕ → ℕ → Event
  map_at : ℕ → ℕ → ℕ → ℕ → Event
  new_thread : ℕ → Event

-- What those calls return: the process and its first thread, or null, and for each program header
-- the memory, or null, and whether it was mapped.
pub record Answers : Type 0 where
  pub process : ℕ
  pub thread : ℕ
  pub mem : ℕ → ℕ
  pub mapped : ℕ → Bool

-- The test of the header's fields.
unfoldable pub is_invalid : Header → Bool
is_invalid h =
    not (h.magic == elf_magic)
    || not (h.bits == elf_64_bit)
    || not (h.endian == elf_little_endian)
    || not (h.abi == elf_system_v)
    || not (h.arch == elf_x64)
    || not (h.p_hdr_entry_size == p_header_size)

-- The test of the place of the program headers; the product is an `int`.
unfoldable pub table_outside : Header → ℕ → ℕ → Bool
table_outside h prgrm len = ltb (add64 prgrm len) (add64 h.p_hdr (h.p_hdr_n * h.p_hdr_entry_size))

-- The page flags of a segment, `V_XD`, `V_WRITE` and `V_USER`.
unfoldable pub segment_flags : PHeader → ℕ → ℕ
segment_flags p uid =
    let xd = (if bit_and p.flags 1 == 0 then 2 ^ 63 else 0) in
    let write = (if bit_and p.flags 2 == 0 then 0 else 2) in
    let user = (if uid == 0 then 0 else 4) in bit_or (bit_or xd write) user

-- The copy into fresh memory.
unfoldable pub copy_segment : PHeader → ℕ → ℕ → Event
copy_segment p mem prgrm =
    copy_bytes (add64 mem (p.p_vaddr % page_size)) (add64 prgrm p.p_offset) p.p_filesz

module _ (a : Answers) (p_hdrs : ℕ → PHeader) (prgrm len uid : ℕ) where
  -- The loop over the program headers, `n` of them from index `i` on: whether all were loaded, and
  -- the calls.
  unfoldable pub load_loop : ℕ → ℕ → Bool × List Event
  load_loop zero i = (true, [])
  load_loop (suc n) i =
      let p = p_hdrs i in
      let (ok, rest) = load_loop n (i + 1) in
      let map_event = map_at (a.mem i) p.p_vaddr p.p_memsz (segment_flags p uid) in
      if not (p.type == elf_p_load)
      then (ok, rest)
      else if ltb len (add64 p.p_offset p.p_filesz)
      then (false, delete_process ∷ [])
      else if a.mem i == 0
      then (false, allocz p.p_memsz ∷ delete_process ∷ [])
      else if a.mapped i
      then (ok, allocz p.p_memsz ∷ copy_segment p (a.mem i) prgrm ∷ map_event ∷ rest)
      else (
        false,
        allocz p.p_memsz ∷ copy_segment p (a.mem i) prgrm ∷ map_event ∷ delete_process ∷ [],
      )

  -- What follows the loop: the first thread.
  unfoldable pub first_thread : Header → Bool × List Event → ℕ × List Event
  first_thread h (false, calls) = (0, create_process uid ∷ calls)
  first_thread h (true, calls) =
      if a.thread == 0
      then (0, create_process uid ∷ calls ++ (new_thread h.entry ∷ delete_process ∷ []))
      else (a.process, create_process uid ∷ calls ++ (new_thread h.entry ∷ []))

  -- `process *load_elf (void *program, usize len, u8 uid)`: the process, or null, and the calls.
  unfoldable pub load_elf : Header → ℕ × List Event
  load_elf h =
      if is_invalid h
      then (0, [])
      else if table_outside h prgrm len
      then (0, [])
      else if a.process == 0
      then (0, create_process uid ∷ [])
      else first_thread h (load_loop h.p_hdr_n 0)
