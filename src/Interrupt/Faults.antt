-- ===== src/Interrupt/Faults.antt =====
-- src/init.cpp: the handlers of faults.

use cpp_os.Base.{
  ℕ, ◌-◌, ◌*◌, ◌/◌, ◌%◌, ◌^◌, bit_and, ◌≡◌, refl, ap, ◌∙◌, Bool, true, Option, some, List, [], ◌∷◌,
  ◌++◌, ◌==◌, if◌then◌else◌, not, arith,
}
use cpp_os.Base.Bits.{and_field}
use cpp_os.Output.{Put, word, text, codes, kprintf_internal, panic}
use cpp_os.Output.Format.{Part, char, unsigned, hex, string, output_of, IsPlain}
use cpp_os.Output.Fatal.{panic_head, panic-format_of, chars, has_no_percent, IsPlain-chars}

-- What the handlers print: `double_fault`, which returns, and `gp_exception`, which does not.
unfoldable pub double_fault : Option (List Put)
double_fault = kprintf_internal (codes "double fault" ++ (10 ∷ [])) []

unfoldable pub gp_exception : Option (List Put)
gp_exception = panic (codes "general protection exception" ++ (10 ∷ [])) []

-- `PAGE_FAULT_PROTECTION`, `PAGE_FAULT_WRITE`, `PAGE_FAULT_USER`, `PAGE_FAULT_RESERVED` and `PAGE_FAULT_EXECUTE`
abbrev pub is_set : ℕ → ℕ → Bool
is_set error flag = not (bit_and error flag == 0)

-- Lines of a text, each with its end.
abbrev pub lines : List (List ℕ) → List ℕ
lines [] = []
lines (l ∷ ls) = l ++ (10 ∷ lines ls)

-- `page_fault`, for the address in CR2, the error code and the two registers of the frame.
unfoldable pub page_fault : ℕ → ℕ → ℕ → ℕ → Option (List Put)
page_fault cr2 error rip rsp =
    panic
      (lines (
        codes "page fault accessing virtual address %x"
        ∷ codes "page fault during %s %s"
        ∷ codes "rip: %x"
        ∷ codes "rsp: %x"
        ∷ codes "non present page: %u"
        ∷ codes "reserved bit set: %u"
        ∷ []))
      (word cr2
        ∷ text (if is_set error 4 then codes "user" else codes "kernel")
        ∷ text (
            if is_set error 16
            then codes "instruction fetch"
            else if is_set error 2
            then codes "write"
            else codes "read")
        ∷ word rip
        ∷ word rsp
        ∷ word (if is_set error 1 then 0 else 1)
        ∷ word (if is_set error 8 then 1 else 0)
        ∷ [])

-- Bit `k` of an error code.
abbrev pub bit : ℕ → ℕ → ℕ
bit k error = error / 2 ^ k % 2

-- A line of a message in front of others: a text and values.
abbrev pub line_of : List ℕ → List Part → List Part → List Part
line_of s values rest = chars s ++ (values ++ (char 10 ∷ rest))

-- What is said of a page fault.
abbrev pub fault_parts : ℕ → ℕ → ℕ → ℕ → List Part
fault_parts cr2 error rip rsp =
    line_of (codes "page fault accessing virtual address ") (hex cr2 ∷ []) (
      line_of (codes "page fault during ")
        (string (if bit 2 error == 1 then codes "user" else codes "kernel")
          ∷ char b' '
          ∷ string (
              if bit 4 error == 1
              then codes "instruction fetch"
              else if bit 1 error == 1
              then codes "write"
              else codes "read")
          ∷ [])
        (line_of (codes "rip: ") (hex rip ∷ []) (
          line_of (codes "rsp: ") (hex rsp ∷ []) (
            line_of (codes "non present page: ") (unsigned (1 - bit 0 error) ∷ [])
              (line_of (codes "reserved bit set: ") (unsigned (bit 3 error) ∷ []) [])))))

-- A line in front of others that are plain.
IsPlain-line_of :
    (s : List ℕ) (values rest : List Part)
    → has_no_percent s ≡ true
    → IsPlain (values ++ (char 10 ∷ rest))
    → IsPlain (line_of s values rest)
IsPlain-line_of s values rest h p = IsPlain-chars s (values ++ (char 10 ∷ rest)) h p

fault_parts-IsPlain : (cr2 error rip rsp : ℕ) → IsPlain (fault_parts cr2 error rip rsp)
fault_parts-IsPlain cr2 error rip rsp =
    let reserved = line_of (codes "reserved bit set: ") (unsigned (bit 3 error) ∷ []) [] in
    let present = line_of (codes "non present page: ") (unsigned (1 - bit 0 error) ∷ []) reserved in
    let stack = line_of (codes "rsp: ") (hex rsp ∷ []) present in
    let frame = line_of (codes "rip: ") (hex rip ∷ []) stack in
    let access =
      string (if bit 2 error == 1 then codes "user" else codes "kernel")
      ∷ char b' '
      ∷ string (
          if bit 4 error == 1
          then codes "instruction fetch"
          else if bit 1 error == 1
          then codes "write"
          else codes "read")
      ∷ [] in
    IsPlain-line_of (codes "page fault accessing virtual address ") (hex cr2 ∷ [])
      (line_of (codes "page fault during ") access frame) refl
      (
        omega arith,
        IsPlain-line_of (codes "page fault during ") access frame refl (
          omega arith,
          (
            omega arith,
            IsPlain-line_of (codes "rip: ") (hex rip ∷ []) stack refl (
              omega arith,
              IsPlain-line_of (codes "rsp: ") (hex rsp ∷ []) present refl (
                omega arith,
                IsPlain-line_of (codes "non present page: ") (unsigned (1 - bit 0 error) ∷ [])
                    reserved refl
                    (
                      omega arith,
                      IsPlain-line_of (codes "reserved bit set: ") (unsigned (bit 3 error) ∷ []) []
                          refl (omega arith, tt),
                    ),
              ),
            ),
          ),
        ),
      )

bit_test : (k error : ℕ) → bit_and error (2 ^ k) ≡ bit k error * 2 ^ k
bit_test k error = ap (λ m. bit_and error m) (omega arith) ∙ and_field 1 k error

-- A page fault prints the address, who made the access and what it was, the two registers of the frame, whether
-- the page was not present and whether a reserved bit was set: bits 2, 4, 1, 0 and 3 of the error code.
pub page_fault-fault_parts :
    (cr2 error rip rsp : ℕ)
    → page_fault cr2 error rip rsp ≡ some (panic_head ++ output_of (fault_parts cr2 error rip rsp))
unfolding page_fault
page_fault-fault_parts cr2 error rip rsp =
    let user : is_set error 4 ≡ (bit 2 error == 1) = ground (arith, bit_test 2 error) in
    let fetch : is_set error 16 ≡ (bit 4 error == 1) = ground (arith, bit_test 4 error) in
    let write : is_set error 2 ≡ (bit 1 error == 1) = ground (arith, bit_test 1 error) in
    let absent : (if is_set error 1 then 0 else 1) ≡ 1 - bit 0 error =
      ground (arith, bit_test 0 error) in
    let reserved : (if is_set error 8 then 1 else 0) ≡ bit 3 error =
      ground (arith, bit_test 3 error) in
    rw (user, fetch, write, absent, reserved)
      (panic-format_of (fault_parts cr2 error rip rsp) (fault_parts-IsPlain cr2 error rip rsp))
