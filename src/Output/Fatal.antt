-- ===== src/Output/Fatal.antt =====
-- src/util/io.cpp: what is printed before the machine is halted.
use mathlib.Core.Option
use cpp_os.Base.{
  ℕ, ap, ◌≡◌, Bool, true, ◌&&◌, not, Option, none, some, List, [], ◌∷◌, ◌++◌, map, ◌==◌, arith, ◌+◌,
  ◌%◌, ◌^◌,
}
use cpp_os.Output.{Put, word, text, codes, kprintf_loop, kprintf_internal, panic}
use cpp_os.Output.Format.{
  Part, char, colour, format_of, args_of, output_of, IsPlain, kprintf_internal-format_of,
}

-- Two messages, one behind the other.
abbrev pub joined : Option (List Put) → Option (List Put) → Option (List Put)
joined none b = none
joined (some ps) none = none
joined (some ps) (some qs) = some (ps ++ qs)

-- `void assert_fail (const char *expr, const char *message, const char *file, const char *func, u32 line)`, up to the
-- halt; `none` for the message is the null pointer.
unfoldable pub assert_fail : List ℕ → Option (List ℕ) → List ℕ → List ℕ → ℕ → Option (List Put)
assert_fail expr message file func line =
    let place =
      kprintf_internal (codes "%s:%u: in function '%s':" ++ (10 ∷ []))
        (text file ∷ word line ∷ text func ∷ []) in
    let failed = kprintf_internal (codes "Assertion '%s' failed" ++ (10 ∷ [])) (text expr ∷ []) in
    let given : Option (List Put) = elim message [
      | none ↦ some []
      | some m ↦ kprintf_internal (codes "%s" ++ (10 ∷ [])) (text m ∷ [])
    ] in
    joined place (joined failed given)

-- `void c_asmprint ()`, with its counter: what it prints, and the counter after it.
unfoldable pub c_asmprint : ℕ → Option (List Put) × ℕ
c_asmprint n =
    (kprintf_internal (codes "debug string %u" ++ (10 ∷ [])) (word n ∷ []), (n + 1) % 2 ^ 32)

-- A text as parts of a message, and whether it has no percent sign.
abbrev pub chars : List ℕ → List Part
chars s = map char s

abbrev pub has_no_percent : List ℕ → Bool
has_no_percent [] = true
has_no_percent (c ∷ s) = not (c == b'%') && has_no_percent s

pub IsPlain-chars :
    (s : List ℕ) (ps : List Part) → has_no_percent s ≡ true → IsPlain ps → IsPlain (chars s ++ ps)
IsPlain-chars [] ps h p = p
IsPlain-chars (c ∷ s) ps h p = (ground (arith, h), IsPlain-chars s ps (ground (arith, h)) p)

-- The words in front of what a panic says.
abbrev pub panic_head : List Put
panic_head = output_of (colour 4 ∷ (chars (codes "PANIC:") ++ (colour 15 ∷ char b' ' ∷ [])))

-- A panic prints its message behind the word PANIC in red.
pub panic-format_of :
    (ps : List Part)
    → IsPlain ps
    → panic (format_of ps) (args_of ps) ≡ some (panic_head ++ output_of ps)
unfolding panic kprintf_internal kprintf_loop
panic-format_of ps h =
    ap (Option.map (λ (o : List Put). panic_head ++ o)) (kprintf_internal-format_of ps h)
