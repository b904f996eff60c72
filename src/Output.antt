-- ===== src/Output.antt =====
-- src/util/io.cpp: formatted output. What is printed is the list of calls of `putc` and `puts`; the
-- two sinks, the debug port and the screen, run them.
pub mod Format
pub mod Screen
pub mod Fatal
mod Tests
use Prim.Native.Char.{code}
use Prim.Native.String.{String}
use cpp_os.Base.{
  ℕ, suc, ◌+◌, ◌%◌, ◌^◌, Option, none, some, List, [], ◌∷◌, ◌++◌, map, ◌==◌, if◌then◌else◌, get_or,
}
use mathlib.Core.Option
use cpp_os.Util.Str.{itoa, itoa_hex}
use cpp_os.Machine.{Write, outb}
use cpp_os.Driver.Vga.{Vga, vga_putc, vga_append}

-- The bytes of a text.
abbrev pub codes : String → List ℕ
codes String.[] = []
codes (String.◌∷◌ c s) = code c ∷ codes s

-- One call; a text's terminator is left out.
pub data Put : Type 0 where
  putc : ℕ → Put
  puts : List ℕ → Put

-- What `va_arg` takes: a number or a pointer to a text.
pub data Arg : Type 0 where
  word : ℕ → Arg
  text : List ℕ → Arg

-- Where the loop of `kprintf_internal` is: at a character, behind a `%`, or at the character that
-- the second `i ++` of an unknown directive passes over.
pub data Place : Type 0 where
  plain directive passed : Place

-- The loop of `kprintf_internal`, on the format from the index on. Behind the end the terminator is
-- read. `none` is an argument that is missing or of the wrong kind, where the result is undefined.
unfoldable pub kprintf_loop : Place → List ℕ → List Arg → Option (List Put)
kprintf_loop plain [] args = some []
kprintf_loop plain (c ∷ f) args =
    let rest = kprintf_loop plain f args in
    let behind = kprintf_loop directive f args in
    if c == b'%' then behind else Option.map (λ (o : List Put). putc c ∷ o) rest
kprintf_loop directive [] args = some (putc b'%' ∷ putc 0 ∷ [])
kprintf_loop directive (d ∷ f) [] =
    let rest = kprintf_loop passed f [] in
    if d == b'u'
    then none
    else if d == b'x'
    then none
    else if d == b's'
    then none
    else if d == b'c'
    then none
    else if d == b'C'
    then none
    else Option.map (λ (o : List Put). putc b'%' ∷ putc d ∷ o) rest
kprintf_loop directive (d ∷ f) (word n ∷ args) =
    let rest = kprintf_loop plain f args in
    let other = kprintf_loop passed f (word n ∷ args) in
    if d == b'u'
    then Option.map (λ (o : List Put). puts (itoa (n % 2 ^ 32)) ∷ o) rest
    else if d == b'x'
    then Option.map (λ (o : List Put). putc b'0' ∷ putc b'x' ∷ puts (itoa_hex (n % 2 ^ 64)) ∷ o)
        rest
    else if d == b's'
    then none
    else if d == b'c'
    then Option.map (λ (o : List Put). putc (n % 2 ^ 8) ∷ o) rest
    else if d == b'C'
    then Option.map (λ (o : List Put). puts (1 ∷ n % 2 ^ 8 ∷ []) ∷ o) rest
    else Option.map (λ (o : List Put). putc b'%' ∷ putc d ∷ o) other
kprintf_loop directive (d ∷ f) (text s ∷ args) =
    let rest = kprintf_loop plain f args in
    let other = kprintf_loop passed f (text s ∷ args) in
    if d == b'u'
    then none
    else if d == b'x'
    then none
    else if d == b's'
    then Option.map (λ (o : List Put). puts s ∷ o) rest
    else if d == b'c'
    then none
    else if d == b'C'
    then none
    else Option.map (λ (o : List Put). putc b'%' ∷ putc d ∷ o) other
kprintf_loop passed [] args = some []
kprintf_loop passed (c ∷ f) args = kprintf_loop plain f args

-- `kprintf_internal`
unfoldable pub kprintf_internal : List ℕ → List Arg → Option (List Put)
kprintf_internal format args = kprintf_loop plain format args

-- `void debugcon_putc (char c)` and `void debugcon_puts (const char *str)`
abbrev pub debugcon_putc : ℕ → Write
debugcon_putc c = outb 0xe9 c

unfoldable pub debugcon_puts : List ℕ → List Write
debugcon_puts [] = []
debugcon_puts (c ∷ s) = let rest = debugcon_puts s in if c == 0 then [] else debugcon_putc c ∷ rest

-- The calls on the debug port.
abbrev pub debugcon : List Put → List Write
debugcon [] = []
debugcon (putc c ∷ ps) = debugcon_putc c ∷ debugcon ps
debugcon (puts s ∷ ps) = debugcon_puts s ++ debugcon ps

-- `strlen`: the bytes in front of a terminator.
abbrev pub until_nul : List ℕ → ℕ
until_nul [] = 0
until_nul (c ∷ s) = if c == 0 then 0 else suc (until_nul s)

-- The calls on the screen; `junk` is the memory behind a text. The result of `vga_append` is not
-- looked at.
unfoldable pub on_screen : (ℕ → ℕ) → List Put → Vga → Option Vga
on_screen junk [] v = some v
on_screen junk (putc c ∷ ps) v = on_screen junk ps (vga_putc v c)
on_screen junk (puts s ∷ ps) v = elim (vga_append v (λ i. get_or s i (junk i)) (until_nul s)) [
  | none ↦ none
  | some (b, v') ↦ on_screen junk ps v'
]

-- `void kvprintf (const char *format, va_list list)` and `kprintf`, and `kvprinte` and `kprinte`,
-- which write to the debug port in a virtual machine.
unfoldable pub kprintf : (ℕ → ℕ) → Vga → List ℕ → List Arg → Option Vga
kprintf junk v format args = elim (kprintf_internal format args) [
  | none ↦ none
  | some ps ↦ on_screen junk ps v
]

unfoldable pub kprinte : List ℕ → List Arg → Option (List Write)
kprinte format args = Option.map debugcon (kprintf_internal format args)

-- What `panic` prints before it halts the processor.
unfoldable pub panic : List ℕ → List Arg → Option (List Put)
panic format args = elim (kprintf_internal (codes "%CPANIC:%C ") (word 4 ∷ word 15 ∷ [])) [
  | none ↦ none
  | some front ↦ Option.map (λ (o : List Put). front ++ o) (kprintf_internal format args)
]
