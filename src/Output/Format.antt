-- ===== src/Output/Format.antt =====
-- What a format string prints.
use mathlib.Core.Option
use cpp_os.Base.{ℕ, ◌%◌, ◌^◌, ◌≡◌, ◌≢◌, refl, ap, some, List, [], ◌∷◌, ne→==, ◌∙◌}
use cpp_os.Util.Str.{itoa, itoa_hex}
use cpp_os.Output.{
  Put, putc, puts, Arg, word, text, directive, passed, kprintf_loop, kprintf_internal,
}

-- The parts of a message.
pub data Part : Type 0 where
  char : ℕ → Part
  unsigned hex arg_char colour : ℕ → Part
  string : List ℕ → Part

-- The format, the arguments and the output of a message.
abbrev pub format_of : List Part → List ℕ
format_of [] = []
format_of (char c ∷ ps) = c ∷ format_of ps
format_of (unsigned n ∷ ps) = b'%' ∷ b'u' ∷ format_of ps
format_of (hex n ∷ ps) = b'%' ∷ b'x' ∷ format_of ps
format_of (arg_char n ∷ ps) = b'%' ∷ b'c' ∷ format_of ps
format_of (colour n ∷ ps) = b'%' ∷ b'C' ∷ format_of ps
format_of (string s ∷ ps) = b'%' ∷ b's' ∷ format_of ps

abbrev pub args_of : List Part → List Arg
args_of [] = []
args_of (char c ∷ ps) = args_of ps
args_of (unsigned n ∷ ps) = word n ∷ args_of ps
args_of (hex n ∷ ps) = word n ∷ args_of ps
args_of (arg_char n ∷ ps) = word n ∷ args_of ps
args_of (colour n ∷ ps) = word n ∷ args_of ps
args_of (string s ∷ ps) = text s ∷ args_of ps

abbrev pub output_of : List Part → List Put
output_of [] = []
output_of (char c ∷ ps) = putc c ∷ output_of ps
output_of (unsigned n ∷ ps) = puts (itoa (n % 2 ^ 32)) ∷ output_of ps
output_of (hex n ∷ ps) = putc b'0' ∷ putc b'x' ∷ puts (itoa_hex (n % 2 ^ 64)) ∷ output_of ps
output_of (arg_char n ∷ ps) = putc (n % 2 ^ 8) ∷ output_of ps
output_of (colour n ∷ ps) = puts (1 ∷ n % 2 ^ 8 ∷ []) ∷ output_of ps
output_of (string s ∷ ps) = puts s ∷ output_of ps

-- No character of the message itself is a percent sign.
abbrev pub IsPlain : List Part → Type 0
IsPlain [] = Unit {0}
IsPlain (char c ∷ ps) = (c ≢ b'%') × IsPlain ps
IsPlain (unsigned n ∷ ps) = IsPlain ps
IsPlain (hex n ∷ ps) = IsPlain ps
IsPlain (arg_char n ∷ ps) = IsPlain ps
IsPlain (colour n ∷ ps) = IsPlain ps
IsPlain (string s ∷ ps) = IsPlain ps

-- A message whose own characters are not percent signs is printed as it is meant: `%u` prints the
-- low 32 bits of its argument in decimal, `%x` the low 64 in hexadecimal behind 0x, `%c` one byte,
-- `%s` a text, `%C` a change of colour, each taking its own argument, and every other character
-- prints itself.
pub kprintf_internal-format_of :
    (ps : List Part)
    → IsPlain ps
    → kprintf_internal (format_of ps) (args_of ps) ≡ some (output_of ps)
unfolding kprintf_internal kprintf_loop
kprintf_internal-format_of [] h = refl
kprintf_internal-format_of (char c ∷ ps) h =
    rw (ne→== c b'%' h.0) (ap (Option.map _) (kprintf_internal-format_of ps h.1))
kprintf_internal-format_of (unsigned n ∷ ps) h = ap (Option.map _) (kprintf_internal-format_of ps h)
kprintf_internal-format_of (hex n ∷ ps) h = ap (Option.map _) (kprintf_internal-format_of ps h)
kprintf_internal-format_of (arg_char n ∷ ps) h = ap (Option.map _) (kprintf_internal-format_of ps h)
kprintf_internal-format_of (colour n ∷ ps) h = ap (Option.map _) (kprintf_internal-format_of ps h)
kprintf_internal-format_of (string s ∷ ps) h = ap (Option.map _) (kprintf_internal-format_of ps h)

-- None of the directives that the code knows.
abbrev pub IsUnknown : ℕ → Type 0
IsUnknown d = (d ≢ b'u') × (d ≢ b'x') × (d ≢ b's') × (d ≢ b'c') × (d ≢ b'C')

kprintf_loop-unknown :
    (d : ℕ) (f : List ℕ) (args : List Arg)
    → IsUnknown d
    → kprintf_loop directive (d ∷ f) args
      ≡ Option.map (λ (o : List Put). putc b'%' ∷ putc d ∷ o) (kprintf_loop passed f args)
unfolding kprintf_loop
kprintf_loop-unknown d f [] (u, x, s, c, col) =
    rw (ne→== _ _ u, ne→== _ _ x, ne→== _ _ s, ne→== _ _ c, ne→== _ _ col) refl
kprintf_loop-unknown d f (word n ∷ args) (u, x, s, c, col) =
    rw (ne→== _ _ u, ne→== _ _ x, ne→== _ _ s, ne→== _ _ c, ne→== _ _ col) refl
kprintf_loop-unknown d f (text t ∷ args) (u, x, s, c, col) =
    rw (ne→== _ _ u, ne→== _ _ x, ne→== _ _ s, ne→== _ _ c, ne→== _ _ col) refl

-- An unknown directive swallows the character behind it: a percent sign, a letter `d` that is none of
-- u, x, s, c and C, and a character `c` in front of a message whose own characters are not percent
-- signs print the percent sign and `d`, but not `c`.
pub unknown_directive :
    (d c : ℕ) (ps : List Part)
    → IsUnknown d
    → IsPlain ps
    → kprintf_internal (b'%' ∷ d ∷ c ∷ format_of ps) (args_of ps)
      ≡ some (putc b'%' ∷ putc d ∷ output_of ps)
unfolding kprintf_internal kprintf_loop
unknown_directive d c ps unknown h =
    kprintf_loop-unknown d (c ∷ format_of ps) (args_of ps) unknown
    ∙ ap (Option.map _) (kprintf_internal-format_of ps h)
