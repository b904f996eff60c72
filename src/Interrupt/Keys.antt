-- ===== src/Interrupt/Keys.antt =====
-- src/init.cpp: `kbd_p`, which prints what was typed, and `kbd_init` of src/driver/ps2.cpp.
use mathlib.Core.Option
use cpp_os.Base.{
  ℕ, ◌+◌, ◌%◌, ◌≡◌, ◌≢◌, refl, false, Option, none, some, List, [], ◌∷◌, ltb, ◌==◌, if◌then◌else◌,
  length, arith,
}
use cpp_os.Driver.Ps2.{Kbd, kbd_read, ps2_int_handler, scan_toc}
use cpp_os.Driver.Ps2.Ring.{IsRing, kbd_read-ps2_int_handler}
use cpp_os.Interrupt.{first}
use cpp_os.Interrupt.Start.{Tables, registered, irq_keyboard}
use cpp_os.Machine.{Write, outb}
use cpp_os.Output.{Put, puts, text, codes, kprintf_internal, kprintf_loop}

-- `u8 kbd_init (void)`, for the address of `ps2_int_handler`: the table and what is written to ports.
unfoldable pub kbd_init : ℕ → Tables → Tables × List Write
kbd_init handler tables = (registered tables irq_keyboard handler first, outb 0x60 0xf4 ∷ [])

-- `kbd_p`: what it prints, and the keyboard behind it; `none` is a read past its buffer, which has
-- no terminator when it is full.
unfoldable pub kbd_p : Kbd → Option (List Put × Kbd)
kbd_p k = elim (kbd_read 32 k 32 []) [
  | none ↦ none
  | some (s, k') ↦
      if length s == 0
      then some ([], k')
      else if ltb (length s) 32
      then Option.map (λ (ps : List Put). (ps, k')) (kprintf_internal (codes "%s") (text s ∷ []))
      else none
]

-- After the ring was drained, the two handlers of the keyboard print the character of a key that is
-- pressed, and the ring is drained again.
pub kbd_p-ps2_int_handler :
    (k : Kbd) (code : ℕ)
    → IsRing k
    → k.fresh ≡ false
    → (k.read_i + 1) % 32 ≡ k.scan_i
    → scan_toc k.status code ≢ 0
    → kbd_p (ps2_int_handler k code)
      ≡ some (
        puts (scan_toc k.status code ∷ []) ∷ [],
        record (ps2_int_handler k code) { read_i = k.scan_i; fresh = false },
      )
unfolding kbd_p kprintf_internal kprintf_loop
kbd_p-ps2_int_handler k code h stale newest typed =
    rw (kbd_p, kbd_read-ps2_int_handler k code 32 h stale newest typed (omega arith)) refl
