-- ===== src/Output/Tests.antt =====
-- The theorems on formatted output at a short message.
use cpp_os.Base.{ℕ, ◌≡◌, List, [], ◌∷◌, some, arith, replicate, length-replicate}
use cpp_os.Driver.Vga.{Vga}
use cpp_os.Driver.Vga.Cursor.{OnScreen}
use cpp_os.Output.{codes, kprintf, kprintf_internal, word, text}
use cpp_os.Output.Format.{Part, char, unsigned, string, output_of, kprintf_internal-format_of}
use cpp_os.Output.Screen.{kprintf-OnScreen}

abbrev message : List Part
message = char b'a' ∷ unsigned 7 ∷ string (codes "ok") ∷ []

kprintf_internal-format_of_example :
    kprintf_internal (codes "a%u%s") (word 7 ∷ text (codes "ok") ∷ []) ≡ some (output_of message)
kprintf_internal-format_of_example = kprintf_internal-format_of message (omega arith, tt)

abbrev clear_screen : Vga
clear_screen = record { vga_buf = replicate 2000 0; row = 24; col = 79; coli = []; vga_color = 7 }

clear_screen-OnScreen : OnScreen clear_screen
clear_screen-OnScreen = (length-replicate {A = ℕ} 2000 0, omega arith, omega arith)

kprintf-OnScreen_example :
    (v : Vga) × (kprintf (λ _. 0) clear_screen (codes "a%u%s") (word 7 ∷ text (codes "ok") ∷ [])
      ≡ some v)
    × OnScreen v
kprintf-OnScreen_example =
    kprintf-OnScreen (λ _. 0) clear_screen message clear_screen-OnScreen (omega arith, tt)
