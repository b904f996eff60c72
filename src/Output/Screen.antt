-- ===== src/Output/Screen.antt =====
-- Printing on the screen.
use cpp_os.Base.{
  ℕ, ◌≡◌, refl, Option, none, some, List, [], ◌∷◌, Option-cases, inl, inr, get_or, Bool, arith,
  subst, sym,
}
use cpp_os.Driver.Vga.{Vga, vga_append}
use cpp_os.Driver.Vga.Cursor.{OnScreen, Printed, vga_append-Printed, vga_putc-OnScreen}
use cpp_os.Output.{Put, putc, puts, on_screen, kprintf, until_nul}
use cpp_os.Output.Format.{Part, format_of, args_of, output_of, IsPlain, kprintf_internal-format_of}

-- Any calls return with the cursor on the screen.
on_screen-OnScreen :
    (junk : ℕ → ℕ) (ps : List Put) (v : Vga)
    → OnScreen v
    → (v' : Vga) × (on_screen junk ps v ≡ some v') × OnScreen v'
unfolding on_screen
on_screen-OnScreen junk [] v h = (v, refl, h)
on_screen-OnScreen junk (putc c ∷ ps) v h = on_screen-OnScreen junk ps _ (vga_putc-OnScreen v c h)
on_screen-OnScreen junk (puts s ∷ ps) v h =
    let printed = vga_append-Printed v (λ i. get_or s i (junk i)) (until_nul s) h in
    elim (Option-cases (vga_append v (λ i. get_or s i (junk i)) (until_nul s))) [
      | inl e ↦ absurd (ground (arith, subst Printed e printed))
      | inr ((b, v'), e) ↦
          subst
            (λ (o : Option (Bool × Vga)).
              (w : Vga) × ((elim o [ none ↦ none | some (b, v') ↦ on_screen junk ps v' ]) ≡ some w)
              × OnScreen w)
            (sym e) (on_screen-OnScreen junk ps v' (subst Printed e printed))
    ]

-- From a cursor on the screen, `kprintf` of a message whose own characters are not percent signs
-- returns, whatever bytes its arguments hold and whatever lies behind them, with the cursor on the
-- screen.
pub kprintf-OnScreen :
    (junk : ℕ → ℕ) (v : Vga) (ps : List Part)
    → OnScreen v
    → IsPlain ps
    → (v' : Vga) × (kprintf junk v (format_of ps) (args_of ps) ≡ some v') × OnScreen v'
unfolding kprintf
kprintf-OnScreen junk v ps h p =
    subst
      (λ (o : Option (List Put)).
        (w : Vga) × ((elim o [ none ↦ none | some qs ↦ on_screen junk qs v ]) ≡ some w)
        × OnScreen w)
      (sym (kprintf_internal-format_of ps p)) (on_screen-OnScreen junk (output_of ps) v h)
