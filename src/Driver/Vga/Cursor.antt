-- ===== src/Driver/Vga/Cursor.antt =====
-- The cursor and the buffer of src/driver/vga_tty.cpp stay on the screen.
use cpp_os.Base.{
  ℕ, zero, suc, ◌+◌, ◌-◌, ◌*◌, ◌/◌, ◌<◌, ◌≡◌, inl, inr, ◌∙◌, Bool, true, false, Option, none, some,
  List, leb, ◌==◌, get_or, set, length, length-set, arith, refl, Bool-cases, leb→gt,
}
use cpp_os.Driver.Vga.{
  Vga, copy_row, blank_row, copy_rows, blank_rows, vga_scroll_down, vga_inc_row, vga_inc_col,
  vga_putc, append_loop, vga_append, vga_cols, vga_form_entry,
}

-- The buffer has its 2000 cells and the cursor is on the screen.
abbrev pub OnScreen : Vga → Type 0
OnScreen v = (length v.vga_buf ≡ 2000) × (v.row < 25) × (v.col < 80)

length-copy_row :
    (n : ℕ) (buf : List ℕ) (rows r c : ℕ) → length (copy_row n buf rows r c) ≡ length buf
unfolding copy_row
length-copy_row zero buf rows r c = refl
length-copy_row (suc n) buf rows r c =
    let i = r * vga_cols + c in
    let v = get_or buf (rows * vga_cols + i) 0 in
    length-copy_row n (set buf i v) rows r (c + 1) ∙ length-set buf i v

length-blank_row : (n : ℕ) (buf : List ℕ) (r c : ℕ) → length (blank_row n buf r c) ≡ length buf
unfolding blank_row
length-blank_row zero buf r c = refl
length-blank_row (suc n) buf r c =
    let i = r * vga_cols + c in length-blank_row n (set buf i 0) r (c + 1) ∙ length-set buf i 0

-- Scrolling leaves the cursor, the colour and the size of the buffer.
Same : Vga → Vga → Type 0
Same v w = (length w.vga_buf ≡ length v.vga_buf) × (w.row ≡ v.row) × (w.col ≡ v.col)

copy_rows-Same : (n : ℕ) (v : Vga) (rows r : ℕ) → Same v (copy_rows n v rows r)
unfolding copy_rows Same
copy_rows-Same zero v rows r = (refl, refl, refl)
copy_rows-Same (suc n) v rows r =
    let buf = copy_row vga_cols v.vga_buf rows r 0 in
    let (a, b, c) =
      copy_rows-Same n
        (record v { vga_buf = buf; coli = set v.coli r (get_or v.coli (r + rows) 0) }) rows
        (r + 1) in
    (a ∙ length-copy_row 80 v.vga_buf rows r 0, b, c)

blank_rows-Same : (n : ℕ) (v : Vga) (r : ℕ) → Same v (blank_rows n v r)
unfolding blank_rows Same
blank_rows-Same zero v r = (refl, refl, refl)
blank_rows-Same (suc n) v r =
    let buf = blank_row vga_cols v.vga_buf r 0 in
    let (a, b, c) = blank_rows-Same n (record v { vga_buf = buf; coli = set v.coli r 0 }) (r + 1) in
    (a ∙ length-blank_row 80 v.vga_buf r 0, b, c)

vga_scroll_down-Same : (v : Vga) (rows : ℕ) → Same v (vga_scroll_down v rows)
unfolding vga_scroll_down Same
vga_scroll_down-Same v rows =
    let (a, b, c) = copy_rows-Same (25 - rows) v rows 0 in
    let (d, e, f) = blank_rows-Same rows (copy_rows (25 - rows) v rows 0) (25 - rows) in
    (d ∙ a, e ∙ b, f ∙ c)

vga_inc_row-Same :
    (v : Vga) (n : ℕ)
    → v.row < 25
    → let w = vga_inc_row v n in
      (length w.vga_buf ≡ length v.vga_buf) × (w.row < 25) × (w.col ≡ v.col)
unfolding vga_inc_row Same
vga_inc_row-Same v n h = elim (Bool-cases (leb 25 (v.row + n))) [
  | inl over ↦
      let (a, b, c) = vga_scroll_down-Same (record v { row = v.row + n }) (v.row + n - 25 + 1) in
      rw (over) (a, ground arith, c)
  | inr in_range ↦ rw (in_range) (refl, leb→gt _ _ in_range, refl)
]

vga_inc_col-OnScreen : (v : Vga) (n : ℕ) → OnScreen v → OnScreen (vga_inc_col v n)
unfolding vga_inc_col
vga_inc_col-OnScreen v n h = elim (Bool-cases (leb 80 (v.col + n))) [
  | inl over ↦
      let (a, b, c) = vga_inc_row-Same (record v { col = v.col + n }) ((v.col + n) / 80) h.1 in
      rw (over) (a ∙ h.0, b, omega arith)
  | inr in_range ↦ rw (in_range) (h.0, h.1, leb→gt _ _ in_range)
]

-- Putting a character keeps the cursor on the screen, at the end of a row and of the last row as
-- well, so that the next character is written inside the buffer; the buffer keeps its size.
pub vga_putc-OnScreen : (v : Vga) (c : ℕ) → OnScreen v → OnScreen (vga_putc v c)
unfolding vga_putc
vga_putc-OnScreen v c h = elim (Bool-cases (c == 10)) [
  | inl newline ↦ let (a, b, d) = vga_inc_row-Same v 1 h.1 in rw (newline) (a ∙ h.0, b, omega arith)
  | inr other ↦
      let i = v.row * vga_cols + v.col in
      let e = vga_form_entry v.vga_color c in
      rw (other) (
        vga_inc_col-OnScreen (record v { vga_buf = set v.vga_buf i e }) 1
          (length-set v.vga_buf i e ∙ h.0, h.1, h.2))
]

abbrev pub Printed : Option (Bool × Vga) → Type 0
Printed none = false ≡ true
Printed (some (b, v)) = OnScreen v

append_loop-Printed :
    (fuel : ℕ) (v : Vga) (s : ℕ → ℕ) (len i : ℕ)
    → OnScreen v
    → 0 < fuel
    → len < fuel + i
    → Printed (append_loop fuel v s len i)
unfolding append_loop
append_loop-Printed zero v s len i h lo f = absurd (omega arith)
append_loop-Printed (suc fuel) v s len i h lo f = elim (Bool-cases (leb len i)) [
  | inl done ↦ rw (done) h
  | inr more ↦
      let next : (0 < fuel) × (len < fuel + (i + 1)) = ground arith in
      elim (Bool-cases (s i == 1)) [
        | inl colour ↦
            rw (more, colour)
              (append_loop-Printed fuel (record v { vga_color = s (i + 1) }) s len (i + 2) h next.0
                (omega (arith, next)))
        | inr no_colour ↦ elim (Bool-cases (s i == 2)) [
          | inl at ↦ elim (Bool-cases (leb 80 (s (i + 1)))) [
            | inl off ↦ rw (more, no_colour, at, off) h
            | inr on ↦ elim (Bool-cases (leb 25 (s (i + 2)))) [
              | inl off ↦ rw (more, no_colour, at, on, off) (h.0, h.1, leb→gt _ _ on)
              | inr below ↦
                  rw (more, no_colour, at, on, below)
                    (append_loop-Printed fuel (record v { col = s (i + 1); row = s (i + 2) }) s len
                      (i + 3) (h.0, leb→gt _ _ below, leb→gt _ _ on) next.0 (omega (arith, next)))
            ]
          ]
          | inr put ↦
              rw (more, no_colour, put)
                (append_loop-Printed fuel (vga_putc v (s i)) s len (i + 1)
                  (vga_putc-OnScreen v (s i) h) next.0 next.1)
        ]
      ]
]

-- From a cursor on the screen `vga_append` returns for every string, after one round for each
-- character at most, with the cursor on the screen, whether or not the string holds a position off the screen.
pub vga_append-Printed : (v : Vga) (s : ℕ → ℕ) (len : ℕ) → OnScreen v → Printed (vga_append v s len)
unfolding vga_append
vga_append-Printed v s len h = append_loop-Printed (len + 1) v s len 0 h (omega arith) (omega arith)
