-- ===== src/Driver/Vga.antt =====
-- src/driver/vga_tty.cpp: the text screen. Characters and colours are bytes; a string is the memory
-- behind its pointer.
pub mod Cursor
use cpp_os.Base.{
  ℕ, zero, suc, ◌+◌, ◌-◌, ◌*◌, ◌/◌, ◌%◌, Bool, true, false, Option, none, some, List, ◌∷◌, leb,
  ◌==◌, if◌then◌else◌, get_or, set, replicate,
}

-- The driver's variables. `vga_black` never changes.
pub record Vga : Type 0 where
  pub vga_buf : List ℕ
  pub row : ℕ
  pub col : ℕ
  pub coli : List ℕ
  pub vga_color : ℕ

abbrev pub vga_rows : ℕ
vga_rows = 25

abbrev pub vga_cols : ℕ
vga_cols = 80

abbrev pub vga_black : ℕ
vga_black = 0

-- The inner loops of `vga_scroll_down`, from column `c` on: a row copied up, and a row blanked.
unfoldable pub copy_row : ℕ → List ℕ → ℕ → ℕ → ℕ → List ℕ
copy_row zero buf rows r c = buf
copy_row (suc n) buf rows r c =
    let i = r * vga_cols + c in
    copy_row n (set buf i (get_or buf (rows * vga_cols + i) 0)) rows r (c + 1)

unfoldable pub blank_row : ℕ → List ℕ → ℕ → ℕ → List ℕ
blank_row zero buf r c = buf
blank_row (suc n) buf r c = blank_row n (set buf (r * vga_cols + c) vga_black) r (c + 1)

-- Its outer loops, for `n` rows from row `r` on.
unfoldable pub copy_rows : ℕ → Vga → ℕ → ℕ → Vga
copy_rows zero v rows r = v
copy_rows (suc n) v rows r =
    copy_rows n
      (record v {
        vga_buf = copy_row vga_cols v.vga_buf rows r 0;
        coli = set v.coli r (get_or v.coli (r + rows) 0);
      })
      rows (r + 1)

unfoldable pub blank_rows : ℕ → Vga → ℕ → Vga
blank_rows zero v r = v
blank_rows (suc n) v r =
    blank_rows n (record v { vga_buf = blank_row vga_cols v.vga_buf r 0; coli = set v.coli r 0 })
      (r + 1)

-- `void vga_scroll_down (u8 rows)`, for at most `VGA_ROWS` rows.
unfoldable pub vga_scroll_down : Vga → ℕ → Vga
vga_scroll_down v rows = blank_rows rows (copy_rows (vga_rows - rows) v rows 0) (vga_rows - rows)

-- `void vga_inc_row (u16 n)`, for sums that stay in an `i8`.
unfoldable pub vga_inc_row : Vga → ℕ → Vga
vga_inc_row v n =
    let row = v.row + n in
    if leb vga_rows row
    then (let temp = row - vga_rows + 1 in
        let v' = vga_scroll_down (record v { row = row }) temp in record v' { row = row - temp })
    else record v { row = row }

-- `void vga_inc_col (u16 n)`
unfoldable pub vga_inc_col : Vga → ℕ → Vga
vga_inc_col v n =
    let col = v.col + n in
    if leb vga_cols col
    then (let v' = vga_inc_row (record v { col = col }) (col / vga_cols) in
        record v' { col = col % vga_cols })
    else record v { col = col }

-- `void vga_clear (void)`: every cell is black; `coli` stays.
unfoldable pub vga_clear : Vga → Vga
vga_clear v = record v { vga_buf = replicate (vga_rows * vga_cols) vga_black; row = 0; col = 0 }

-- `vga_form_entry (color, c)`
abbrev pub vga_form_entry : ℕ → ℕ → ℕ
vga_form_entry color c = color * 256 + c

-- `void vga_putc (char in)`
unfoldable pub vga_putc : Vga → ℕ → Vga
vga_putc v c =
    if c == 10
    then (let v' = vga_inc_row v 1 in record v' { col = 0 })
    else let i = v.row * vga_cols + v.col in
      vga_inc_col (record v { vga_buf = set v.vga_buf i (vga_form_entry v.vga_color c) }) 1

-- The loop of `vga_append` from index `i` on, on fuel: `s` is the memory behind the pointer and
-- `len` the result of `strlen`.
unfoldable pub append_loop : ℕ → Vga → (ℕ → ℕ) → ℕ → ℕ → Option (Bool × Vga)
append_loop zero v s len i = none
append_loop (suc fuel) v s len i =
    let colour = append_loop fuel (record v { vga_color = s (i + 1) }) s len (i + 2) in
    let position = append_loop fuel (record v { col = s (i + 1); row = s (i + 2) }) s len (i + 3) in
    let put = append_loop fuel (vga_putc v (s i)) s len (i + 1) in
    if leb len i
    then some (true, v)
    else if s i == 1
    then colour
    else if s i == 2
    then (if leb vga_cols (s (i + 1))
        then some (false, v)
        else if leb vga_rows (s (i + 2))
        then some (false, record v { col = s (i + 1) })
        else position)
    else put

-- `bool vga_append (const char *s)` and `bool vga_write (const char *s)`; each character takes a
-- round at most.
unfoldable pub vga_append : Vga → (ℕ → ℕ) → ℕ → Option (Bool × Vga)
vga_append v s len = append_loop (len + 1) v s len 0

unfoldable pub vga_write : Vga → (ℕ → ℕ) → ℕ → Option (Bool × Vga)
vga_write v s len = vga_append (vga_clear v) s len
