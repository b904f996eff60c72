-- ===== src/Driver/Ps2.antt =====
-- src/driver/ps2.cpp: the keyboard. Characters are bytes.
pub mod Ring
pub mod Keys
use cpp_os.Base.{
  ℕ, zero, suc, ◌+◌, ◌-◌, ◌%◌, Bool, true, false, ◌&&◌, not, Option, none, some, List, [], ◌∷◌,
  ◌++◌, leb, ◌==◌, if◌then◌else◌, length, get_or, set,
}
use cpp_os.Base.Int.{pos, pos_part}
use cpp_os.Util.Math.{wrap, clamp}

-- `kbd_status`
pub record KbdStatus : Type 0 where
  pub shift : ℕ
  pub capslock : Bool
  pub numlock : Bool

-- The driver's variables; `fresh` is the static `f` of `kbd_read`.
pub record Kbd : Type 0 where
  pub scancode_buf : List ℕ
  pub scan_i : ℕ
  pub read_i : ℕ
  pub status : KbdStatus
  pub fresh : Bool

-- `SCAN_BUF_SIZE`
abbrev pub scan_buf_size : ℕ
scan_buf_size = 32

-- `wrap (i, 0, SCAN_BUF_SIZE - 1)`
unfoldable pub wrap_i : ℕ → ℕ
unfolding wrap
wrap_i i = pos_part (wrap (pos i) (pos 0) (pos 31))

-- `ps2_int_handler`, for the byte that the port gives.
unfoldable pub ps2_int_handler : Kbd → ℕ → Kbd
ps2_int_handler k code =
    let read = (if k.scan_i == k.read_i then (k.read_i + 1) % 256 else k.read_i) in
    record k {
      scancode_buf = set k.scancode_buf k.scan_i code;
      scan_i = wrap_i ((k.scan_i + 1) % 256);
      read_i = wrap_i read;
    }

-- `kbd_status.shift = clamp (kbd_status.shift, 0, 2)`
unfoldable pub clamp_shift : ℕ → ℕ
unfolding clamp
clamp_shift s = pos_part (clamp (pos s) (pos 0) (pos 2))

-- `u8 update_kbd_status (u8 c)`: the new status; a code that is not listed changes nothing. The
-- counter is a `u8`.
unfoldable pub update_kbd_status : KbdStatus → ℕ → KbdStatus
update_kbd_status s c =
    if c == 0x3a
    then record s { capslock = not s.capslock }
    else if (c == 0x2a)
    then record s { shift = clamp_shift ((s.shift + 1) % 256) }
    else if (c == 0x36)
    then record s { shift = clamp_shift ((s.shift + 1) % 256) }
    else if (c == 0xaa)
    then record s { shift = clamp_shift ((s.shift + 255) % 256) }
    else if (c == 0xb6)
    then record s { shift = clamp_shift ((s.shift + 255) % 256) }
    else if c == 0x45
    then record s { numlock = not s.numlock }
    else s

-- What a case of the switch of `scan_toc` assigns: nothing, a character, one of two by the shift
-- (held, not held), or one of two by the num lock (on, off).
pub data Key : Type 0 where
  no_char : Key
  char : ℕ → Key
  by_shift : ℕ → ℕ → Key
  by_numlock : ℕ → ℕ → Key

-- The cases 0x01 to 0x1c.
unfoldable pub upper_rows : List Key
upper_rows =
    no_char
    ∷ char 27
    ∷ by_shift 33 49
    ∷ by_shift 64 50
    ∷ by_shift 35 51
    ∷ by_shift 36 52
    ∷ by_shift 37 53
    ∷ by_shift 94 54
    ∷ by_shift 38 55
    ∷ by_shift 42 56
    ∷ by_shift 40 57
    ∷ by_shift 41 48
    ∷ by_shift 95 45
    ∷ by_shift 43 61
    ∷ char 8
    ∷ char 9
    ∷ by_shift 81 113
    ∷ by_shift 87 119
    ∷ by_shift 69 101
    ∷ by_shift 82 114
    ∷ by_shift 84 116
    ∷ by_shift 89 121
    ∷ by_shift 85 117
    ∷ by_shift 73 105
    ∷ by_shift 79 111
    ∷ by_shift 80 112
    ∷ by_shift 123 91
    ∷ by_shift 125 93
    ∷ char 10
    ∷ []

-- The cases 0x1d to 0x39.
unfoldable pub lower_rows : List Key
lower_rows =
    no_char
    ∷ by_shift 65 97
    ∷ by_shift 83 115
    ∷ by_shift 68 100
    ∷ by_shift 70 102
    ∷ by_shift 71 103
    ∷ by_shift 72 104
    ∷ by_shift 74 106
    ∷ by_shift 75 107
    ∷ by_shift 76 108
    ∷ by_shift 58 59
    ∷ by_shift 34 39
    ∷ by_shift 126 96
    ∷ no_char
    ∷ by_shift 124 92
    ∷ by_shift 90 122
    ∷ by_shift 88 120
    ∷ by_shift 67 99
    ∷ by_shift 86 118
    ∷ by_shift 66 98
    ∷ by_shift 78 110
    ∷ by_shift 77 109
    ∷ by_shift 60 44
    ∷ by_shift 62 46
    ∷ by_shift 63 47
    ∷ no_char
    ∷ char 42
    ∷ no_char
    ∷ char 32
    ∷ []

-- The cases 0x3a to 0x53.
unfoldable pub keypad : List Key
keypad =
    no_char
    ∷ no_char
    ∷ no_char
    ∷ no_char
    ∷ no_char
    ∷ no_char
    ∷ no_char
    ∷ no_char
    ∷ no_char
    ∷ no_char
    ∷ no_char
    ∷ no_char
    ∷ no_char
    ∷ by_numlock 55 0x15
    ∷ by_numlock 56 0x13
    ∷ by_numlock 57 0x17
    ∷ char 45
    ∷ by_numlock 52 0x11
    ∷ char 53
    ∷ by_numlock 54 0x12
    ∷ char 43
    ∷ by_numlock 49 0x16
    ∷ by_numlock 50 0x14
    ∷ by_numlock 51 0x18
    ∷ char 48
    ∷ by_numlock 46 0x7f
    ∷ []

abbrev pub key_char : KbdStatus → Key → ℕ
key_char s no_char = 0
key_char s (char c) = c
key_char s (by_shift held c) = if s.shift == 0 then c else held
key_char s (by_numlock on off) = if s.numlock then on else off

-- The end of `scan_toc`.
unfoldable pub apply_capslock : Bool → ℕ → ℕ
apply_capslock capslock out =
    if capslock && (leb 65 out && leb out 90)
    then out + 32
    else if capslock && (leb 97 out && leb out 122)
    then out - 32
    else out

-- `char scan_toc (u8 scan)`
unfoldable pub scan_toc : KbdStatus → ℕ → ℕ
unfolding upper_rows lower_rows keypad
scan_toc s scan =
    apply_capslock s.capslock
      (key_char s (get_or (upper_rows ++ lower_rows ++ keypad) scan no_char))

-- The rest of a round of `kbd_read` behind the two returns.
abbrev pub advance_read : Kbd → Kbd
advance_read k = record k {
  read_i = if k.read_i + 1 == scan_buf_size then 0 else k.read_i + 1;
  fresh = true;
}

-- What a round of `kbd_read` does with the code at `read_i`: the characters so far and the status.
unfoldable pub take_code : Kbd → List ℕ → List ℕ × Kbd
take_code k out =
    let scan = get_or k.scancode_buf k.read_i 0 in
    let temp = scan_toc k.status scan in
    if not k.fresh
    then (out, k)
    else if temp == 0
    then (out, record k { status = update_kbd_status k.status scan })
    else (out ++ (temp ∷ []), k)

-- `u8 kbd_read (char *buf, u8 n)` on fuel: the characters written to `buf`, as many as it returns.
unfoldable pub kbd_read : ℕ → Kbd → ℕ → List ℕ → Option (List ℕ × Kbd)
kbd_read zero k n out = none
kbd_read (suc fuel) k n out =
    let (out', k') = take_code k out in
    let rest = kbd_read fuel (advance_read k') n out' in
    if length out == n
    then some (out, k)
    else if wrap_i (k'.read_i + 1) == k'.scan_i
    then some (out', record k' { fresh = false })
    else rest
