-- ===== src/Driver/Ps2/Keys.antt =====
-- The shift counter and the characters of src/driver/ps2.cpp.
use cpp_os.Base.{ℕ, ◌+◌, ◌%◌, ◌<◌, ◌≤◌, ◌≡◌, true, false, ltb, if◌then◌else◌, arith, ap}
use cpp_os.Driver.Ps2.{KbdStatus, update_kbd_status, clamp_shift, apply_capslock}

clamp_shift_lem : (s : ℕ) → clamp_shift s ≡ (if ltb 2 s then 2 else s)
unfolding clamp_shift
clamp_shift_lem s = ground arith

-- The counter of held shift keys stays at 2 or below under every code.
pub update_kbd_status-shift :
    (s : KbdStatus) (c : ℕ) → s.shift ≤ 2 → (update_kbd_status s c).shift ≤ 2
unfolding update_kbd_status
update_kbd_status-shift s c h =
    ground (arith, clamp_shift_lem ((s.shift + 1) % 256), clamp_shift_lem ((s.shift + 255) % 256))

-- Releasing a shift key that was not counted as held sets the counter to 2: the counter goes round
-- from 0 to 255 and is then cut to 2.
pub update_kbd_status_release :
    (s : KbdStatus)
    → (s.shift ≡ 0)
    → ((update_kbd_status s 0xaa).shift ≡ 2) × ((update_kbd_status s 0xb6).shift ≡ 2)
unfolding update_kbd_status
update_kbd_status_release s h =
    let c = clamp_shift_lem ((s.shift + 255) % 256) in (ground (arith, c, h), ground (arith, c, h))

-- A press of a shift key and its release give back the status, while at most one is held.
pub update_kbd_status_tap :
    (s : KbdStatus) → s.shift < 2 → update_kbd_status (update_kbd_status s 0x2a) 0xaa ≡ s
unfolding update_kbd_status
update_kbd_status_tap s h =
    let c = clamp_shift_lem ((s.shift + 1) % 256) in
    let d = clamp_shift_lem ((clamp_shift ((s.shift + 1) % 256) + 255) % 256) in
    let same : clamp_shift ((clamp_shift ((s.shift + 1) % 256) + 255) % 256) ≡ s.shift =
      ground (arith, c, d) in
    ap (λ (n : ℕ). record s { shift = n }) same

-- The caps lock swaps the case of letters, leaves all other characters, and done twice changes
-- nothing.
pub apply_capslock_twice :
    (c : ℕ) → (apply_capslock true (apply_capslock true c) ≡ c) × (apply_capslock false c ≡ c)
unfolding apply_capslock
apply_capslock_twice c = (ground arith, ground arith)
