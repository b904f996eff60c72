-- ===== src/Driver/Tests.antt =====
-- The theorems on src/driver at small states.
use cpp_os.Base.{◌≡◌, refl, [], false, arith, replicate}
use cpp_os.Driver.Ps2.{Kbd, KbdStatus, kbd_read, scan_toc, apply_capslock}
use cpp_os.Driver.Ps2.Ring.{IsRing, ReadDone, kbd_read-ReadDone}

abbrev no_keys : KbdStatus
no_keys = record { shift = 0; capslock = false; numlock = false }

-- Everything up to the code at 4 was read.
abbrev drained : Kbd
drained = record {
  scancode_buf = replicate 32 0x1e;
  scan_i = 5;
  read_i = 4;
  status = no_keys;
  fresh = false;
}

drained-IsRing : IsRing drained
drained-IsRing = (refl, omega arith, omega arith)

kbd_read-ReadDone_example : ReadDone 8 (kbd_read 32 drained 8 [])
kbd_read-ReadDone_example = kbd_read-ReadDone drained 8 drained-IsRing

scan_a : scan_toc no_keys 0x1e ≡ 97
unfolding scan_toc apply_capslock
scan_a = refl
