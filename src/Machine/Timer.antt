-- ===== src/Machine/Timer.antt =====
-- src/time/pit.cpp: the timer's counter and the time since boot.
use cpp_os.Base.{
  ℕ, zero, suc, ◌+◌, ◌*◌, ◌/◌, ◌%◌, ◌^◌, ◌<◌, ◌≤◌, ◌≡◌, ap, bit_or, Option, none, some, List, [],
  ◌∷◌, if◌then◌else◌, add64, arith, refl,
}
use cpp_os.Base.Bits.{or_fields}
use cpp_os.Util.Misc.{get_bits}
use cpp_os.Interrupt.{first, reg_int_handler}
use cpp_os.Machine.{Write, outb}

-- `pit_data`
pub record PitData : Type 0 where
  pub elapsed_time : ℕ
  pub reset : ℕ
  pub nano_reset : ℕ

-- `NANOSEC_PER_CLOCK`
abbrev pub nanosec_per_clock : ℕ
nanosec_per_clock = 838

-- `pit_data` at boot.
abbrev pub fresh : PitData
fresh = record { elapsed_time = 0; reset = 0; nano_reset = 0 }

-- `timer_irq_handler`
unfoldable pub timer_irq_handler : PitData → PitData
timer_irq_handler p = record p { elapsed_time = add64 p.elapsed_time p.nano_reset }

-- `void set_pit_reset (u16 reset)`: channel 0, low then high byte, square wave.
unfoldable pub set_pit_reset : PitData → ℕ → List Write × PitData
set_pit_reset p reset = (
  outb 0x43 54 ∷ outb 0x40 (get_bits reset 0 7) ∷ outb 0x40 (get_bits reset 8 15) ∷ [],
  record p { reset = reset; nano_reset = nanosec_per_clock * reset },
)

-- `void time_init ()`, where `hs` are the slots of IRQ_TIMER and `none` is the panic.
unfoldable pub time_init : PitData → List ℕ → ℕ → Option (List Write × PitData × List ℕ)
time_init p hs handler =
    let (writes, p') = set_pit_reset p 0xffff in
    let (ok, hs') = reg_int_handler hs handler first in if ok then some (writes, p', hs') else none

-- `u64 time_nsec ()`, where the latched counter is read as `low` and `high`.
unfoldable pub time_nsec : PitData → ℕ → ℕ → ℕ
time_nsec p low high = add64 p.elapsed_time (nanosec_per_clock * bit_or (high * 2 ^ 8) low)

-- The rounding of `time_sec` and `time_sec_nolatch`.
unfoldable pub seconds : ℕ → ℕ
seconds nsec = add64 nsec 500000000 / 1000000000

-- `u64 time_sec ()`
unfoldable pub time_sec : PitData → ℕ → ℕ → ℕ
time_sec p low high = seconds (time_nsec p low high)

-- `u64 time_nsec_nolatch ()`
unfoldable pub time_nsec_nolatch : PitData → ℕ
time_nsec_nolatch p = p.elapsed_time

-- `u64 time_sec_nolatch ()`
unfoldable pub time_sec_nolatch : PitData → ℕ
time_sec_nolatch p = seconds (time_nsec_nolatch p)

-- The timer's data after `set_pit_reset 0xffff` and `k` interrupts.
abbrev pub after_ticks : ℕ → PitData
after_ticks zero = (set_pit_reset fresh 0xffff).1
after_ticks (suc k) = timer_irq_handler (after_ticks k)

after_ticks_fields :
    (k : ℕ)
    → ((after_ticks k).nano_reset ≡ 838 * 65535)
      × ((after_ticks k).elapsed_time ≡ k * (838 * 65535) % 2 ^ 64)
unfolding timer_irq_handler set_pit_reset
after_ticks_fields zero = (refl, refl)
after_ticks_fields (suc k) = ground (arith, after_ticks_fields k)

time_nsec_bytes :
    (p : PitData) (low high : ℕ)
    → low < 2 ^ 8
    → time_nsec p low high ≡ add64 p.elapsed_time (838 * (high * 256 + low))
unfolding time_nsec
time_nsec_bytes p low high h =
    ap (λ (t : ℕ). add64 p.elapsed_time (838 * t)) (or_fields 8 high low h)

-- The time runs backwards between two timer interrupts. The counter counts down; after `k`
-- interrupts, a reading of the counter as 256 * high + low gives k periods and 838 ns for each clock
-- that is left, where the clocks that have passed are meant. So of two readings without an interrupt
-- between them, the later, lower one gives the earlier time. Readings of two bytes, and at most
-- 2 ^ 37 interrupts, some two hundred thousand years.
pub time_nsec_backwards :
    (k low high low' high' : ℕ)
    → k ≤ 2 ^ 37
    → low < 2 ^ 8
    → high < 2 ^ 8
    → low' < 2 ^ 8
    → high' < 2 ^ 8
    → high' * 256 + low' < high * 256 + low
    → (time_nsec (after_ticks k) low high ≡ k * (838 * 65535) + 838 * (high * 256 + low))
      × (time_nsec (after_ticks k) low' high' < time_nsec (after_ticks k) low high)
time_nsec_backwards k low high low' high' bound hl hh hl' hh' later = ground (
  arith,
  after_ticks_fields k,
  time_nsec_bytes (after_ticks k) low high hl,
  time_nsec_bytes (after_ticks k) low' high' hl',
)

-- `time_sec` is the nearest second to `time_nsec`, half a second up, while `time_nsec` is below
-- 2 ^ 64 - 5 * 10 ^ 8.
pub time_sec_nearest :
    (p : PitData) (low high : ℕ)
    → time_nsec p low high + 500000000 < 2 ^ 64
    → (time_sec p low high * 1000000000 ≤ time_nsec p low high + 500000000)
      × (time_nsec p low high < time_sec p low high * 1000000000 + 500000000)
unfolding time_sec seconds
time_sec_nearest p low high h = ground arith
