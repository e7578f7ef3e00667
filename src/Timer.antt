-- ===== src/Timer.antt =====
-- The tick of the local APIC's timer: src/timer.rs. What the PIT's output and the timer's counter
-- show is a parameter; the ports that program the PIT are left out.
pub mod Rate
mod Tests
use ventura_os.Base.{
  ℕ, zero, suc, ◌+◌, ◌-◌, ◌*◌, ◌/◌, ◌%◌, Bool, true, false, Option, none, some, ltb, ◌==◌,
  if◌then◌else◌, u32_mod, u64_mod,
}
use ventura_os.Apic.{Apic, lapic_write, start_lapic_timer}
use ventura_os.Idt.{Irqs, register_irq}

abbrev pub timer_irq : ℕ
timer_irq = 0

abbrev pub timer_vector : ℕ
timer_vector = 32

abbrev pub timer_hz : ℕ
timer_hz = 100

abbrev pub timer_divide_16 : ℕ
timer_divide_16 = 0x03

abbrev pub timer_fallback_count : ℕ
timer_fallback_count = 0x0010_0000

abbrev pub pit_calibration_hz : ℕ
pit_calibration_hz = 20

abbrev pub pit_wait_limit : ℕ
pit_wait_limit = 50_000_000

-- TICKS and INITIAL_COUNT.
pub record Timer : Type 0 where
  pub ticks : ℕ
  pub initial_count : ℕ

unfoldable pub uptime_ms : Timer → ℕ
uptime_ms t = t.ticks * 1000 % u64_mod / timer_hz

unfoldable pub timer_irq_handler : ℕ → Timer → Timer
timer_irq_handler irq t = record t { ticks = (t.ticks + 1) % u64_mod }

-- Whether the PIT's output is high at each poll, and the timer's counter after it.
pub record Pit : Type 0 where
  pub high : ℕ → Bool
  pub counter : ℕ → ℕ

-- The poll that sees the output high, from poll `i` on, with `left` before the limit.
unfoldable pub wait : Pit → ℕ → ℕ → Option ℕ
wait pit i zero = if pit.high i then some i else none
wait pit i (suc left) = elim (pit.high i) [ true ↦ some i | false ↦ wait pit (suc i) left ]

-- The counts per second, from the distance that the counter has gone when the wait ends.
unfoldable pub rate_of : Pit → Option ℕ → Option ℕ
rate_of pit none = none
rate_of pit (some i) =
    let elapsed = u32_mod - 1 - pit.counter i in
    if elapsed == 0 then none else some (elapsed * pit_calibration_hz)

-- The timer runs masked during the wait, and is stopped on each way out.
unfoldable pub calibrate_lapic_timer : Pit → Apic → Option ℕ × Apic
calibrate_lapic_timer pit a =
    let a = lapic_write 0x3E0 timer_divide_16 a in
    let a = lapic_write 0x320 (0x1_0000 + timer_vector) a in
    let a = lapic_write 0x380 (u32_mod - 1) a in
    (rate_of pit (wait pit 0 pit_wait_limit), lapic_write 0x380 0 a)

unfoldable pub clamp : ℕ → ℕ → ℕ → ℕ
clamp x low high = if ltb x low then low else if ltb high x then high else x

unfoldable pub set_count : Option ℕ → Timer → Timer
unfolding clamp
set_count (some rate) t = record t { initial_count = clamp (rate / timer_hz) 1 (u32_mod - 1) }
set_count none t = t

unfoldable pub init : Pit → Irqs Timer → Apic → Timer → Irqs Timer × Apic × Timer
unfolding calibrate_lapic_timer
init pit irqs a t =
    let calibrated = calibrate_lapic_timer pit a in
    let t = set_count calibrated.0 t in
    (
      (register_irq timer_irq timer_irq_handler irqs).1,
      start_lapic_timer timer_vector t.initial_count timer_divide_16 calibrated.1,
      t,
    )
