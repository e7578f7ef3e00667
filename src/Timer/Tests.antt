-- ===== src/Timer/Tests.antt =====
-- A timer that src/timer.rs calibrates: the counter goes 3,125,000 down in 50 ms.
use ventura_os.Base.{◌-◌, ◌≡◌, refl, none, some, true, arith, u32_mod}
use ventura_os.Apic.{Apic, lapic_default_base, ioapic_default_base}
use ventura_os.Idt.{Irqs}
use ventura_os.Timer.{
  Timer, Pit, init, wait, rate_of, set_count, calibrate_lapic_timer, timer_fallback_count,
  uptime_ms,
}
use ventura_os.Timer.Rate.{IsTicking, init-IsTicking}

abbrev pit_at_once : Pit
pit_at_once = record { high = λ _. true; counter = λ _. u32_mod - 1 - 3_125_000 }

abbrev no_handlers : Irqs Timer
no_handlers = record { handlers = λ _. none; unhandled = λ _. 0; unexpected = 0 }

abbrev off : Apic
off = record {
  lapic_base = lapic_default_base;
  ioapic_base = ioapic_default_base;
  ioapic_gsi_base = 0;
  lapic = λ _. 0;
  ioapic = λ _. 0;
  apic_base_msr = 0;
}

abbrev fresh : Timer
fresh = record { ticks = 0; initial_count = timer_fallback_count }

calibrated : (calibrate_lapic_timer pit_at_once off).0 ≡ some 62_500_000
unfolding calibrate_lapic_timer rate_of wait
calibrated = refl

count-calibrated : (init pit_at_once no_handlers off fresh).2.initial_count ≡ 625_000
unfolding init calibrate_lapic_timer rate_of wait set_count
count-calibrated = refl

uptime_ms-seconds : uptime_ms (record fresh { ticks = 250 }) ≡ 2500
unfolding uptime_ms
uptime_ms-seconds = refl

init-IsTicking_example :
    IsTicking
      (calibrate_lapic_timer pit_at_once off).0
      timer_fallback_count
      (init pit_at_once no_handlers off fresh)
init-IsTicking_example =
    init-IsTicking pit_at_once no_handlers off fresh (omega arith) (omega arith)
