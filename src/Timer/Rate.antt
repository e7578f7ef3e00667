-- ===== src/Timer/Rate.antt =====
-- The timer of src/timer.rs after its set-up: it is armed at the calibrated rate, and its
-- interrupt counts ticks.
use ventura_os.Base.{
  ℕ, ◌+◌, ◌-◌, ◌*◌, ◌/◌, ◌%◌, ◌≤◌, ◌<◌, ◌≡◌, ◌⊎◌, refl, sym, subst, true, false, Option, none, some,
  ◌==◌, if◌then◌else◌, inl, inr, arith, u32_mod, u64_mod,
}
use ventura_os.Apic.{Apic, eoi, start_lapic_timer}
use ventura_os.Idt.{Irqs, interrupt}
use ventura_os.Idt.Dispatch.{register_irq-Served}
use ventura_os.Timer.{
  Timer, timer_irq_handler, Pit, wait, pit_wait_limit, rate_of, calibrate_lapic_timer, clamp,
  set_count, init,
}

-- The count for 100 ticks a second: that of the calibrated rate, rounded down and at least 1, or
-- the count before.
abbrev pub IsRated : Option ℕ → ℕ → ℕ → Type 0
IsRated none before count = count ≡ before
IsRated (some rate) before count = ((count * 100 ≤ rate) ⊎ (count ≡ 1)) × (rate < (count + 1) * 100)

pub record IsTicking (rate : Option ℕ) (before : ℕ) (r : Irqs Timer × Apic × Timer) : Type 0 where
  pub positive : 1 ≤ r.2.initial_count
  pub small : r.2.initial_count < u32_mod
  pub rated : IsRated rate before r.2.initial_count
  pub armed : r.1.lapic 0x380 ≡ r.2.initial_count
  pub periodic : r.1.lapic 0x320 ≡ 0x2_0020
  pub divided : r.1.lapic 0x3E0 ≡ 0x03
  pub ticks :
      (apic : Apic) (t : Timer)
      → interrupt 32 r.0 apic t ≡ (r.0, eoi apic, record t { ticks = (t.ticks + 1) % u64_mod })

-- A rate is that of a 32-bit counter.
abbrev IsRate : Option ℕ → Type 0
IsRate none = Unit
IsRate (some rate) = rate ≤ (u32_mod - 1) * 20

rate_of-IsRate : (pit : Pit) (polls : Option ℕ) → IsRate (rate_of pit polls)
unfolding rate_of
rate_of-IsRate pit none = tt
rate_of-IsRate pit (some i) =
    elim (u32_mod - 1 - pit.counter i == 0)
      as (λ b. IsRate (if b then none else some ((u32_mod - 1 - pit.counter i) * 20))) [
        | true ↦ tt
        | false ↦ omega arith
      ]

set_count_lem :
    (rate : Option ℕ) (t : Timer)
    → IsRate rate
    → 1 ≤ t.initial_count
    → t.initial_count < u32_mod
    → (1 ≤ (set_count rate t).initial_count)
      × ((set_count rate t).initial_count < u32_mod)
      × IsRated rate t.initial_count (set_count rate t).initial_count
unfolding set_count clamp
set_count_lem none t bound one few = (one, few, refl)
set_count_lem (some rate) t bound one few =
    let most : rate ≤ (u32_mod - 1) * 20 = bound in
    let whole : rate / 100 * 100 ≤ rate = omega arith in
    let rest : rate < (rate / 100 + 1) * 100 = omega arith in
    elim (quotient (rate / 100)) [
      | inl zero_rate ↦
          let e : clamp (rate / 100) 1 (u32_mod - 1) ≡ 1 = ground arith in
          subst Fits (sym e) (omega arith, omega arith, (inr refl, omega (arith, rest, zero_rate)))
      | inr more ↦
          let e : clamp (rate / 100) 1 (u32_mod - 1) ≡ rate / 100 = ground arith in
          subst Fits (sym e) (more, omega (arith, most, whole), (inl whole, rest))
    ]
  where
    Fits : ℕ → Type 0
    Fits c = (1 ≤ c) × (c < u32_mod) × IsRated (some rate) t.initial_count c

    quotient : (q : ℕ) → (q ≡ 0) ⊎ (1 ≤ q)
    quotient q = ground arith

-- After `init` of src/timer.rs the timer runs periodically with divider 16 at vector 32, loaded
-- with the count that the state keeps, which is positive and has 32 bits. With a calibrated rate
-- this is the largest count for at least 100 ticks a second, or 1; without one the count stays.
-- From then on the interrupt at vector 32 adds one tick and is acknowledged. The condition is
-- that the count before is positive and has 32 bits.
pub init-IsTicking :
    (pit : Pit) (irqs : Irqs Timer) (a : Apic) (t : Timer)
    → 1 ≤ t.initial_count
    → t.initial_count < u32_mod
    → IsTicking (calibrate_lapic_timer pit a).0 t.initial_count (init pit irqs a t)
unfolding init start_lapic_timer timer_irq_handler calibrate_lapic_timer
init-IsTicking pit irqs a t one few =
    let rate : Option ℕ = (calibrate_lapic_timer pit a).0 in
    let count = set_count_lem rate t (rate_of-IsRate pit (wait pit 0 pit_wait_limit)) one few in
    record {
      positive = count.0;
      small = count.1;
      rated = count.2;
      armed = refl;
      periodic = refl;
      divided = refl;
      ticks = λ apic u. (register_irq-Served 0 timer_irq_handler irqs apic u (omega arith)).runs;
    }
