-- ===== src/Idt/Tests.antt =====
-- A table and a handler of the timer's interrupt, as src/idt.rs sets them up.
use ventura_os.Base.{ℕ, ◌+◌, ◌*◌, none, arith}
use ventura_os.Apic.{Apic, lapic_default_base, ioapic_default_base}
use ventura_os.Idt.{Irqs, Stubs, Table, missing, register_irq, init}
use ventura_os.Idt.Gates.{IsGate, init-IsGate}
use ventura_os.Idt.Dispatch.{Served, register_irq-Served}

abbrev stubs : Stubs
stubs = record {
  stub = λ k. 0x10_0000 + 16 * k;
  irq_stub = λ k. 0x10_1000 + 16 * k;
  generic_irq = 0x10_2000;
  spurious_irq = 0x10_2010;
}

abbrev empty_table : Table
empty_table = λ _. missing

init-IsGate_example : IsGate (init stubs empty_table 255) 0x10_2010
init-IsGate_example = init-IsGate stubs empty_table 255 (omega arith) (omega arith)

abbrev no_handlers : Irqs ℕ
no_handlers = record { handlers = λ _. none; unhandled = λ _. 0; unexpected = 0 }

abbrev reset : Apic
reset = record {
  lapic_base = lapic_default_base;
  ioapic_base = ioapic_default_base;
  ioapic_gsi_base = 0;
  lapic = λ _. 0;
  ioapic = λ _. 0;
  apic_base_msr = 0;
}

-- The state counts the ticks.
abbrev tick : ℕ → ℕ → ℕ
tick _ n = n + 1

register_irq-Served_example : Served 0 tick no_handlers reset 5 (register_irq 0 tick no_handlers)
register_irq-Served_example = register_irq-Served 0 tick no_handlers reset 5 (omega arith)
