-- ===== src/Apic/Tests.antt =====
-- An I/O APIC of 24 pins, as src/apic.rs sets it up without ACPI tables.
use ventura_os.Base.{◌*◌, ◌≡◌, ◌==◌, true, false, if◌then◌else◌, arith}
use ventura_os.Acpi.{Acpi, new_info}
use ventura_os.Apic.{Apic, lapic_default_base, ioapic_default_base, init_ioapic}
use ventura_os.Apic.Masked.{is_masked, init_ioapic-masked}

abbrev no_tables : Acpi
no_tables = record { rsdp_address = 0; info = new_info; madt_valid = false }

-- The version register says 23 in bits 16 to 23.
abbrev reset : Apic
reset = record {
  lapic_base = lapic_default_base;
  ioapic_base = ioapic_default_base;
  ioapic_gsi_base = 0;
  lapic = λ _. 0;
  ioapic = λ reg. if reg == 1 then 23 * 0x1_0000 else 0;
  apic_base_msr = 0;
}

init_ioapic-masked_example : is_masked (init_ioapic no_tables reset) 9 ≡ true
init_ioapic-masked_example = init_ioapic-masked no_tables reset 9 (omega arith)
