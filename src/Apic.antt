-- ===== src/Apic.antt =====
-- The local APIC and the I/O APIC: src/apic.rs. The devices' registers are part of the state: a
-- write to the I/O APIC through IOREGSEL and IOWIN sets the register that it selects, a read gives
-- it back. The ports of the old PIC are left out.
pub mod Masked
mod Tests
use ventura_os.Base.{
  ℕ, zero, suc, ◌+◌, ◌-◌, ◌*◌, ◌/◌, ◌%◌, ◌^◌, Bool, true, false, not, ◌&&◌, none, some, ltb, leb,
  ◌==◌, if◌then◌else◌, update, bit_and, bit_or, u32_mod,
}
use ventura_os.Acpi.{Acpi, MadtInfo, InterruptOverride, madt, isa_irq_to_gsi}

abbrev pub lapic_default_base : ℕ
lapic_default_base = 0xFEE0_0000

abbrev pub ioapic_default_base : ℕ
ioapic_default_base = 0xFEC0_0000

abbrev pub ioapic_active_low : ℕ
ioapic_active_low = 2 ^ 13

abbrev pub ioapic_level_triggered : ℕ
ioapic_level_triggered = 2 ^ 15

abbrev pub ioapic_masked : ℕ
ioapic_masked = 2 ^ 16

abbrev pub polarity_mask : ℕ
polarity_mask = 0x3

abbrev pub polarity_active_low : ℕ
polarity_active_low = 0x3

abbrev pub trigger_mask : ℕ
trigger_mask = 0xC

abbrev pub trigger_level : ℕ
trigger_level = 0xC

-- LAPIC_BASE, IOAPIC_BASE and IOAPIC_GSI_BASE, the registers and the MSR IA32_APIC_BASE.
pub record Apic : Type 0 where
  pub lapic_base : ℕ
  pub ioapic_base : ℕ
  pub ioapic_gsi_base : ℕ
  pub lapic : ℕ → ℕ
  pub ioapic : ℕ → ℕ
  pub apic_base_msr : ℕ

-- The I/O APICs from `i` on, `left` of them; the last with GSI base 0 counts.
unfoldable pub choose_ioapic : ℕ → ℕ → MadtInfo → Apic → Apic
choose_ioapic i zero info a = a
choose_ioapic i (suc left) info a = choose_ioapic (suc i) left info (
    if (info.ioapics i).gsi_base == 0
    then record a { ioapic_base = (info.ioapics i).address; ioapic_gsi_base = 0 }
    else a)

unfoldable pub configure_from_acpi : Acpi → Apic → Apic
unfolding choose_ioapic
configure_from_acpi acpi a = elim (madt acpi) [
  | none ↦ a
  | some info ↦
      choose_ioapic 0 info.ioapic_count info
        (if info.lapic_address == 0 then a else record a { lapic_base = info.lapic_address })
]

abbrev pub lapic_write : ℕ → ℕ → Apic → Apic
lapic_write reg value a = record a { lapic = update a.lapic reg value }

abbrev pub ioapic_write : ℕ → ℕ → Apic → Apic
ioapic_write reg value a = record a { ioapic = update a.ioapic reg value }

-- The MSR with the enable bit, and the eleven writes.
unfoldable pub init_lapic : Apic → Apic
init_lapic a0 =
    let a = record a0 { apic_base_msr = bit_or a0.apic_base_msr (2 ^ 11) } in
    let a = lapic_write 0xE0 0xFFFF_FFFF a in
    let id = bit_and (a.lapic 0x20 / 2 ^ 24) 0xFF in
    let a = lapic_write 0xD0 (id * 2 ^ 24 % u32_mod) a in
    let a = lapic_write 0x80 0 a in
    let a = lapic_write 0x320 0x1_0000 a in
    let a = lapic_write 0x350 0x1_0000 a in
    let a = lapic_write 0x360 0x1_0000 a in
    let a = lapic_write 0x370 0x1_0000 a in
    let a = lapic_write 0xF0 (bit_or 0x100 0xFF) a in lapic_write 0xB0 0 a

abbrev pub eoi : Apic → Apic
eoi a = lapic_write 0xB0 0 a

unfoldable pub inti_flags : ℕ → ℕ
inti_flags flags =
    let bits =
      if bit_and flags polarity_mask == polarity_active_low then ioapic_active_low else 0 in
    if bit_and flags trigger_mask == trigger_level then bit_or bits ioapic_level_triggered else bits

-- `(0x10 + 2 * pin) as u8` and `(0x11 + 2 * pin) as u8`
abbrev pub reg_low : ℕ → ℕ
reg_low pin = (0x10 + 2 * pin) % 256

abbrev pub reg_high : ℕ → ℕ
reg_high pin = (0x11 + 2 * pin) % 256

unfoldable pub write_redirection : ℕ → ℕ → ℕ → ℕ → Apic → Apic
write_redirection pin vector dest_lapic_id bits a =
    ioapic_write (reg_high pin) (dest_lapic_id * 2 ^ 24)
      (ioapic_write (reg_low pin) (bit_or vector bits) a)

-- The pins from `i` on, `left` of them.
unfoldable pub mask_all : ℕ → ℕ → Apic → Apic
unfolding write_redirection
mask_all i zero a = a
mask_all i (suc left) a =
    mask_all (suc i) left (write_redirection i ((0x20 + i % 256) % 256) 0 ioapic_masked a)

unfoldable pub route_override : ℕ → InterruptOverride → Apic → Apic
unfolding write_redirection inti_flags
route_override max_entries o a =
    if leb a.ioapic_gsi_base o.gsi && ltb (o.gsi - a.ioapic_gsi_base) max_entries
    then write_redirection (o.gsi - a.ioapic_gsi_base) ((0x20 + o.isa_irq) % 256) 0
        (bit_or ioapic_masked (inti_flags o.flags)) a
    else a

-- The overrides from `i` on, `left` of them.
unfoldable pub route_overrides : ℕ → ℕ → ℕ → MadtInfo → Apic → Apic
unfolding route_override
route_overrides max_entries i zero info a = a
route_overrides max_entries i (suc left) info a =
    route_overrides max_entries (suc i) left info (route_override max_entries (info.overrides i) a)

-- The number of redirection entries, from the version register.
abbrev pub max_entries_of : Apic → ℕ
max_entries_of a = bit_and (a.ioapic 1 / 2 ^ 16) 0xFF + 1

unfoldable pub init_ioapic : Acpi → Apic → Apic
unfolding mask_all route_overrides
init_ioapic acpi a =
    let max_entries = max_entries_of a in
    let a' = mask_all 0 max_entries a in
    elim (madt acpi) [
      | none ↦ a'
      | some info ↦ route_overrides max_entries 0 info.override_count info a'
    ]

-- 32-bit; the subtraction wraps.
abbrev pub isa_irq_pin : Acpi → ℕ → Apic → ℕ
isa_irq_pin acpi irq a = ((isa_irq_to_gsi acpi irq).0 + u32_mod - a.ioapic_gsi_base) % u32_mod

unfoldable pub route_irq : Acpi → ℕ → ℕ → ℕ → Bool → Apic → Apic
unfolding inti_flags write_redirection
route_irq acpi irq vector dest_lapic_id masked a =
    let bits = inti_flags (isa_irq_to_gsi acpi irq).1 in
    write_redirection (isa_irq_pin acpi irq a) vector dest_lapic_id
      (if masked then bit_or bits ioapic_masked else bits) a

unfoldable pub unmask_irq : Acpi → ℕ → Apic → Apic
unmask_irq acpi irq a =
    let reg = reg_low (isa_irq_pin acpi irq a) in
    ioapic_write reg (bit_and (a.ioapic reg) (u32_mod - 1 - ioapic_masked)) a

unfoldable pub mask_irq : Acpi → ℕ → Apic → Apic
mask_irq acpi irq a =
    let reg = reg_low (isa_irq_pin acpi irq a) in
    ioapic_write reg (bit_or (a.ioapic reg) ioapic_masked) a

unfoldable pub start_lapic_timer : ℕ → ℕ → ℕ → Apic → Apic
start_lapic_timer vector initial_count divide_cfg a =
    lapic_write 0x380 initial_count
      (lapic_write 0x320 (bit_or 0x2_0000 vector) (lapic_write 0x3E0 divide_cfg a))
