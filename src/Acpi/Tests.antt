-- ===== src/Acpi/Tests.antt =====
-- A MADT with one I/O APIC, as src/acpi.rs parses it.
use ventura_os.Base.{false, ◌==◌, if◌then◌else◌, arith}
use ventura_os.Acpi.{Memory, Acpi, new_info, parse_madt, isa_irq_to_gsi}
use ventura_os.Acpi.Madt.{InBounds, Parsed, parse_madt-Parsed, Routed, isa_irq_to_gsi-Routed}

-- A table of 56 bytes at 0x1000: the entry of 12 bytes at 0x102C, and a byte that makes the sum 0.
abbrev table : Memory
table a =
    if a == 0x1004
    then 56
    else if a == 0x102C
    then 1
    else if a == 0x102D
    then 12
    else if a == 0x1009
    then 187
    else 0

abbrev fresh : Acpi
fresh = record { rsdp_address = 0; info = new_info; madt_valid = false }

new_info-InBounds : InBounds new_info
new_info-InBounds = record { cpus = omega arith; ioapics = omega arith; overrides = omega arith }

parse_madt-Parsed_example : Parsed table 0x1000 fresh (parse_madt table 0x1000 fresh)
parse_madt-Parsed_example =
    parse_madt-Parsed table 0x1000 fresh (λ x. ground arith) (omega arith) new_info-InBounds

isa_irq_to_gsi-Routed_example : Routed fresh 4 (isa_irq_to_gsi fresh 4)
isa_irq_to_gsi-Routed_example = isa_irq_to_gsi-Routed fresh 4
