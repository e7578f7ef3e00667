-- ===== src/Acpi.antt =====
-- ACPI tables: src/acpi.rs. Physical memory is a function from addresses to bytes, an array of the
-- MADT a function of which the first `…_count` entries count. The statics RSDP_ADDRESS, MADT and
-- MADT_VALID are the record `Acpi`. The memory read is what the code reads, past the end of a
-- table too.
pub mod Tests
pub mod Madt
use ventura_os.Base.{
  ℕ, zero, suc, ◌+◌, ◌-◌, ◌*◌, ◌/◌, ◌%◌, ◌^◌, ◌≤◌, ◌<◌, ◌≡◌, Bool, true, false, not, ◌&&◌, ◌||◌,
  Option, none, some, List, [], ◌∷◌, ltb, leb, ◌==◌, if◌then◌else◌, add64, sub64, update, bit_and,
}
use ventura_os.Base.Search.{find_first}
use ventura_os.Memory.{read_le}

abbrev pub max_cpus : ℕ
max_cpus = 64

abbrev pub max_ioapics : ℕ
max_ioapics = 4

abbrev pub max_overrides : ℕ
max_overrides = 16

abbrev pub madt_local_apic : ℕ
madt_local_apic = 0

abbrev pub madt_io_apic : ℕ
madt_io_apic = 1

abbrev pub madt_interrupt_override : ℕ
madt_interrupt_override = 2

abbrev pub madt_local_apic_address_override : ℕ
madt_local_apic_address_override = 5

pub data AcpiError : Type 0 where
  no_rsdp bad_rsdp_checksum bad_table_checksum no_madt : AcpiError

pub record IoApic : Type 0 where
  pub id : ℕ
  pub address : ℕ
  pub gsi_base : ℕ

pub record InterruptOverride : Type 0 where
  pub isa_irq : ℕ
  pub gsi : ℕ
  pub flags : ℕ

pub record MadtInfo : Type 0 where
  pub lapic_address : ℕ
  pub pcat_compat : Bool
  pub cpu_apic_ids : ℕ → ℕ
  pub cpu_count : ℕ
  pub ioapics : ℕ → IoApic
  pub ioapic_count : ℕ
  pub overrides : ℕ → InterruptOverride
  pub override_count : ℕ

abbrev pub new_info : MadtInfo
new_info = record {
  lapic_address = 0;
  pcat_compat = false;
  cpu_apic_ids = λ _. 0;
  cpu_count = 0;
  ioapics = λ _. record { id = 0; address = 0; gsi_base = 0 };
  ioapic_count = 0;
  overrides = λ _. record { isa_irq = 0; gsi = 0; flags = 0 };
  override_count = 0;
}

pub record Acpi : Type 0 where
  pub rsdp_address : ℕ
  pub info : MadtInfo
  pub madt_valid : Bool

abbrev pub Memory : Type 0
Memory = ℕ → ℕ

abbrev pub set_rsdp : ℕ → Acpi → Acpi
set_rsdp address a = record a { rsdp_address = address }

unfoldable pub madt : Acpi → Option MadtInfo
madt a = if a.madt_valid then some a.info else none

-- The fold of `checksum_ok`, with its accumulator.
unfoldable pub sum_bytes : Memory → ℕ → ℕ → ℕ → ℕ
sum_bytes mem addr zero acc = acc
sum_bytes mem addr (suc len) acc = sum_bytes mem (addr + 1) len ((acc + mem addr) % 256)

unfoldable pub checksum_ok : Memory → ℕ → ℕ → Bool
unfolding sum_bytes
checksum_ok mem addr len = sum_bytes mem addr len 0 == 0

abbrev pub header_bytes : ℕ
header_bytes = 36

-- `read_header(addr).length`
abbrev pub header_length : Memory → ℕ → ℕ
header_length mem addr = read_le mem (addr + 4) 4

unfoldable pub bytes_are : Memory → ℕ → List ℕ → Bool
bytes_are mem addr [] = true
bytes_are mem addr (b ∷ bs) = (mem addr == b) && bytes_are mem (addr + 1) bs

-- The four kinds of entry, at address `entry`.
unfoldable pub add_cpu : Memory → ℕ → MadtInfo → MadtInfo
add_cpu mem entry info =
    if not (bit_and (read_le mem (entry + 4) 4) 1 == 0) && ltb info.cpu_count max_cpus
    then record info {
      cpu_apic_ids = update info.cpu_apic_ids info.cpu_count (mem (entry + 3));
      cpu_count = info.cpu_count + 1;
    }
    else info

unfoldable pub add_ioapic : Memory → ℕ → MadtInfo → MadtInfo
add_ioapic mem entry info =
    if ltb info.ioapic_count max_ioapics
    then record info {
      ioapics = update info.ioapics info.ioapic_count (record {
        id = mem (entry + 2);
        address = read_le mem (entry + 4) 4;
        gsi_base = read_le mem (entry + 8) 4;
      });
      ioapic_count = info.ioapic_count + 1;
    }
    else info

unfoldable pub add_override : Memory → ℕ → MadtInfo → MadtInfo
add_override mem entry info =
    if ltb info.override_count max_overrides
    then record info {
      overrides = update info.overrides info.override_count (record {
        isa_irq = mem (entry + 3);
        gsi = read_le mem (entry + 4) 4;
        flags = read_le mem (entry + 8) 2;
      });
      override_count = info.override_count + 1;
    }
    else info

unfoldable pub add_entry : Memory → ℕ → MadtInfo → MadtInfo
unfolding add_cpu add_ioapic add_override
add_entry mem entry info =
    if mem entry == madt_local_apic
    then add_cpu mem entry info
    else if mem entry == madt_io_apic
    then add_ioapic mem entry info
    else if mem entry == madt_interrupt_override
    then add_override mem entry info
    else if mem entry == madt_local_apic_address_override
    then record info { lapic_address = read_le mem (entry + 4) 8 }
    else info

-- `while entry + 2 <= end`, on fuel; `none` is out of fuel.
unfoldable pub parse_entries : Memory → ℕ → ℕ → ℕ → MadtInfo → Option MadtInfo
unfolding add_entry
parse_entries mem zero stop entry info = none
parse_entries mem (suc fuel) stop entry info =
    let len = mem (entry + 1) in
    let rest = parse_entries mem fuel stop (add64 entry len) (add_entry mem entry info) in
    if not (leb (add64 entry 2) stop)
    then some info
    else if ltb len 2 || ltb stop (add64 entry len)
    then some info
    else rest

-- Fuel for a table of `length` bytes.
abbrev pub parse_fuel : ℕ → ℕ
parse_fuel length = suc length

abbrev pub set_body : Memory → ℕ → MadtInfo → MadtInfo
set_body mem body info = record info {
  lapic_address = read_le mem body 4;
  pcat_compat = not (bit_and (read_le mem (body + 4) 4) 1 == 0);
}

-- The result is the error, if any, beside the state; `none` is out of fuel.
unfoldable pub parse_madt : Memory → ℕ → Acpi → Option (Option AcpiError × Acpi)
unfolding checksum_ok parse_entries
parse_madt mem addr a =
    let length = header_length mem addr in
    let body = add64 addr header_bytes in
    if not (checksum_ok mem addr length)
    then some (some bad_table_checksum, a)
    else elim (parse_entries mem (parse_fuel length) (add64 addr length) (add64 body 8)
        (set_body mem body a.info)) [
          | none ↦ none
          | some info ↦ some (none, record a { info = info; madt_valid = true })
        ]

-- The address of table `i` of the RSDT or XSDT.
abbrev pub table_addr : Memory → Bool → ℕ → ℕ → ℕ
table_addr mem use_xsdt entries i =
    if use_xsdt
    then read_le mem (add64 entries (i * 8)) 8
    else read_le mem (add64 entries (i * 4)) 4

-- The loop over the tables, `left` of them from `i` on; the last MADT wins.
unfoldable pub find_madt : Memory → Bool → ℕ → ℕ → ℕ → ℕ → ℕ
unfolding bytes_are
find_madt mem use_xsdt entries i zero madt_addr = madt_addr
find_madt mem use_xsdt entries i (suc left) madt_addr =
    let table = table_addr mem use_xsdt entries i in
    find_madt mem use_xsdt entries (suc i) left
      (if bytes_are mem table (0x41 ∷ 0x50 ∷ 0x49 ∷ 0x43 ∷ []) then table else madt_addr)

-- "RSD PTR "
abbrev pub rsdp_signature : List ℕ
rsdp_signature = 0x52 ∷ 0x53 ∷ 0x44 ∷ 0x20 ∷ 0x50 ∷ 0x54 ∷ 0x52 ∷ 0x20 ∷ []

unfoldable pub init : Memory → Acpi → Option (Option AcpiError × Acpi)
unfolding checksum_ok bytes_are find_madt parse_madt
init mem a =
    let rsdp = a.rsdp_address in
    let xsdt_address = read_le mem (rsdp + 24) 8 in
    let use_xsdt = leb 2 (mem (rsdp + 15)) && not (xsdt_address == 0) in
    let root_addr = if use_xsdt then xsdt_address else read_le mem (rsdp + 16) 4 in
    let entry_count =
      sub64 (header_length mem root_addr) header_bytes / (if use_xsdt then 8 else 4) in
    let madt_addr = find_madt mem use_xsdt (add64 root_addr header_bytes) 0 entry_count 0 in
    if rsdp == 0
    then some (some no_rsdp, a)
    else if not (bytes_are mem rsdp rsdp_signature) || not (checksum_ok mem rsdp 20)
    then some (some bad_rsdp_checksum, a)
    else if not (checksum_ok mem root_addr (header_length mem root_addr))
    then some (some bad_table_checksum, a)
    else if madt_addr == 0
    then some (some no_madt, a)
    else parse_madt mem madt_addr a

unfoldable pub isa_irq_to_gsi : Acpi → ℕ → ℕ × ℕ
isa_irq_to_gsi a isa_irq = elim (madt a) [
  | none ↦ (isa_irq, 0)
  | some info ↦ elim (find_first (λ i. (info.overrides i).isa_irq == isa_irq) info.override_count) [
    | some i ↦ ((info.overrides i).gsi, (info.overrides i).flags)
    | none ↦ (isa_irq, 0)
  ]
]
