-- ===== src/Acpi/Madt.antt =====
-- The parser of the MADT in src/acpi.rs: it comes to an end and keeps within its arrays.
use ventura_os.Base.{
  ℕ, zero, suc, ◌+◌, ◌≤◌, ◌<◌, ◌≡◌, refl, Bool, true, false, ◌||◌, ◌⊎◌, ◌^◌, ◌==◌, add64, Option,
  none, some, ltb, leb, ◌==◌, if◌then◌else◌, arith, Bool-cases, inl, inr, if_true, if_false,
}
use ventura_os.Base.Search.{find_first-Found, Found, hit, miss}
use ventura_os.Memory.{read_le}
use ventura_os.Acpi.{
  madt_local_apic, madt_io_apic, madt_interrupt_override, madt_local_apic_address_override, Memory,
  MadtInfo, Acpi, AcpiError, bad_table_checksum, max_cpus, max_ioapics, max_overrides, add_cpu,
  add_ioapic, add_override, add_entry, parse_entries, parse_fuel, parse_madt, checksum_ok,
  header_length, header_bytes, set_body, madt, isa_irq_to_gsi,
}

-- The counts stay within the arrays.
pub record InBounds (info : MadtInfo) : Type 0 where
  pub cpus : info.cpu_count ≤ max_cpus
  pub ioapics : info.ioapic_count ≤ max_ioapics
  pub overrides : info.override_count ≤ max_overrides

add_cpu-InBounds :
    (mem : Memory) (entry : ℕ) (info : MadtInfo) → InBounds info → InBounds (add_cpu mem entry info)
unfolding add_cpu
add_cpu-InBounds mem entry info b = record {
  cpus = ground (arith, b.cpus);
  ioapics = ground (arith, b.ioapics);
  overrides = ground (arith, b.overrides);
}

add_ioapic-InBounds :
    (mem : Memory) (entry : ℕ) (info : MadtInfo)
    → InBounds info
    → InBounds (add_ioapic mem entry info)
unfolding add_ioapic
add_ioapic-InBounds mem entry info b = record {
  cpus = ground (arith, b.cpus);
  ioapics = ground (arith, b.ioapics);
  overrides = ground (arith, b.overrides);
}

add_override-InBounds :
    (mem : Memory) (entry : ℕ) (info : MadtInfo)
    → InBounds info
    → InBounds (add_override mem entry info)
unfolding add_override
add_override-InBounds mem entry info b = record {
  cpus = ground (arith, b.cpus);
  ioapics = ground (arith, b.ioapics);
  overrides = ground (arith, b.overrides);
}

if-InBounds : (c : Bool) (a b : MadtInfo) → InBounds a → InBounds b → InBounds (if c then a else b)
if-InBounds true a b at_a at_b = at_a
if-InBounds false a b at_a at_b = at_b

add_entry-InBounds :
    (mem : Memory) (entry : ℕ) (info : MadtInfo)
    → InBounds info
    → InBounds (add_entry mem entry info)
unfolding add_entry
add_entry-InBounds mem entry info b =
    if-InBounds (mem entry == madt_local_apic) (add_cpu mem entry info) _
      (add_cpu-InBounds mem entry info b)
      (if-InBounds (mem entry == madt_io_apic) (add_ioapic mem entry info) _
        (add_ioapic-InBounds mem entry info b)
        (if-InBounds (mem entry == madt_interrupt_override) (add_override mem entry info) _
          (add_override-InBounds mem entry info b)
          (if-InBounds (mem entry == madt_local_apic_address_override)
            (record info { lapic_address = read_le mem (entry + 4) 8 }) info
            (record { cpus = b.cpus; ioapics = b.ioapics; overrides = b.overrides }) b)))

-- The loop returns on fuel for the bytes left, with the counts within bounds.
parse_entries-InBounds :
    (mem : Memory) (fuel stop entry : ℕ) (info : MadtInfo)
    → ((x : ℕ) → mem x < 256)
    → stop + 256 < 2 ^ 64
    → entry + 256 < 2 ^ 64
    → InBounds info
    → stop + 1 ≤ entry + fuel
    → 0 < fuel
    → (info' : MadtInfo) × (parse_entries mem fuel stop entry info ≡ some info') × InBounds info'
unfolding parse_entries
parse_entries-InBounds mem zero stop entry info bytes low_stop low b enough pos =
    absurd (omega arith)
parse_entries-InBounds mem (suc fuel) stop entry info bytes low_stop low b enough pos =
    elim (Bool-cases (leb (add64 entry 2) stop)) [
      | inr past ↦ (info, rw past refl, b)
      | inl inside ↦
          elim (Bool-cases (ltb (mem (entry + 1)) 2 || ltb stop (add64 entry (mem (entry + 1))))) [
            | inl malformed ↦ (info, rw (inside, malformed) refl, b)
            | inr sound ↦
                let byte = bytes (entry + 1) in
                let (info', e, b') =
                  parse_entries-InBounds mem fuel stop (add64 entry (mem (entry + 1)))
                    (add_entry mem entry info) bytes low_stop (ground (arith, byte))
                    (add_entry-InBounds mem entry info b) (ground (arith, byte))
                    (ground (arith, byte)) in
                (info', rw (inside, sound) e, b')
          ]
    ]

read_le-lt : (mem : Memory) (off n : ℕ) → ((x : ℕ) → mem x < 256) → read_le mem off n < 256 ^ n
unfolding read_le
read_le-lt mem off zero bytes = omega arith
read_le-lt mem off (suc n) bytes = omega (arith, bytes off, read_le-lt mem (off + 1) n bytes)

-- What `parse_madt` promises.
pub data Parsed (mem : Memory) (addr : ℕ) (a : Acpi)
    : Option (Option AcpiError × Acpi) → Type 0 where
  refused :
      checksum_ok mem addr (header_length mem addr) ≡ false
      → Parsed mem addr a (some (some bad_table_checksum, a))
  parsed :
      (info : MadtInfo)
      → checksum_ok mem addr (header_length mem addr) ≡ true
      → InBounds info
      → Parsed mem addr a (some (none, record a { info = info; madt_valid = true }))

-- For any contents of a table below 2 ^ 52, however malformed, `parse_madt` comes to an end: it
-- refuses a bad checksum and changes nothing, else it makes the MADT valid, and if the counts
-- were within their arrays before, they are after.
pub parse_madt-Parsed :
    (mem : Memory) (addr : ℕ) (a : Acpi)
    → ((x : ℕ) → mem x < 256)
    → addr < 2 ^ 52
    → InBounds a.info
    → Parsed mem addr a (parse_madt mem addr a)
unfolding parse_madt
parse_madt-Parsed mem addr a bytes low b =
    elim (Bool-cases (checksum_ok mem addr (header_length mem addr))) [
      | inr bad ↦ rw bad (refused bad)
      | inl good ↦
          let short = read_le-lt mem (addr + 4) 4 bytes in
          let (info, e, b') =
            parse_entries-InBounds mem (parse_fuel (header_length mem addr))
              (add64 addr (header_length mem addr)) (add64 (add64 addr header_bytes) 8)
              (set_body mem (add64 addr header_bytes) a.info) bytes (omega (arith, short))
              (omega arith) (record { cpus = b.cpus; ioapics = b.ioapics; overrides = b.overrides })
              (omega (arith, short)) (omega arith) in
          rw (good, e) (parsed info good b')
    ]

-- What `isa_irq_to_gsi` promises: the first override of the IRQ, else the IRQ itself.
pub data Routed (a : Acpi) (isa_irq : ℕ) : ℕ × ℕ → Type 0 where
  overridden :
      (i : ℕ)
      → a.madt_valid ≡ true
      → i < a.info.override_count
      → (a.info.overrides i).isa_irq ≡ isa_irq
      → ((j : ℕ) → j < i → ¬ ((a.info.overrides j).isa_irq ≡ isa_irq))
      → Routed a isa_irq ((a.info.overrides i).gsi, (a.info.overrides i).flags)
  identity :
      (a.madt_valid ≡ false)
        ⊎ ((i : ℕ) → i < a.info.override_count → ¬ ((a.info.overrides i).isa_irq ≡ isa_irq))
      → Routed a isa_irq (isa_irq, 0)

-- `isa_irq_to_gsi` gives the target and flags of the first override of a valid MADT for the IRQ;
-- without a MADT or an override the IRQ stands for itself, with no flags.
pub isa_irq_to_gsi-Routed : (a : Acpi) (isa_irq : ℕ) → Routed a isa_irq (isa_irq_to_gsi a isa_irq)
unfolding isa_irq_to_gsi
isa_irq_to_gsi-Routed a isa_irq = elim (Bool-cases a.madt_valid) [
  | inr invalid ↦
      let e : madt a ≡ none = unfold madt in if_false _ _ invalid in
      rw (e, isa_irq_to_gsi) (identity (inl invalid))
  | inl valid ↦
      let e : madt a ≡ some a.info = unfold madt in if_true _ _ valid in
      rw (e, isa_irq_to_gsi) (by_found valid (find_first-Found _ _))
]
  where
    by_found :
        a.madt_valid ≡ true
        → {o : Option ℕ}
        → Found (λ i. (a.info.overrides i).isa_irq == isa_irq) a.info.override_count o
        → Routed a isa_irq (elim o [
          | some i ↦ ((a.info.overrides i).gsi, (a.info.overrides i).flags)
          | none ↦ (isa_irq, 0)
        ])
    by_found valid (hit i lt at before) =
        overridden i valid lt (ground arith) (λ j h e. ground (arith, before j h))
    by_found valid (miss never) = identity (inr (λ i lt e. ground (arith, never i lt)))
