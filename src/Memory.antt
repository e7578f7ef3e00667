-- ===== src/Memory.antt =====
-- The UEFI memory map: src/memory.rs. A slice of bytes is its length and a function from the
-- index, and the region array a function of which the first `region_count` entries count.
pub mod Tests
pub mod Load
use ventura_os.Base.{
  ℕ, zero, suc, ◌+◌, ◌*◌, ◌≡◌, Bool, true, false, Option, none, some, ltb, leb, ◌==◌, if◌then◌else◌,
  add64, checked_add, checked_mul, saturating_sub, update,
}

abbrev pub page_size : ℕ
page_size = 4096

abbrev pub max_regions : ℕ
max_regions = 128

abbrev pub efi_loader_code : ℕ
efi_loader_code = 1

abbrev pub efi_loader_data : ℕ
efi_loader_data = 2

abbrev pub efi_boot_services_code : ℕ
efi_boot_services_code = 3

abbrev pub efi_boot_services_data : ℕ
efi_boot_services_data = 4

abbrev pub efi_runtime_services_code : ℕ
efi_runtime_services_code = 5

abbrev pub efi_runtime_services_data : ℕ
efi_runtime_services_data = 6

abbrev pub efi_conventional_memory : ℕ
efi_conventional_memory = 7

abbrev pub efi_acpi_reclaim_memory : ℕ
efi_acpi_reclaim_memory = 9

abbrev pub efi_acpi_memory_nvs : ℕ
efi_acpi_memory_nvs = 10

abbrev pub efi_memory_mapped_io : ℕ
efi_memory_mapped_io = 11

abbrev pub efi_memory_mapped_io_port_space : ℕ
efi_memory_mapped_io_port_space = 12

pub record EfiMemoryDescriptor : Type 0 where
  pub memory_type : ℕ
  pub pad : ℕ
  pub physical_start : ℕ
  pub virtual_start : ℕ
  pub number_of_pages : ℕ
  pub attribute : ℕ

pub data MemoryType : Type 0 where
  usable loader_code loader_data boot_services_code boot_services_data : MemoryType
  runtime_services_code runtime_services_data acpi_reclaim acpi_nvs mmio reserved : MemoryType

pub record MemoryRegion : Type 0 where
  pub physical_start : ℕ
  pub physical_end : ℕ
  pub page_count : ℕ
  pub region_type : MemoryType
  pub is_usable : Bool

abbrev pub empty_region : MemoryRegion
empty_region = record {
  physical_start = 0;
  physical_end = 0;
  page_count = 0;
  region_type = reserved;
  is_usable = false;
}

pub size_bytes : MemoryRegion → ℕ
size_bytes r = saturating_sub r.physical_end r.physical_start

pub record PhysicalMemoryMap : Type 0 where
  pub regions : ℕ → MemoryRegion
  pub region_count : ℕ
  pub total_memory_bytes : ℕ
  pub usable_memory_bytes : ℕ
  pub reserved_memory_bytes : ℕ

abbrev pub new_map : PhysicalMemoryMap
new_map = record {
  regions = λ _. empty_region;
  region_count = 0;
  total_memory_bytes = 0;
  usable_memory_bytes = 0;
  reserved_memory_bytes = 0;
}

-- `&[u8]`
pub record Slice : Type 0 where
  pub len : ℕ
  pub byte : ℕ → ℕ

-- A little-endian number of `n` bytes at offset `off`: `read_unaligned`.
unfoldable pub read_le : (ℕ → ℕ) → ℕ → ℕ → ℕ
read_le byte off zero = 0
read_le byte off (suc n) = byte off + 256 * read_le byte (off + 1) n

abbrev pub descriptor_bytes : ℕ
descriptor_bytes = 40

unfoldable pub read_descriptor : Slice → ℕ → EfiMemoryDescriptor
unfolding read_le
read_descriptor raw off = record {
  memory_type = read_le raw.byte off 4;
  pad = read_le raw.byte (off + 4) 4;
  physical_start = read_le raw.byte (off + 8) 8;
  virtual_start = read_le raw.byte (off + 16) 8;
  number_of_pages = read_le raw.byte (off + 24) 8;
  attribute = read_le raw.byte (off + 32) 8;
}

unfoldable pub classify : ℕ → MemoryType × Bool
classify t =
    if t == efi_conventional_memory
    then (usable, true)
    else if t == efi_loader_code
    then (loader_code, false)
    else if t == efi_loader_data
    then (loader_data, false)
    else if t == efi_boot_services_code
    then (boot_services_code, false)
    else if t == efi_boot_services_data
    then (boot_services_data, false)
    else if t == efi_runtime_services_code
    then (runtime_services_code, false)
    else if t == efi_runtime_services_data
    then (runtime_services_data, false)
    else if t == efi_acpi_reclaim_memory
    then (acpi_reclaim, false)
    else if t == efi_acpi_memory_nvs
    then (acpi_nvs, false)
    else if t == efi_memory_mapped_io
    then (mmio, false)
    else if t == efi_memory_mapped_io_port_space
    then (mmio, false)
    else (reserved, false)

-- What one round of the loop appends for a descriptor of `length` bytes that ends at `stop`.
unfoldable pub append_region : EfiMemoryDescriptor → ℕ → ℕ → PhysicalMemoryMap → PhysicalMemoryMap
unfolding classify
append_region desc length stop map =
    let (region_type, is_usable) = classify desc.memory_type in
    record {
      regions = update map.regions map.region_count (record {
        physical_start = desc.physical_start;
        physical_end = stop;
        page_count = desc.number_of_pages;
        region_type = region_type;
        is_usable = is_usable;
      });
      region_count = map.region_count + 1;
      total_memory_bytes = add64 map.total_memory_bytes length;
      usable_memory_bytes =
          if is_usable then add64 map.usable_memory_bytes length else map.usable_memory_bytes;
      reserved_memory_bytes =
          if is_usable then map.reserved_memory_bytes else add64 map.reserved_memory_bytes length;
    }

-- The rest of a round, from the first `continue` on.
unfoldable pub add_descriptor : EfiMemoryDescriptor → PhysicalMemoryMap → PhysicalMemoryMap
unfolding append_region
add_descriptor desc map =
    if desc.number_of_pages == 0 then map else elim (checked_mul desc.number_of_pages page_size) [
      | none ↦ map
      | some length ↦ elim (checked_add desc.physical_start length) [
        | none ↦ map
        | some stop ↦ append_region desc length stop map
      ]
    ]

-- `for _ in 0..descriptor_count`, with its two `break`s.
unfoldable pub load_loop : Slice → ℕ → ℕ → ℕ → PhysicalMemoryMap → PhysicalMemoryMap
unfolding read_descriptor add_descriptor
load_loop raw descriptor_size zero current_offset map = map
load_loop raw descriptor_size (suc left) current_offset map =
    let rest =
      load_loop raw descriptor_size left (add64 current_offset descriptor_size)
        (add_descriptor (read_descriptor raw current_offset) map) in
    if ltb raw.len (add64 current_offset descriptor_bytes)
    then map
    else if leb max_regions map.region_count
    then map
    else rest

unfoldable pub init_from_uefi : Slice → ℕ → ℕ → PhysicalMemoryMap → PhysicalMemoryMap
unfolding load_loop
init_from_uefi raw_descriptors descriptor_size descriptor_count map =
    load_loop raw_descriptors descriptor_size descriptor_count 0 (record {
      regions = map.regions;
      region_count = 0;
      total_memory_bytes = 0;
      usable_memory_bytes = 0;
      reserved_memory_bytes = 0;
    })

pub total_memory_bytes : PhysicalMemoryMap → ℕ
total_memory_bytes map = map.total_memory_bytes

pub usable_memory_bytes : PhysicalMemoryMap → ℕ
usable_memory_bytes map = map.usable_memory_bytes

pub reserved_memory_bytes : PhysicalMemoryMap → ℕ
reserved_memory_bytes map = map.reserved_memory_bytes

pub region_count : PhysicalMemoryMap → ℕ
region_count map = map.region_count
