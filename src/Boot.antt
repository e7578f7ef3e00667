-- ===== src/Boot.antt =====
-- The boot of the memory manager and its self-checks: `init`, `identity_map_mmio`,
-- `verify_page_tables` and `shares_kernel_half` of src/vmm.rs. A `while curr < end` loop over pages
-- runs as often as there are pages from `start` to `end`, which are both multiples of the page size.
-- The bases of the local APIC and the I/O APIC are arguments.
pub mod Check
pub mod Verify
pub mod Tree
pub mod Maps
pub mod KernelHalf
pub mod Init
mod Tests
use ventura_os.Base.{
  ℕ, zero, suc, ◌+◌, ◌-◌, ◌*◌, ◌/◌, ◌%◌, ◌^◌, Bool, true, false, not, ◌&&◌, Option, none, some,
  ◌==◌, if◌then◌else◌, add64, sub64, not64, bit_and, bit_or,
}
use ventura_os.Memory
use ventura_os.Memory.{page_size, MemoryType, MemoryRegion, PhysicalMemoryMap}
use ventura_os.Pmm.{PhysPage}
use ventura_os.Paging
use ventura_os.Paging.{
  VirtAddr, VirtPermissions, PageTableFlags, canonical_virt, kernel_data, present_flag,
  writable_flag, mmio_flags, kernel_pml4_start, is_present,
}
use ventura_os.Tables
use ventura_os.Tables.{
  Vm, Mapped, MapError, already_mapped, allocate_bootstrap_table, get_or_create_table, map_page,
  map_2mb_huge_page,
}
use ventura_os.Regions
use ventura_os.Regions.{VirtRegion, RegionPurpose, direct_mapped_ram, register_region}
use ventura_os.Mapping.{Kernel}
use ventura_os.Console.{FramebufferInfo}

-- The state that a call leaves, with an error or without.
abbrev pub state_of : {A : Type 0} → Mapped A → Vm
state_of (Tables.ok _ s) = s
state_of (Tables.err _ s) = s

abbrev pub ram_flags : PageTableFlags
ram_flags = bit_or present_flag writable_flag

abbrev pub huge_page_size : ℕ
huge_page_size = 0x20_0000

-- The identity map of 0..4 GB, from `phys_2mb` on.
unfoldable pub identity_map_huge : ℕ → ℕ → PhysPage → Vm → Vm
identity_map_huge zero phys_2mb root s = s
identity_map_huge (suc left) phys_2mb root s =
    identity_map_huge left (phys_2mb + huge_page_size) root
      (state_of (map_2mb_huge_page root phys_2mb phys_2mb ram_flags s))

abbrev pub page_down : ℕ → ℕ
page_down addr = bit_and addr (not64 (page_size - 1))

abbrev pub page_up : ℕ → ℕ
page_up addr = page_down (sub64 (add64 addr page_size) 1)

-- The pages of a region, from `curr` on; errors are logged at most.
unfoldable pub identity_map_pages : ℕ → ℕ → PageTableFlags → PhysPage → Vm → Vm
identity_map_pages zero curr flags root s = s
identity_map_pages (suc left) curr flags root s =
    identity_map_pages left (add64 curr page_size) flags root
      (state_of (map_page root (canonical_virt curr) curr flags s))

abbrev pub region_flags : MemoryType → PageTableFlags
region_flags Memory.mmio = mmio_flags
region_flags _ = ram_flags

abbrev pub region_permissions : MemoryType → VirtPermissions
region_permissions Memory.mmio = Paging.mmio
region_permissions _ = kernel_data

abbrev pub region_purpose : MemoryType → RegionPurpose
region_purpose Memory.mmio = Regions.mmio
region_purpose _ = direct_mapped_ram

unfoldable pub identity_map_region : MemoryRegion → Kernel → Kernel
unfolding identity_map_pages
identity_map_region r k =
    let start_page = page_down r.physical_start in
    let end_page = page_up r.physical_end in
    let (error, vmm') =
      register_region
        (record {
          start = canonical_virt start_page;
          size_bytes = sub64 end_page start_page;
          permissions = region_permissions r.region_type;
          purpose = region_purpose r.region_type;
          owns_physical_pages = false;
        })
        k.vmm in
    record k {
      vm =
          identity_map_pages ((end_page - start_page) / page_size) start_page
            (region_flags r.region_type) k.root k.vm;
      vmm = vmm';
    }

-- The regions from `i` on, `left` of them.
unfoldable pub identity_map_regions : ℕ → ℕ → PhysicalMemoryMap → Kernel → Kernel
unfolding identity_map_region
identity_map_regions zero i map k = k
identity_map_regions (suc left) i map k =
    identity_map_regions left (suc i) map (identity_map_region (map.regions i) k)

abbrev pub is_already_mapped : MapError → Bool
is_already_mapped already_mapped = true
is_already_mapped _ = false

-- The pages of an MMIO range: whether none failed, other than by being mapped already.
unfoldable pub map_mmio_pages : ℕ → ℕ → PhysPage → Vm → Bool × Vm
map_mmio_pages zero curr root s = (true, s)
map_mmio_pages (suc left) curr root s = elim (map_page root curr curr mmio_flags s) [
  | Tables.ok _ s' ↦ map_mmio_pages left (add64 curr page_size) root s'
  | Tables.err e s' ↦
      if is_already_mapped e
      then map_mmio_pages left (add64 curr page_size) root s'
      else (false, s')
]

unfoldable pub identity_map_mmio : ℕ → ℕ → Kernel → Kernel
unfolding map_mmio_pages
identity_map_mmio phys_start size_bytes k =
    let start = page_down phys_start in
    let end_ = page_up (add64 phys_start size_bytes) in
    let (complete, vm') = map_mmio_pages ((end_ - start) / page_size) start k.root k.vm in
    let (error, vmm') =
      register_region
        (record {
          start = start;
          size_bytes = sub64 end_ start;
          permissions = Paging.mmio;
          purpose = Regions.mmio;
          owns_physical_pages = false;
        })
        k.vmm in
    if complete then record k { vm = vm'; vmm = vmm' } else record k { vm = vm' }

unfoldable pub map_devices : ℕ → ℕ → Option FramebufferInfo → Kernel → Kernel
unfolding identity_map_mmio
map_devices lapic_base ioapic_base fb k =
    let k' = identity_map_mmio ioapic_base page_size (identity_map_mmio lapic_base page_size k) in
    elim fb [ none ↦ k' | some info ↦ identity_map_mmio info.phys_base info.size_bytes k' ]

-- The kernel half of the root, from entry `i` on: whether all tables are there.
unfoldable pub create_kernel_half : ℕ → ℕ → PhysPage → Vm → Bool × Vm
create_kernel_half zero i root s = (true, s)
create_kernel_half (suc left) i root s = elim (get_or_create_table root i s) [
  | Tables.ok _ s' ↦ create_kernel_half left (suc i) root s'
  | Tables.err _ s' ↦ (false, s')
]

-- The kernel with the contents of CR3, or the state at the halt.
pub data Booted : Type 0 where
  booted : Kernel → ℕ → Booted
  halted : Kernel → Booted

-- The identity maps, with the root in place.
unfoldable pub identity_maps : PhysicalMemoryMap → ℕ → ℕ → Option FramebufferInfo → Kernel → Kernel
unfolding identity_map_huge identity_map_regions map_devices
identity_maps map lapic_base ioapic_base fb k = map_devices lapic_base ioapic_base fb (
    identity_map_regions map.region_count 0 map
      (record k { vm = identity_map_huge 2048 0 k.root k.vm }))

unfoldable pub init : PhysicalMemoryMap → ℕ → ℕ → Option FramebufferInfo → Kernel → Booted
unfolding identity_maps create_kernel_half
init map lapic_base ioapic_base fb k =
    let (table, vm1) = allocate_bootstrap_table (record k.vm { is_bootstrapping = true }) in
    elim table [
      | none ↦ halted (record k { vm = vm1 })
      | some root ↦
          let k2 =
            identity_maps map lapic_base ioapic_base fb (record k { vm = vm1; root = root }) in
          let (complete, vm3) =
            create_kernel_half (512 - kernel_pml4_start) kernel_pml4_start root
              (record k2.vm { is_bootstrapping = false }) in
          if complete then booted (record k2 { vm = vm3 }) root else halted (record k2 { vm = vm3 })
    ]
