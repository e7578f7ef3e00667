-- ===== src/Regions.antt =====
-- The table of virtual regions: `VirtRegion`, `register_region`, `reserve_virtual_region`,
-- `unregister_region`, `find_region_for_addr` and the dynamic cursor of src/vmm.rs. The array is a
-- function of which the first `region_count` entries count; an operation returns its error, if
-- any, beside the state.
pub mod Tests
pub mod Valid
pub mod Register
pub mod Reserve
pub mod Lookup
use ventura_os.Base.{
  ℕ, zero, suc, ◌+◌, ◌-◌, ◌%◌, ◌^◌, Bool, true, false, not, ◌&&◌, ◌||◌, Option, none, some, ltb,
  leb, ◌==◌, if◌then◌else◌, add64, checked_add, update,
}
use ventura_os.Base.Search.{find_first}
use ventura_os.Memory.{page_size}
use ventura_os.Paging.{
  VirtAddr, VirtPermissions, kernel_data, dynamic_virt_start, dynamic_virt_end, max_virt_regions,
  is_canonical, is_aligned,
}

pub data RegionPurpose : Type 0 where
  kernel_binary kernel_stack direct_mapped_ram mmio dynamic_kernel reserved : RegionPurpose

pub record VirtRegion : Type 0 where
  pub start : VirtAddr
  pub size_bytes : ℕ
  pub permissions : VirtPermissions
  pub purpose : RegionPurpose
  pub owns_physical_pages : Bool

abbrev pub empty_region : VirtRegion
empty_region = record {
  start = 0;
  size_bytes = 0;
  permissions = kernel_data;
  purpose = reserved;
  owns_physical_pages = false;
}

-- `VirtRegion::end`
abbrev pub region_end : VirtRegion → VirtAddr
region_end r = add64 r.start r.size_bytes

unfoldable pub contains : VirtRegion → VirtAddr → Bool
contains r addr = leb r.start addr && ltb addr (region_end r)

unfoldable pub overlaps : VirtRegion → VirtAddr → ℕ → Bool
overlaps r other_start other_size =
    ltb r.start (add64 other_start other_size) && ltb other_start (region_end r)

pub data VmmError : Type 0 where
  non_canonical unaligned_virtual unaligned_physical zero_size region_table_full : VmmError
  region_overlaps address_overflow physical_allocation_failed : VmmError
  page_table_mapping_failed region_not_found : VmmError

pub record VirtualMemoryManager : Type 0 where
  pub regions : ℕ → VirtRegion
  pub region_count : ℕ
  pub next_dynamic_addr : ℕ

abbrev pub new_manager : VirtualMemoryManager
new_manager = record {
  regions = λ _. empty_region;
  region_count = 0;
  next_dynamic_addr = dynamic_virt_start;
}

unfoldable pub advance_dynamic_cursor : ℕ → VirtualMemoryManager → VirtualMemoryManager
advance_dynamic_cursor new_end vmm =
    if ltb vmm.next_dynamic_addr new_end then record vmm { next_dynamic_addr = new_end } else vmm

-- The loops that look for a region that overlaps.
abbrev pub find_overlap : VirtualMemoryManager → VirtAddr → ℕ → Option ℕ
find_overlap vmm start size = find_first (λ i. overlaps (vmm.regions i) start size) vmm.region_count

abbrev pub append : VirtRegion → VirtualMemoryManager → VirtualMemoryManager
append region vmm = record vmm {
  regions = update vmm.regions vmm.region_count region;
  region_count = vmm.region_count + 1;
}

unfoldable pub register_region :
    VirtRegion → VirtualMemoryManager → Option VmmError × VirtualMemoryManager
register_region region vmm =
    if not (is_canonical region.start) || not (is_canonical (region_end region))
    then (some non_canonical, vmm)
    else if not (is_aligned region.start)
    then (some unaligned_virtual, vmm)
    else if (region.size_bytes == 0) || not ((region.size_bytes % page_size) == 0)
    then (some zero_size, vmm)
    else if leb max_virt_regions vmm.region_count
    then (some region_table_full, vmm)
    else elim (find_overlap vmm region.start region.size_bytes) [
      | some _ ↦ (some region_overlaps, vmm)
      | none ↦ (none, append region vmm)
    ]

-- `Result<VirtRegion, VmmError>`
pub data Reserved : Type 0 where
  ok : VirtRegion → Reserved
  err : VmmError → Reserved

abbrev pub dynamic_region : ℕ → ℕ → VirtPermissions → RegionPurpose → VirtRegion
dynamic_region start_addr size permissions purpose = record {
  start = start_addr;
  size_bytes = size;
  permissions = permissions;
  purpose = purpose;
  owns_physical_pages = false;
}

unfoldable pub reserve_virtual_region :
    ℕ → VirtPermissions → RegionPurpose → VirtualMemoryManager → Reserved × VirtualMemoryManager
reserve_virtual_region size permissions purpose vmm =
    if (size == 0) || not ((size % page_size) == 0)
    then (err zero_size, vmm)
    else elim (checked_add vmm.next_dynamic_addr size) [
      | none ↦ (err address_overflow, vmm)
      | some end_addr ↦
          if ltb dynamic_virt_end end_addr || not (is_canonical end_addr)
          then (err address_overflow, vmm)
          else elim (find_overlap vmm vmm.next_dynamic_addr size) [
            | some _ ↦ (err region_overlaps, vmm)
            | none ↦
                if leb max_virt_regions vmm.region_count
                then (err region_table_full, vmm)
                else (let region = dynamic_region vmm.next_dynamic_addr size permissions purpose in
                    (
                      ok region,
                      record vmm {
                        regions = update vmm.regions vmm.region_count region;
                        region_count = vmm.region_count + 1;
                        next_dynamic_addr = end_addr;
                      },
                    ))
          ]
    ]

-- The last region takes the place of the removed one.
abbrev pub remove : ℕ → VirtualMemoryManager → VirtualMemoryManager
remove i vmm = record vmm {
  regions =
      update (update vmm.regions i (vmm.regions (vmm.region_count - 1))) (vmm.region_count - 1)
        empty_region;
  region_count = vmm.region_count - 1;
}

unfoldable pub unregister_region :
    VirtAddr → VirtualMemoryManager → Option VmmError × VirtualMemoryManager
unregister_region start vmm =
    elim (find_first (λ i. (vmm.regions i).start == start) vmm.region_count) [
      | some i ↦ (none, remove i vmm)
      | none ↦ (some region_overlaps, vmm)
    ]

unfoldable pub find_region_for_addr : VirtAddr → VirtualMemoryManager → Option VirtRegion
find_region_for_addr addr vmm =
    elim (find_first (λ i. contains (vmm.regions i) addr) vmm.region_count) [
      | some i ↦ some (vmm.regions i)
      | none ↦ none
    ]
