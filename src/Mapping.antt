-- ===== src/Mapping.antt =====
-- Mapping whole regions: `map_region`, `allocate_and_map_region` and `unmap_region` of src/vmm.rs,
-- over the page tables, the page allocator and the region table together.
pub mod Tests
pub mod Rollback
use ventura_os.Base.{
  ℕ, zero, suc, ◌+◌, ◌*◌, ◌/◌, Bool, true, false, Option, none, some, List, [], ◌∷◌, ltb, leb,
  if◌then◌else◌, add64, mul64, length, ◌++◌,
}
use ventura_os.Memory.{page_size}
use ventura_os.Pmm.{Pmm, PhysPage, allocate_physical_page, free_physical_page}
use ventura_os.Paging.{VirtAddr, VirtPermissions, PageTableFlags, to_page_flags}
use ventura_os.Tables.{Vm, Mapped, Unmapped, ok, err, map_page, unmap_page}
use ventura_os.Regions
use ventura_os.Regions.{
  VirtRegion, RegionPurpose, VirtualMemoryManager, VmmError, physical_allocation_failed,
  page_table_mapping_failed, Reserved, reserve_virtual_region, unregister_region,
}

-- The statics: the tables with the page allocator, VMM_STATE and ROOT_PML4_PHYS.
pub record Kernel : Type 0 where
  pub vm : Vm
  pub vmm : VirtualMemoryManager
  pub root : PhysPage

-- `VirtAddr::new(start + (i as u64) * PAGE_SIZE)`
abbrev pub page_of : VirtAddr → ℕ → VirtAddr
page_of start i = add64 start (mul64 i page_size)

-- `let _ = unmap_page(...)` for the pages from `j` on, `left` of them.
unfoldable pub unmap_pages : ℕ → VirtAddr → ℕ → ℕ → Vm → Vm
unmap_pages root start j zero s = s
unmap_pages root start j (suc left) s =
    unmap_pages root start (suc j) left
      (elim (unmap_page root (page_of start j) s) [ ok _ s' ↦ s' | err _ ↦ s ])

-- `let _ = free_physical_page(...)` for every page of a list.
unfoldable pub free_pages : List PhysPage → Pmm → Pmm
free_pages [] s = s
free_pages (p ∷ ps) s = free_pages ps ((free_physical_page p s).1)

-- The loops that map: pages from `i` on; a failure unmaps the `i` pages mapped before. Whether all
-- went well comes beside the state.
unfoldable pub map_pages : ℕ → VirtAddr → PageTableFlags → ℕ → List PhysPage → Vm → Bool × Vm
unfolding unmap_pages
map_pages root start flags i [] s = (true, s)
map_pages root start flags i (phys ∷ rest) s = elim (map_page root (page_of start i) phys flags s) [
  | ok _ s' ↦ map_pages root start flags (suc i) rest s'
  | err _ s' ↦ (false, unmap_pages root start 0 i s')
]

-- `physical_pages[0..n]`
unfoldable pub take : ℕ → List PhysPage → List PhysPage
take zero ps = []
take (suc n) [] = []
take (suc n) (p ∷ ps) = p ∷ take n ps

unfoldable pub map_region : VirtRegion → List PhysPage → Kernel → Option VmmError × Kernel
unfolding map_pages take
map_region region physical_pages k =
    let expected_pages = region.size_bytes / page_size in
    if ltb (length physical_pages) expected_pages
    then (some physical_allocation_failed, k)
    else (let (mapped, vm') =
          map_pages k.root region.start (to_page_flags region.permissions) 0
            (take expected_pages physical_pages) k.vm in
        (if mapped then none else some page_table_mapping_failed, record k { vm = vm' }))

-- Frames for a region, `left` more; `none` if they run out, and then those allocated are freed.
unfoldable pub allocate_pages : ℕ → List PhysPage → Pmm → Option (List PhysPage) × Pmm
unfolding free_pages
allocate_pages zero got s = (some got, s)
allocate_pages (suc left) got s =
    let (frame, s') = allocate_physical_page s in
    elim frame [
      | some p ↦ allocate_pages left (got ++ (p ∷ [])) s'
      | none ↦ (none, free_pages got s')
    ]

abbrev pub max_pages : ℕ
max_pages = 128

abbrev pub with_pmm : Pmm → Vm → Vm
with_pmm pmm' s = record s { pmm = pmm' }

unfoldable pub allocate_and_map_region :
    ℕ → VirtPermissions → RegionPurpose → Kernel → Reserved × Kernel
unfolding reserve_virtual_region unregister_region allocate_pages free_pages map_pages
allocate_and_map_region size permissions purpose k =
    let (reservation, vmm1) = reserve_virtual_region size permissions purpose k.vmm in
    let page_count = size / page_size in
    elim reservation [
      | Regions.err e ↦ (Regions.err e, record k { vmm = vmm1 })
      | Regions.ok reserved_region ↦
          let region = record reserved_region { owns_physical_pages = true } in
          if ltb max_pages page_count
          then (Regions.err physical_allocation_failed, record k { vmm = vmm1 })
          else (let (pages, pmm1) = allocate_pages page_count [] k.vm.pmm in
              elim pages [
                | none ↦ (
                  Regions.err physical_allocation_failed,
                  record k { vm = with_pmm pmm1 k.vm; vmm = vmm1 },
                )
                | some allocated ↦
                    let (mapped, vm2) =
                      map_pages k.root region.start (to_page_flags permissions) 0 allocated
                        (with_pmm pmm1 k.vm) in
                    if mapped then (Regions.ok region, record k { vm = vm2; vmm = vmm1 }) else (
                      Regions.err page_table_mapping_failed,
                      record k {
                        vm = with_pmm (free_pages allocated vm2.pmm) vm2;
                        vmm = (unregister_region region.start vmm1).1;
                      },
                    )
              ])
    ]

-- The loop of `unmap_region`.
unfoldable pub release_pages : ℕ → VirtAddr → Bool → ℕ → ℕ → Vm → Vm
release_pages root start owns i zero s = s
release_pages root start owns i (suc left) s =
    release_pages root start owns (suc i) left (elim (unmap_page root (page_of start i) s) [
      | err _ ↦ s
      | ok unmapped_phys s' ↦
          if owns then record s' { pmm = (free_physical_page unmapped_phys s'.pmm).1 } else s'
    ])

unfoldable pub unmap_region : VirtRegion → Kernel → Option VmmError × Kernel
unfolding release_pages unregister_region
unmap_region region k =
    let vm' =
      release_pages k.root region.start region.owns_physical_pages 0 (region.size_bytes / page_size)
        k.vm in
    let (result, vmm') = unregister_region region.start k.vmm in
    (result, record k { vm = vm'; vmm = vmm' })
