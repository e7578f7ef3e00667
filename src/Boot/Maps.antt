-- ===== src/Boot/Maps.antt =====
-- The identity maps that `init` of src/vmm.rs sets up keep the tree of page tables valid.
use ventura_os.Base.{
  ℕ, zero, suc, ◌-◌, ◌/◌, ◌≡◌, sym, subst, Bool, true, false, Option, none, some, if◌then◌else◌,
  Bool-cases, inl, inr, arith, add64,
}
use ventura_os.Memory
use ventura_os.Memory.{page_size, MemoryType, MemoryRegion, PhysicalMemoryMap}
use ventura_os.Paging.{PageTableFlags, is_present, mmio_flags}
use ventura_os.Tables
use ventura_os.Tables.{Vm, Mapped, write, ◌>>=◌, get_or_create_table, map_page, map_2mb_huge_page}
use ventura_os.Mapping.{Kernel}
use ventura_os.Console.{FramebufferInfo}
use ventura_os.Boot.{
  state_of, page_down, page_up, identity_map_huge, identity_map_pages, region_flags,
  identity_map_region, identity_map_regions, is_already_mapped, map_mmio_pages, identity_map_mmio,
  map_devices, identity_maps,
}
use ventura_os.Boot.Tree.{
  Rooted, identity_map_huge-Rooted, identity_map_pages-Rooted, map_page-Rooted,
}

region_flags-present : (t : MemoryType) → is_present (region_flags t) ≡ true
unfolding is_present
region_flags-present Memory.usable = ground arith
region_flags-present Memory.loader_code = ground arith
region_flags-present Memory.loader_data = ground arith
region_flags-present Memory.boot_services_code = ground arith
region_flags-present Memory.boot_services_data = ground arith
region_flags-present Memory.runtime_services_code = ground arith
region_flags-present Memory.runtime_services_data = ground arith
region_flags-present Memory.acpi_reclaim = ground arith
region_flags-present Memory.acpi_nvs = ground arith
region_flags-present Memory.mmio = ground arith
region_flags-present Memory.reserved = ground arith

-- A kernel whose tables are a valid tree under its root.
pub record Running (owner : ℕ → ℕ → ℕ) (root : ℕ) (k : Kernel) : Type 0 where
  pub root_page : k.root ≡ root
  pub tables : Rooted owner root k.vm

module _ (owner : ℕ → ℕ → ℕ) (root : ℕ) where
  identity_map_regions-Running :
      (left i : ℕ) (map : PhysicalMemoryMap) (k : Kernel)
      → Running owner root k
      → Running owner root (identity_map_regions left i map k)
  unfolding identity_map_regions identity_map_region
  identity_map_regions-Running zero i map k w = w
  identity_map_regions-Running (suc left) i map k w =
      identity_map_regions-Running left (suc i) map (identity_map_region (map.regions i) k)
        (record {
          root_page = w.root_page;
          tables =
              let first : ℕ = page_down (map.regions i).physical_start in
              let pages : ℕ = (page_up (map.regions i).physical_end - first) / page_size in
              let flags : PageTableFlags = region_flags (map.regions i).region_type in
              subst (λ r. Rooted owner root (identity_map_pages pages first flags r k.vm))
                (sym w.root_page)
                (identity_map_pages-Rooted owner root pages first flags k.vm
                  (region_flags-present (map.regions i).region_type) w.tables);
        })

  map_mmio_pages-Rooted :
      (left curr : ℕ) (s : Vm)
      → Rooted owner root s
      → Rooted owner root (map_mmio_pages left curr root s).1
  unfolding map_mmio_pages is_present
  map_mmio_pages-Rooted zero curr s w = w
  map_mmio_pages-Rooted (suc left) curr s w =
      by_result (map_page root curr curr mmio_flags s)
        (map_page-Rooted owner root curr curr mmio_flags s (ground arith) w)
        (map_mmio_pages-Rooted left (add64 curr page_size))
    where
      by_result :
          (m : Mapped (Unit {0}))
          → Rooted owner root (state_of m)
          → ((s' : Vm)
              → Rooted owner root s'
              → Rooted owner root (map_mmio_pages left (add64 curr page_size) root s').1)
          → Rooted owner root
              (elim m as (λ _. Bool × Vm) [
                | Tables.ok _ s' ↦ map_mmio_pages left (add64 curr page_size) root s'
                | Tables.err e s' ↦
                    if is_already_mapped e
                    then map_mmio_pages left (add64 curr page_size) root s'
                    else (false, s')
              ]).1
      by_result (Tables.ok _ s') w' more = more s' w'
      by_result (Tables.err e s') w' more = elim (Bool-cases (is_already_mapped e)) [
        | inl again ↦ rw again (more s' w')
        | inr failed ↦ rw failed w'
      ]

  Running-if :
      (c : Bool) (k k' : Kernel)
      → Running owner root k
      → Running owner root k'
      → Running owner root (if c then k else k')
  Running-if true k k' w w' = w
  Running-if false k k' w w' = w'

  identity_map_mmio-Running :
      (start size : ℕ) (k : Kernel)
      → Running owner root k
      → Running owner root (identity_map_mmio start size k)
  unfolding identity_map_mmio
  identity_map_mmio-Running start size k w =
      let first : ℕ = page_down start in
      let pages : ℕ = (page_up (add64 start size) - first) / page_size in
      let tables : Rooted owner root (map_mmio_pages pages first k.root k.vm).1 =
        subst (λ r. Rooted owner root (map_mmio_pages pages first r k.vm).1) (sym w.root_page)
          (map_mmio_pages-Rooted pages first k.vm w.tables) in
      Running-if (map_mmio_pages pages first k.root k.vm).0 _ _
        (record { root_page = w.root_page; tables = tables })
        (record { root_page = w.root_page; tables = tables })

  map_devices-Running :
      (lapic ioapic : ℕ) (fb : Option FramebufferInfo) (k : Kernel)
      → Running owner root k
      → Running owner root (map_devices lapic ioapic fb k)
  unfolding map_devices
  map_devices-Running lapic ioapic none k w =
      identity_map_mmio-Running ioapic page_size _ (identity_map_mmio-Running lapic page_size k w)
  map_devices-Running lapic ioapic (some info) k w =
      identity_map_mmio-Running info.phys_base info.size_bytes _ (
        identity_map_mmio-Running ioapic page_size _
          (identity_map_mmio-Running lapic page_size k w))

  pub identity_maps-Running :
      (map : PhysicalMemoryMap) (lapic ioapic : ℕ) (fb : Option FramebufferInfo) (k : Kernel)
      → Running owner root k
      → Running owner root (identity_maps map lapic ioapic fb k)
  unfolding identity_maps
  identity_maps-Running map lapic ioapic fb k w = map_devices-Running lapic ioapic fb _ (
      identity_map_regions-Running map.region_count 0 map _ (record {
        root_page = w.root_page;
        tables =
            subst (λ r. Rooted owner root (identity_map_huge 2048 0 r k.vm)) (sym w.root_page)
              (identity_map_huge-Rooted owner root 2048 0 k.vm w.tables);
      }))
