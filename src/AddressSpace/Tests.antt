-- ===== src/AddressSpace/Tests.antt =====
-- Two address spaces with roots in the bootstrap pool, as src/address_space.rs uses them.
use ventura_os.Base.{
  ℕ, ◌/◌, ◌≡◌, refl, sym, ◌∙◌, true, Option, some, none, [], ◌∷◌, ◌==◌, ◌&&◌, if◌then◌else◌, arith,
}
use mathlib.Core.Bool.{false≢true}
use ventura_os.Memory.{page_size, new_map, PhysicalMemoryMap, usable}
use ventura_os.Pmm
use ventura_os.Pmm.{free_physical_page}
use ventura_os.Pmm.Init.{init-IsValid}
use ventura_os.Pmm.Tests.{blank}
use ventura_os.Paging.{to_page_flags, kernel_data}
use ventura_os.Paging.Entry.{is_present-zero, to_page_flags_lem}
use ventura_os.Tables.{Vm}
use ventura_os.Tables.Mmu.{mmu}
use ventura_os.Tables.Tree.{Trail, extend, Ghost, IsTree, pool_table}
use ventura_os.Tables.Tests.{boot, base, own_slots, none_free}
use ventura_os.AddressSpace.{AddressSpace, map_page}
use ventura_os.AddressSpace.Destroy.{Cpu}
use ventura_os.AddressSpace.Isolation.{map_page-isolated}

abbrev second_root : ℕ
second_root = 0x10_1000

abbrev two_roots : Vm
two_roots = record boot { bootstrap_index = 2 }

abbrev two_trails : Ghost
two_trails t =
    if t == base
    then some (base ∷ [])
    else if t == second_root
    then some (second_root ∷ [])
    else none

two_roots-IsTree : IsTree own_slots two_trails two_roots
two_roots-IsTree = record {
  pmm_valid = (init-IsValid new_map blank (λ i lt. absurd (omega arith))).0;
  in_use = λ t p at. none_free (t / page_size);
  child = λ t p i at low high present table. absurd (false≢true (sym is_present-zero ∙ present));
  pool_aligned = refl;
  pool_end = omega arith;
  pool_used = λ j lt. none_free (pool_table two_roots j / page_size);
  pool_fresh = λ j low high. ground arith;
}

abbrev first_space : AddressSpace
first_space = record { id = 1; root_page = base; owns_root = true }

-- The second space does not see what the first maps at the same address.
map_page-isolated_example :
    mmu
      (map_page 0x80_0000_0000 0x5000 (to_page_flags kernel_data) first_space two_roots).1.entries
      second_root
      0x80_0000_0000
    ≡ mmu two_roots.entries second_root 0x80_0000_0000
map_page-isolated_example =
    map_page-isolated own_slots two_trails first_space 0x80_0000_0000 0x5000
      (to_page_flags kernel_data) two_roots second_root 0x80_0000_0000 two_roots-IsTree refl
      (λ slot low high. refl) ((to_page_flags_lem kernel_data).1) refl (omega arith)

-- An allocator of six pages, of which page 5 is free and pages 0 to 4 are in use.
abbrev one_page : PhysicalMemoryMap
one_page = record new_map {
  regions = λ i. record {
    physical_start = 0x5000;
    physical_end = 0x6000;
    page_count = 1;
    region_type = usable;
    is_usable = true;
  };
  region_count = 1;
}

-- A space whose root is page 1, with one table of each level behind slot 1 in pages 2 to 4; the
-- bootstrap pool lies elsewhere.
abbrev lone_entries : ℕ → ℕ → ℕ
lone_entries t i =
    if (t == 0x1000) && (i == 1)
    then 0x2001
    else if (t == 0x2000) && (i == 0)
    then 0x3001
    else if (t == 0x3000) && (i == 0)
    then 0x4001
    else 0

abbrev lone : Vm
lone = record boot { entries = lone_entries; pmm = Pmm.init one_page blank }

abbrev lone_trails : Ghost
lone_trails t =
    if t == 0x1000
    then some (0x1000 ∷ [])
    else if t == 0x2000
    then some (1 ∷ 0x1000 ∷ [])
    else if t == 0x3000
    then some (0 ∷ 1 ∷ 0x1000 ∷ [])
    else if t == 0x4000
    then some (0 ∷ 0 ∷ 1 ∷ 0x1000 ∷ [])
    else none

-- The trail behind slot `i`.
abbrev extended : ℕ → Option Trail → Option Trail
extended i none = none
extended i (some p) = some (extend own_slots i p)

abbrev lone_space : AddressSpace
lone_space = record { id = 1; root_page = 0x1000; owns_root = true }

abbrev in_use_by : ℕ → Cpu
in_use_by root = record { cr3 = root; current_asid = 1 }
