-- ===== src/Pmm/Tests.antt =====
-- The page allocator of src/pmm.rs run on a small memory map.
use ventura_os.Base.{zero, suc, ◌≡◌, ◌↔◌, refl, true, ◌&&◌, none, some, arith}
use ventura_os.Memory.{PhysicalMemoryMap, new_map, usable}
use ventura_os.Pmm.{
  Pmm, err, init, allocate_physical_page, free_physical_page, managed_pages, verify_invariants,
  double_free,
}
use ventura_os.Pmm.Pages.{is_free, IsValid}
use ventura_os.Pmm.Alloc.{Allocation, allocate_physical_page-Allocation}
use ventura_os.Pmm.Free.{Freed, free_physical_page-Freed}
use ventura_os.Pmm.Init.{Disjoint, init-is_free, init-IsValid}
use ventura_os.Pmm.Release.{usable_page, in_pool}
use ventura_os.Pmm.Verify.{verify_invariants_iff}

-- One usable region of four pages from 0x1000 on.
abbrev pub four_pages : PhysicalMemoryMap
four_pages = record new_map {
  regions = λ i. record {
    physical_start = 0x1000;
    physical_end = 0x5000;
    page_count = 4;
    region_type = usable;
    is_usable = true;
  };
  region_count = 1;
}

abbrev pub blank : Pmm
blank = record {
  bitmap = λ _. 0;
  stats = record { total_managed_pages = 0; usable_pages = 0; free_pages = 0; used_pages = 0 };
}

pub four_pages-Disjoint : Disjoint four_pages.regions 1
unfolding usable_page
four_pages-Disjoint zero lt q holds = refl
four_pages-Disjoint (suc i) lt q holds = absurd (omega arith)

pub started-IsValid : IsValid (init four_pages blank)
started-IsValid = (init-IsValid four_pages blank four_pages-Disjoint).0

-- The first page handed out is page 1; a second time it is not free to be freed.
first_page : (allocate_physical_page (init four_pages blank)).0 ≡ some 0x1000
unfolding allocate_physical_page init
first_page = refl

already_free_page : (free_physical_page 0x1000 (init four_pages blank)).0 ≡ err double_free
unfolding free_physical_page init
already_free_page = refl

init-IsValid_example :
    IsValid (init four_pages blank)
    × ((init four_pages blank).usable_pages ≡ (init four_pages blank).free_pages)
init-IsValid_example = init-IsValid four_pages blank four_pages-Disjoint

init-is_free_example :
    is_free (init four_pages blank).bitmap 2
    ≡ (usable_page four_pages.regions 1 2 && in_pool (managed_pages four_pages) 2)
init-is_free_example = init-is_free four_pages blank 2

allocate_physical_page-Allocation_example :
    Allocation (init four_pages blank) (allocate_physical_page (init four_pages blank))
allocate_physical_page-Allocation_example =
    allocate_physical_page-Allocation (init four_pages blank) started-IsValid

free_physical_page-Freed_example :
    Freed (init four_pages blank) 0x1000 (free_physical_page 0x1000 (init four_pages blank))
free_physical_page-Freed_example =
    free_physical_page-Freed (init four_pages blank) started-IsValid 0x1000

verify_invariants_iff_example :
    (verify_invariants (init four_pages blank) ≡ none) ↔ IsValid (init four_pages blank)
verify_invariants_iff_example =
    verify_invariants_iff (init four_pages blank) started-IsValid.bounded started-IsValid.words
      (omega (arith, started-IsValid.accounted, started-IsValid.bounded))
