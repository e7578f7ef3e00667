-- ===== src/Mapping/Tests.antt =====
-- Frames for a region, from the small memory map of the page allocator's tests.
use ventura_os.Base.{[]}
use ventura_os.Pmm.{init}
use ventura_os.Pmm.Tests.{four_pages, blank, started-IsValid}
use ventura_os.Mapping.{allocate_pages}
use ventura_os.Mapping.Rollback.{Batch, allocate_pages-Batch}

-- Five pages are one more than there are.
allocate_pages-Batch_example :
    Batch (init four_pages blank) 5 (allocate_pages 5 [] (init four_pages blank))
allocate_pages-Batch_example = allocate_pages-Batch 5 (init four_pages blank) started-IsValid
