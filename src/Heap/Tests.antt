-- ===== src/Heap/Tests.antt =====
-- A heap of two pages, on which the theorems about src/heap.rs are run.
use ventura_os.Base.{ℕ, ◌+◌, ◌≡◌, ◌⊎◌, ◌≤◌, ◌%◌, refl, false, inl, inr, some, [], ◌∷◌, arith, List}
use ventura_os.Paging.{kernel_data}
use ventura_os.Regions.{VirtRegion, dynamic_kernel, dynamic_region, new_manager}
use ventura_os.Mapping.{Kernel}
use ventura_os.Tables.Tests.{boot}
use ventura_os.Heap.{Heap, header_size, start_heap, take_block, take_block}
use ventura_os.Heap.Grow.{expand_heap}
use ventura_os.Heap.Allocate.{requested, allocate}
use ventura_os.Heap.Release.{deallocate}
use ventura_os.Heap.Check.{verify_invariants, passed}
use ventura_os.Heap.Layout.{Block, free_block, used_block}
use ventura_os.Heap.Invariant.{IsHeap}
use ventura_os.Heap.Find.{any_fits, FirstFit}
use ventura_os.Heap.Take.{take_block-Taken}
use ventura_os.Heap.Alloc.{allocate_first_fit, allocate_keeps}
use ventura_os.Heap.Outcome.{allocate_bounds, allocate_null}
use ventura_os.Heap.Free.{deallocate_frees, deallocate_keeps}
use ventura_os.Heap.Verify.{verify_invariants-IsHeap, start_heap-IsHeap}
use ventura_os.Heap.RoundTrip.{allocate-deallocate}

abbrev kernel : Kernel
kernel = record { vm = boot; vmm = new_manager; root = 0 }

abbrev two_pages : VirtRegion
two_pages = dynamic_region 65536 8192 kernel_data dynamic_kernel

abbrev no_heap : Heap
no_heap = record {
  start = 0;
  current_end = 0;
  head = 0;
  stats = record {
    total_bytes = 0;
    allocated_bytes = 0;
    free_bytes = 0;
    allocation_count = 0;
    free_count = 0;
    expansion_count = 0;
  };
  initialized = false;
  ram = λ x. 0;
}

abbrev fresh : Heap
fresh = start_heap two_pages 8192 no_heap

abbrev fresh-IsHeap : IsHeap fresh (free_block 8160 ∷ [])
fresh-IsHeap =
    start_heap-IsHeap two_pages 8192 no_heap refl (omega arith) refl refl (omega arith)
      (omega arith)

-- A request of 100 bytes takes the first 112 bytes of the block.
abbrev fit_100 : FirstFit (requested 100) (free_block 8160 ∷ [])
fit_100 = record {
  pre = [];
  block = free_block 8160;
  post = [];
  split = refl;
  unfit = refl;
  fit = refl;
}

allocate_first_fit_example :
    (s' : Heap) × (allocate 100 kernel fresh ≡ some (65568, kernel, s'))
    × IsHeap s' (used_block 112 ∷ free_block 8016 ∷ [])
    × (s'.start ≡ 65536)
unfolding start_heap
allocate_first_fit_example =
    allocate_first_fit kernel fresh 100 (free_block 8160 ∷ []) fresh-IsHeap (omega arith)
      (omega arith) fit_100

allocate-deallocate_example :
    (p : ℕ) × (s1 : Heap) × (allocate 100 kernel fresh ≡ some (p, kernel, s1))
    × IsHeap (deallocate p 100 s1) (free_block 8160 ∷ [])
allocate-deallocate_example =
    allocate-deallocate kernel fresh 100 100 (free_block 8160 ∷ []) fresh-IsHeap refl (omega arith)
      (omega arith) (omega arith) fit_100

verify_invariants-IsHeap_example : verify_invariants fresh ≡ some passed
verify_invariants-IsHeap_example =
    verify_invariants-IsHeap fresh (free_block 8160 ∷ []) fresh-IsHeap

allocate_bounds_example :
    (p : ℕ) × (k' : Kernel) × (s' : Heap) × (bs' : List Block) × (allocate 9000 kernel fresh
      ≡ some (p, k', s'))
    × IsHeap s' bs'
    × ((p ≡ 0) ⊎ ((p % 16 ≡ 0) × (s'.start + header_size ≤ p) × (p + 9000 ≤ s'.current_end)))
unfolding start_heap
allocate_bounds_example =
    allocate_bounds kernel fresh 9000 (free_block 8160 ∷ []) fresh-IsHeap (omega arith)
      (omega arith) (omega arith)

-- A mebibyte is more than one expansion gives.
allocate_null_example :
    (any_fits (requested 0x10_0000) (free_block 8160 ∷ []) ≡ false)
    × (expand_heap (requested 0x10_0000) kernel fresh ≡ some (false, kernel, fresh))
    × (fresh ≡ fresh)
unfolding start_heap allocate expand_heap
allocate_null_example =
    allocate_null kernel kernel fresh fresh 0x10_0000 (free_block 8160 ∷ []) fresh-IsHeap
      (omega arith) (omega arith) (omega arith) refl

-- Two blocks in use, of 112 and 64 bytes.
abbrev one_used : Heap
one_used = take_block 112 65536 fresh

abbrev two_used : Heap
two_used = take_block 64 (65536 + 144) one_used

abbrev one_used-IsHeap : IsHeap one_used (used_block 112 ∷ free_block 8016 ∷ [])
unfolding start_heap
one_used-IsHeap = (take_block-Taken fresh 112 [] (free_block 8160) [] fresh-IsHeap refl refl).heap

abbrev two_used-IsHeap : IsHeap two_used (used_block 112 ∷ used_block 64 ∷ free_block 7920 ∷ [])
unfolding start_heap take_block
two_used-IsHeap =
    (take_block-Taken one_used 64 (used_block 112 ∷ []) (free_block 8016) [] one_used-IsHeap refl
      refl).heap

allocate_keeps_example :
    (p : ℕ) × (s' : Heap) × (allocate 100 kernel one_used ≡ some (p, kernel, s'))
    × (s'.ram 65570 ≡ one_used.ram 65570)
unfolding start_heap take_block
allocate_keeps_example =
    allocate_keeps kernel one_used 100 (used_block 112 ∷ free_block 8016 ∷ []) 65570 one_used-IsHeap
      (omega arith) (omega arith)
      (record {
        pre = used_block 112 ∷ [];
        block = free_block 8016;
        post = [];
        split = refl;
        unfit = refl;
        fit = refl;
      })
      (inl (refl, omega arith, omega arith))

-- The first of the two is freed; the second keeps its contents.
deallocate_frees_example :
    IsHeap (deallocate 65568 100 two_used) (free_block 112 ∷ used_block 64 ∷ free_block 7920 ∷ [])
unfolding start_heap take_block
deallocate_frees_example =
    deallocate_frees two_used [] 112 (used_block 64 ∷ free_block 7920 ∷ []) 100 two_used-IsHeap
      (omega arith)

deallocate_keeps_example : (deallocate 65568 100 two_used).ram 65720 ≡ two_used.ram 65720
unfolding start_heap take_block
deallocate_keeps_example =
    deallocate_keeps two_used [] 112 (used_block 64 ∷ free_block 7920 ∷ []) 100 65720
      two_used-IsHeap (omega arith) (inr (inl (refl, omega arith, omega arith)))
