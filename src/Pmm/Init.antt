-- ===== src/Pmm/Init.antt =====
-- `init` of src/pmm.rs: which pages it frees, and that it sets up a valid allocator.
use ventura_os.Base.{
  ℕ, zero, suc, ◌%◌, ◌≤◌, ◌<◌, ◌≡◌, refl, sym, ◌∙◌, Bool, true, false, ◌&&◌, ◌||◌, u64_max, arith,
}
use ventura_os.Memory.{MemoryRegion, PhysicalMemoryMap}
use ventura_os.Base.Bits.{test_bit-not, test_bit-zero}
use ventura_os.Base.Count.{count_below_none}
use ventura_os.Pmm.{Pmm, free_regions, managed_pages, init}
use ventura_os.Pmm.Pages.{is_free, free_below, IsValid}
use ventura_os.Pmm.Release.{
  IsFreeing, free_below-le, free_region-IsFreeing, free_region-is_free, free_region-total,
  holds_page, in_pool, usable_page,
}

-- No page lies in two usable regions among the first `n`.
abbrev pub Disjoint : (ℕ → MemoryRegion) → ℕ → Type 0
Disjoint regions n =
    (i : ℕ) → i < n → (q : ℕ) → holds_page (regions i) q ≡ true → usable_page regions i q ≡ false

free_regions-total :
    (regions : ℕ → MemoryRegion) (n : ℕ) (s : Pmm)
    → (free_regions regions n s).total_managed_pages ≡ s.total_managed_pages
unfolding free_regions
free_regions-total regions zero s = refl
free_regions-total regions (suc n) s =
    free_region-total (regions n) (free_regions regions n s) ∙ free_regions-total regions n s

regroup : (a u h t : Bool) → ((a || (u && t)) || (h && t)) ≡ (a || ((u || h) && t))
regroup a u h t = ground arith

free_regions-is_free :
    (regions : ℕ → MemoryRegion) (n : ℕ) (s : Pmm) (q : ℕ)
    → is_free (free_regions regions n s).bitmap q
      ≡ (is_free s.bitmap q || (usable_page regions n q && in_pool s.total_managed_pages q))
unfolding free_regions usable_page
free_regions-is_free regions zero s q = ground arith
free_regions-is_free regions (suc n) s q =
    let total = free_regions-total regions n s in
    let before = free_regions-is_free regions n s q in
    let step = free_region-is_free (regions n) (free_regions regions n s) q in
    step ∙ rw (total, before) (regroup (is_free s.bitmap q) (usable_page regions n q) _ _)

free_regions-IsFreeing :
    (regions : ℕ → MemoryRegion) (n : ℕ) (s : Pmm)
    → Disjoint regions n
    → IsFreeing s
    → ((q : ℕ) → is_free s.bitmap q ≡ false)
    → IsFreeing (free_regions regions n s)
unfolding free_regions
free_regions-IsFreeing regions zero s apart f all_used = f
free_regions-IsFreeing regions (suc n) s apart f all_used =
    free_region-IsFreeing (regions n) (free_regions regions n s)
      (free_regions-IsFreeing regions n s (λ i h. apart i (omega arith)) f all_used)
      λ q inside.
        ground
          (arith, free_regions-is_free regions n s q, apart n (omega arith) q inside, all_used q)

abbrev all_used : PhysicalMemoryMap → Pmm → Pmm
all_used map s = record {
  bitmap = λ _. u64_max;
  stats = record {
    total_managed_pages = managed_pages map;
    usable_pages = 0;
    free_pages = 0;
    used_pages = s.used_pages;
  };
}

none_free : (q : ℕ) → is_free (λ _. u64_max) q ≡ false
unfolding is_free
none_free q =
    ground (arith, test_bit-not 64 (q % 64) 0 (omega arith) (omega arith), test_bit-zero (q % 64))

all_used-IsFreeing : (map : PhysicalMemoryMap) (s : Pmm) → IsFreeing (all_used map s)
all_used-IsFreeing map s = record {
  bounded = ground arith;
  words = λ w. omega arith;
  page_zero = none_free 0;
  counted = sym (
      unfold free_below in
      count_below_none (is_free (λ _. u64_max)) (managed_pages map) (λ i _. none_free i));
  all_usable = refl;
}

-- After `init` the free pages are exactly the managed pages but page 0 that lie in a usable
-- region, whatever the allocator held before.
pub init-is_free :
    (map : PhysicalMemoryMap) (s : Pmm) (q : ℕ)
    → is_free (init map s).bitmap q
      ≡ (usable_page map.regions map.region_count q && in_pool (managed_pages map) q)
unfolding init
init-is_free map s q =
    free_regions-is_free map.regions map.region_count (all_used map s) q
    ∙ ground (arith, none_free q)

-- If no page lies in two usable regions, `init` sets up a valid allocator, in which the count of
-- usable pages is that of the free ones.
pub init-IsValid :
    (map : PhysicalMemoryMap) (s : Pmm)
    → Disjoint map.regions map.region_count
    → IsValid (init map s) × ((init map s).usable_pages ≡ (init map s).free_pages)
unfolding init
init-IsValid map s apart = (
  record {
    bounded = f.bounded;
    words = f.words;
    page_zero = f.page_zero;
    accounted = omega (arith, enough);
    counted = f.counted;
  },
  f.all_usable,
)
  where
    f : IsFreeing (free_regions map.regions map.region_count (all_used map s))
    f =
        free_regions-IsFreeing map.regions map.region_count (all_used map s) apart
          (all_used-IsFreeing map s) none_free

    enough :
        (free_regions map.regions map.region_count (all_used map s)).free_pages
        ≤ (free_regions map.regions map.region_count (all_used map s)).total_managed_pages
    enough = rw f.counted (free_below-le _ _)
