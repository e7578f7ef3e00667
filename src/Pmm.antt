-- ===== src/Pmm.antt =====
-- The physical page allocator: src/pmm.rs. The bitmap is a function from the word index, of which
-- the first `bitmap_words` are the array; a set bit is a used page. The state is what the statics
-- BITMAP and STATS hold; every operation runs under `without_interrupts`, so it is one step.
pub mod Tests
pub mod Pages
pub mod Alloc
pub mod Free
pub mod Release
pub mod Init
pub mod Verify
use ventura_os.Base.{
  ℕ, zero, suc, ◌+◌, ◌-◌, ◌*◌, ◌/◌, ◌%◌, ◌^◌, Bool, true, false, not, ◌&&◌, Option, none, some, ltb,
  leb, ◌==◌, if◌then◌else◌, add64, not64, u64_max, saturating_add, saturating_sub, trailing_zeros,
  count_ones, update, bit_and, bit_or,
}
use ventura_os.Memory.{page_size, PhysicalMemoryMap, MemoryRegion}

abbrev pub max_managed_pages : ℕ
max_managed_pages = 1_048_576

abbrev pub bitmap_words : ℕ
bitmap_words = max_managed_pages / 64

-- `PhysPage` is its address.
abbrev pub PhysPage : Type 0
PhysPage = ℕ

abbrev pub null : PhysPage
null = 0

abbrev pub from_addr : ℕ → Option PhysPage
from_addr addr = if (addr % page_size) == 0 then some addr else none

abbrev pub page_number : PhysPage → ℕ
page_number page = page / page_size

abbrev pub from_page_number : ℕ → PhysPage
from_page_number num = (num * page_size) % 2 ^ 64

pub data PageFreeError : Type 0 where
  unaligned_address out_of_bounds double_free reserved_memory : PageFreeError

pub record AllocatorStats : Type 0 where
  pub total_managed_pages : ℕ
  pub usable_pages : ℕ
  pub free_pages : ℕ
  pub used_pages : ℕ

pub record Pmm : Type 0 where
  pub bitmap : ℕ → ℕ
  pub stats : AllocatorStats
  pub open stats use *

pub data FreeResult : Type 0 where
  ok : FreeResult
  err : PageFreeError → FreeResult

-- `bitmap[page / 64] &= !(1 << page % 64)` and `bitmap[page / 64] |= 1 << page % 64`.
unfoldable pub clear_bit : (ℕ → ℕ) → ℕ → ℕ → ℕ
clear_bit bitmap page =
    update bitmap (page / 64) (bit_and (bitmap (page / 64)) (not64 (2 ^ (page % 64))))

unfoldable pub set_bit : (ℕ → ℕ) → ℕ → ℕ → ℕ
set_bit bitmap page = update bitmap (page / 64) (bit_or (bitmap (page / 64)) (2 ^ (page % 64)))

-- The highest end of the first `n` regions.
unfoldable pub highest_end : (ℕ → MemoryRegion) → ℕ → ℕ
highest_end regions zero = 0
highest_end regions (suc n) =
    let highest = highest_end regions n in
    if ltb highest (regions n).physical_end then (regions n).physical_end else highest

-- The body of `for page_idx in start_page..end_page` in `init`.
unfoldable pub free_one : ℕ → Pmm → Pmm
unfolding clear_bit
free_one page_idx s =
    if page_idx == 0
    then s
    else if ltb page_idx s.total_managed_pages
    then record {
      bitmap = clear_bit s.bitmap page_idx;
      stats = record {
        total_managed_pages = s.total_managed_pages;
        usable_pages = add64 s.usable_pages 1;
        free_pages = add64 s.free_pages 1;
        used_pages = s.used_pages;
      };
    }
    else s

-- The loop itself, with `left` pages to go.
unfoldable pub free_range : ℕ → ℕ → Pmm → Pmm
unfolding free_one
free_range zero page_idx s = s
free_range (suc left) page_idx s = free_range left (page_idx + 1) (free_one page_idx s)

unfoldable pub free_region : MemoryRegion → Pmm → Pmm
unfolding free_range
free_region r s =
    let start_page = r.physical_start / page_size in
    let end_page = r.physical_end / page_size in
    if r.is_usable then free_range (end_page - start_page) start_page s else s

-- The first `n` regions, in order.
unfoldable pub free_regions : (ℕ → MemoryRegion) → ℕ → Pmm → Pmm
unfolding free_region
free_regions regions zero s = s
free_regions regions (suc n) s = free_region (regions n) (free_regions regions n s)

abbrev pub managed_pages : PhysicalMemoryMap → ℕ
managed_pages map =
    let max_pages = highest_end map.regions map.region_count / page_size in
    if ltb max_managed_pages max_pages then max_managed_pages else max_pages

unfoldable pub init : PhysicalMemoryMap → Pmm → Pmm
unfolding highest_end free_regions
init map s =
    let s' = free_regions map.regions map.region_count (record {
      bitmap = λ _. u64_max;
      stats = record {
        total_managed_pages = managed_pages map;
        usable_pages = 0;
        free_pages = 0;
        used_pages = s.used_pages;
      };
    }) in
    record {
      bitmap = s'.bitmap;
      stats = record {
        total_managed_pages = s'.total_managed_pages;
        usable_pages = s'.usable_pages;
        free_pages = s'.free_pages;
        used_pages = saturating_sub s'.total_managed_pages s'.free_pages;
      };
    }

-- The state after page `page_idx` is handed out.
unfoldable pub take_page : ℕ → Pmm → Pmm
unfolding set_bit
take_page page_idx s = record {
  bitmap = set_bit s.bitmap page_idx;
  stats = record {
    total_managed_pages = s.total_managed_pages;
    usable_pages = s.usable_pages;
    free_pages = saturating_sub s.free_pages 1;
    used_pages = saturating_add s.used_pages 1;
  };
}

-- The loop over the words from `w` on, with `left` words to go.
unfoldable pub scan : ℕ → ℕ → Pmm → Option PhysPage × Pmm
unfolding take_page trailing_zeros
scan zero w s = (none, s)
scan (suc left) w s =
    let rest = scan left (w + 1) s in
    if s.bitmap w == u64_max
    then rest
    else (let bit_idx = trailing_zeros 64 (not64 (s.bitmap w)) in
        let page_idx = w * 64 + bit_idx in
        if ltb page_idx s.total_managed_pages
        then (some (from_page_number page_idx), take_page page_idx s)
        else rest)

abbrev pub words_to_scan : Pmm → ℕ
words_to_scan s = (s.total_managed_pages + 63) / 64

unfoldable pub allocate_physical_page : Pmm → Option PhysPage × Pmm
unfolding scan
allocate_physical_page s = scan (words_to_scan s) 0 s

-- The state after page `page_idx` is given back.
unfoldable pub give_page : ℕ → Pmm → Pmm
unfolding clear_bit
give_page page_idx s = record {
  bitmap = clear_bit s.bitmap page_idx;
  stats = record {
    total_managed_pages = s.total_managed_pages;
    usable_pages = s.usable_pages;
    free_pages = saturating_add s.free_pages 1;
    used_pages = saturating_sub s.used_pages 1;
  };
}

unfoldable pub free_physical_page : PhysPage → Pmm → FreeResult × Pmm
unfolding give_page
free_physical_page page s =
    let page_idx = page_number page in
    if not ((page % page_size) == 0)
    then (err unaligned_address, s)
    else if page_idx == 0
    then (err reserved_memory, s)
    else if leb s.total_managed_pages page_idx
    then (err out_of_bounds, s)
    else if bit_and (s.bitmap (page_idx / 64)) (2 ^ (page_idx % 64)) == 0
    then (err double_free, s)
    else (ok, give_page page_idx s)

-- The free bits that `verify_invariants` counts in word `w`; in the last word it masks the bits
-- past the managed pages.
unfoldable pub free_bits_of : Pmm → ℕ → ℕ
unfolding count_ones
free_bits_of s w =
    let word = s.bitmap w in
    if (w == (words_to_scan s - 1)) && not ((s.total_managed_pages % 64) == 0)
    then (let mask = 2 ^ (s.total_managed_pages % 64) - 1 in
        count_ones 64 (not64 (bit_or word (not64 mask))))
    else count_ones 64 (not64 word)

unfoldable pub count_free : Pmm → ℕ → ℕ
unfolding free_bits_of
count_free s zero = 0
count_free s (suc n) = count_free s n + free_bits_of s n

pub data Invariant : Type 0 where
  pages_sum page_zero_free free_mismatch : Invariant

-- `none` is `Ok(())`, and each failure carries one of the three messages.
unfoldable pub verify_invariants : Pmm → Option Invariant
unfolding count_free
verify_invariants s =
    if not (add64 s.used_pages s.free_pages == s.total_managed_pages)
    then some pages_sum
    else if bit_and (s.bitmap 0) 1 == 0
    then some page_zero_free
    else if not (count_free s (words_to_scan s) == s.free_pages)
    then some free_mismatch
    else none
