-- ===== src/Pmm/Release.antt =====
-- The pages of one region that `init` of src/pmm.rs frees.
use ventura_os.Base.{
  ℕ, zero, suc, ◌+◌, ◌-◌, ◌/◌, ◌≤◌, ◌<◌, ◌≡◌, refl, ◌∙◌, Bool, true, false, ◌&&◌, ◌||◌, ltb, leb,
  ◌==◌, add64, arith, inl, inr, Bool-cases,
}
use ventura_os.Memory.{page_size, MemoryRegion}
use ventura_os.Base.Count.{count_below-le}
use ventura_os.Pmm.{Pmm, clear_bit, free_one, free_range, free_region, max_managed_pages}
use ventura_os.Pmm.Pages.{
  is_free, free_below, Words, is_free-clear_bit, free_below-clear_bit, clear_bit-Words,
}

-- Page `q` is one that may be handed out: not page 0, and managed.
abbrev pub in_pool : ℕ → ℕ → Bool
in_pool total q = ltb 0 q && ltb q total

-- Page `q` lies in the region.
abbrev pub holds_page : MemoryRegion → ℕ → Bool
holds_page r q =
    r.is_usable && (leb (r.physical_start / page_size) q && ltb q (r.physical_end / page_size))

-- Page `q` lies in one of the first `n` usable regions.
unfoldable pub usable_page : (ℕ → MemoryRegion) → ℕ → ℕ → Bool
usable_page regions zero q = false
usable_page regions (suc n) q = usable_page regions n q || holds_page (regions n) q

-- What holds while pages are being freed.
pub record IsFreeing (s : Pmm) : Type 0 where
  pub bounded : s.total_managed_pages ≤ max_managed_pages
  pub words : Words s.bitmap
  pub page_zero : is_free s.bitmap 0 ≡ false
  pub counted : s.free_pages ≡ free_below s.bitmap s.total_managed_pages
  pub all_usable : s.usable_pages ≡ s.free_pages

free_one-is_free :
    (i : ℕ) (s : Pmm) (q : ℕ)
    → is_free (free_one i s).bitmap q
      ≡ (is_free s.bitmap q || ((i == q) && in_pool s.total_managed_pages q))
free_one-is_free i s q = elim (Bool-cases (in_pool s.total_managed_pages i)) [
  | inl pool ↦
      let e : (free_one i s).bitmap ≡ clear_bit s.bitmap i = unfold free_one in ground arith in
      rw e (ground (arith, is_free-clear_bit s.bitmap i q))
  | inr out ↦
      let e : (free_one i s).bitmap ≡ s.bitmap = unfold free_one in ground arith in
      rw e (ground arith)
]

free_one-total : (i : ℕ) (s : Pmm) → (free_one i s).total_managed_pages ≡ s.total_managed_pages
unfolding free_one
free_one-total i s = ground arith

pub free_below-le : (bitmap : ℕ → ℕ) (n : ℕ) → free_below bitmap n ≤ n
unfolding free_below
free_below-le bitmap n = count_below-le (is_free bitmap) n

free_one-IsFreeing :
    (i : ℕ) (s : Pmm) → IsFreeing s → is_free s.bitmap i ≡ false → IsFreeing (free_one i s)
free_one-IsFreeing i s f used = elim (Bool-cases (in_pool s.total_managed_pages i)) [
  | inr out ↦ let e : free_one i s ≡ s = unfold free_one in ground arith in rw e f
  | inl pool ↦
      let e : free_one i s ≡ record {
        bitmap = clear_bit s.bitmap i;
        stats = record {
          total_managed_pages = s.total_managed_pages;
          usable_pages = add64 s.usable_pages 1;
          free_pages = add64 s.free_pages 1;
          used_pages = s.used_pages;
        };
      } =
        unfold free_one in ground arith in
      rw e (record {
        bounded = f.bounded;
        words = clear_bit-Words s.bitmap i f.words;
        page_zero = ground (arith, is_free-clear_bit s.bitmap i 0, f.page_zero);
        counted = omega (
          arith,
          f.counted,
          f.bounded,
          free_below-le s.bitmap s.total_managed_pages,
          free_below-clear_bit s.bitmap i s.total_managed_pages (ground arith) used,
        );
        all_usable = omega (arith, f.all_usable);
      })
]

free_range-total :
    (left i : ℕ) (s : Pmm) → (free_range left i s).total_managed_pages ≡ s.total_managed_pages
unfolding free_range
free_range-total zero i s = refl
free_range-total (suc left) i s = free_range-total left (i + 1) (free_one i s) ∙ free_one-total i s

-- The pages that a range adds.
free_range-is_free :
    (left i : ℕ) (s : Pmm) (q : ℕ)
    → is_free (free_range left i s).bitmap q
      ≡ (is_free s.bitmap q || ((leb i q && ltb q (i + left)) && in_pool s.total_managed_pages q))
unfolding free_range
free_range-is_free zero i s q = ground arith
free_range-is_free (suc left) i s q = ground (
  arith,
  free_range-is_free left (i + 1) (free_one i s) q,
  free_one-is_free i s q,
  free_one-total i s,
)

free_range-IsFreeing :
    (left i : ℕ) (s : Pmm)
    → IsFreeing s
    → ((q : ℕ) → i ≤ q → q < i + left → is_free s.bitmap q ≡ false)
    → IsFreeing (free_range left i s)
unfolding free_range
free_range-IsFreeing zero i s f used = f
free_range-IsFreeing (suc left) i s f used =
    free_range-IsFreeing left (i + 1) (free_one i s)
      (free_one-IsFreeing i s f (used i (omega arith) (omega arith)))
      λ q from to. ground (arith, free_one-is_free i s q, used q (omega arith) (omega arith))

pub free_region-total :
    (r : MemoryRegion) (s : Pmm) → (free_region r s).total_managed_pages ≡ s.total_managed_pages
unfolding free_region
free_region-total r s = elim (Bool-cases r.is_usable) [
  | inl u ↦ rw u (
      free_range-total (r.physical_end / page_size - r.physical_start / page_size)
        (r.physical_start / page_size) s)
  | inr u ↦ rw u
]

pub free_region-is_free :
    (r : MemoryRegion) (s : Pmm) (q : ℕ)
    → is_free (free_region r s).bitmap q
      ≡ (is_free s.bitmap q || (holds_page r q && in_pool s.total_managed_pages q))
unfolding free_region
free_region-is_free r s q = ground (
  arith,
  free_range-is_free (r.physical_end / page_size - r.physical_start / page_size)
      (r.physical_start / page_size) s q,
)

pub free_region-IsFreeing :
    (r : MemoryRegion) (s : Pmm)
    → IsFreeing s
    → ((q : ℕ) → holds_page r q ≡ true → is_free s.bitmap q ≡ false)
    → IsFreeing (free_region r s)
free_region-IsFreeing r s f used = elim (Bool-cases r.is_usable) [
  | inl u ↦
      let e : free_region r s
          ≡ free_range (r.physical_end / page_size - r.physical_start / page_size)
              (r.physical_start / page_size) s =
        unfold free_region in rw u in
      rw e (
        free_range-IsFreeing _ (r.physical_start / page_size) s f
          λ q from to. used q (ground arith))
  | inr u ↦ let e : free_region r s ≡ s = unfold free_region in rw u in rw e f
]
