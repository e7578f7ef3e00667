-- ===== src/Pmm/Alloc.antt =====
-- `allocate_physical_page` of src/pmm.rs hands out the lowest free page.
use mathlib.Core.Bool.{false≢true}
use ventura_os.Base.{
  ℕ, zero, suc, ◌+◌, ◌*◌, ◌/◌, ◌%◌, ◌≤◌, ◌<◌, ◌≡◌, refl, sym, ◌∙◌, true, false, Option, none, some,
  ltb, ◌==◌, if◌then◌else◌, not64, u64_max, trailing_zeros, arith, inl, inr, Bool-cases, ==→eq,
  ==→ne, ltb→lt, ltb→le, ℕ_discrete,
}
use ventura_os.Base.Bits.{test_bit, test_bit-not, test_bit-zero}
use ventura_os.Base.Count.{count_below_none, count_below_pos}
use ventura_os.Base.Scan.{IsLowest, trailing_zeros-IsLowest}
use ventura_os.Memory.{page_size}
use ventura_os.Pmm.{
  Pmm, PhysPage, from_page_number, take_page, scan, words_to_scan, allocate_physical_page,
}
use ventura_os.Pmm.Pages.{
  is_free, free_below, Words, IsValid, is_free-set_bit, free_below-set_bit, set_bit-Words,
}

-- No page from `lo` up to the page `hi` is free.
abbrev pub NoneFree : (ℕ → ℕ) → ℕ → ℕ → Type 0
NoneFree bitmap lo hi = (p : ℕ) → lo ≤ p → p < hi → is_free bitmap p ≡ false

-- A scan from page `lo` finds nothing, or takes the lowest free page from there.
data Scanned (s : Pmm) (lo : ℕ) : Option PhysPage × Pmm → Type 0 where
  exhausted : NoneFree s.bitmap lo s.total_managed_pages → Scanned s lo (none, s)
  found :
      (p : ℕ)
      → lo ≤ p
      → p < s.total_managed_pages
      → is_free s.bitmap p ≡ true
      → NoneFree s.bitmap lo p
      → Scanned s lo (some (from_page_number p), take_page p s)

widen :
    {s : Pmm} {lo hi : ℕ} {r : Option PhysPage × Pmm}
    → Scanned s hi r
    → lo ≤ hi
    → ((p : ℕ) → lo ≤ p → p < hi → p < s.total_managed_pages → is_free s.bitmap p ≡ false)
    → Scanned s lo r
widen {s} {lo} {hi} (exhausted none_above) le none_below = exhausted λ p from to.
    elim (Bool-cases (ltb p hi)) [
      | inl below ↦ none_below p from (ltb→lt p hi below) to
      | inr above ↦ none_above p (ltb→le p hi above) to
    ]
widen {s} {lo} {hi} (found p from to free none_above) le none_below =
    found p (omega arith) to free λ q from' to'. elim (Bool-cases (ltb q hi)) [
      | inl below ↦ none_below q from' (ltb→lt q hi below) (omega arith)
      | inr above ↦ none_above q (ltb→le q hi above) to'
    ]

module _ (s : Pmm) (words : Words s.bitmap) (w : ℕ) where
  abbrev free_bits : ℕ
  free_bits = not64 (s.bitmap w)

  -- A page of word `w` is free exactly if its bit is set in the complement.
  is_free-free_bits :
      (p : ℕ) → w * 64 ≤ p → p < w * 64 + 64 → is_free s.bitmap p ≡ test_bit free_bits (p % 64)
  unfolding is_free
  is_free-free_bits p from to =
      let e : p / 64 ≡ w = omega arith in
      rw e (sym (test_bit-not 64 (p % 64) (s.bitmap w) (words w) (omega arith)))

  full_word :
      s.bitmap w ≡ u64_max → (p : ℕ) → w * 64 ≤ p → p < w * 64 + 64 → is_free s.bitmap p ≡ false
  full_word full p from to =
      let e : free_bits ≡ 0 = omega arith in
      is_free-free_bits p from to ∙ rw e (test_bit-zero (p % 64))

  module _ (some_free : ¬ (s.bitmap w ≡ u64_max)) where
    abbrev bit_idx : ℕ
    bit_idx = trailing_zeros 64 free_bits

    lowest : IsLowest 64 free_bits bit_idx
    lowest = trailing_zeros-IsLowest 64 free_bits (omega arith) (omega (arith, words w))

    first_page : is_free s.bitmap (w * 64 + bit_idx) ≡ true
    first_page =
        let e : (w * 64 + bit_idx) % 64 ≡ bit_idx = omega (arith, lowest.in_word) in
        is_free-free_bits (w * 64 + bit_idx) (omega arith) (omega (arith, lowest.in_word))
        ∙ rw e lowest.is_one

    before_first : (p : ℕ) → w * 64 ≤ p → p < w * 64 + bit_idx → is_free s.bitmap p ≡ false
    before_first p from to =
        is_free-free_bits p from (omega (arith, lowest.in_word))
        ∙ lowest.below (p % 64) (omega (arith, lowest.in_word))

scan-Scanned :
    (left w : ℕ) (s : Pmm)
    → Words s.bitmap
    → s.total_managed_pages ≤ (w + left) * 64
    → Scanned s (w * 64) (scan left w s)
unfolding scan
scan-Scanned zero w s words enough = exhausted λ p from to. absurd (omega arith)
scan-Scanned (suc left) w s words enough = elim (Bool-cases (s.bitmap w == u64_max)) [
  | inl full ↦ rw full (
      widen (scan-Scanned left (w + 1) s words (omega arith)) (omega arith)
        λ p from to _. full_word s words w (==→eq _ _ full) p from (omega arith))
  | inr some_free' ↦
      let some_free = ==→ne (s.bitmap w) u64_max some_free' in
      let low = lowest s words w some_free in
      elim (Bool-cases (ltb (w * 64 + bit_idx s words w some_free) s.total_managed_pages)) [
        | inl managed ↦
            rw (some_free', managed)
              (found _ (omega arith) (ltb→lt _ _ managed) (first_page s words w some_free)
                (before_first s words w some_free))
        | inr past ↦
            rw (some_free', past)
              (widen (scan-Scanned left (w + 1) s words (omega arith)) (omega arith) λ p from to lt.
                before_first s words w some_free p from (ground (arith, ltb→le _ _ past)))
      ]
]

-- What an allocation promises: the lowest free page, its address, and nothing else changed.
pub data Allocation (s : Pmm) : Option PhysPage × Pmm → Type 0 where
  out_of_memory :
      s.free_pages ≡ 0 → NoneFree s.bitmap 0 s.total_managed_pages → Allocation s (none, s)
  page :
      {s' : Pmm} (p : ℕ)
      → 0 < p
      → p < s.total_managed_pages
      → is_free s.bitmap p ≡ true
      → NoneFree s.bitmap 0 p
      → ((q : ℕ) → is_free s'.bitmap q ≡ (if p == q then false else is_free s.bitmap q))
      → s'.free_pages + 1 ≡ s.free_pages
      → s'.used_pages ≡ s.used_pages + 1
      → s'.total_managed_pages ≡ s.total_managed_pages
      → s'.usable_pages ≡ s.usable_pages
      → IsValid s'
      → Allocation s (some (p * page_size), s')

module _ (s : Pmm) (v : IsValid s) (p : ℕ) (lt : p < s.total_managed_pages)
    (free : is_free s.bitmap p ≡ true) where
  some_free_pages : 0 < s.free_pages
  some_free_pages =
      rw v.counted
        (unfold free_below in count_below_pos (is_free s.bitmap) p s.total_managed_pages lt free)

  pub take_page-free_pages : (take_page p s).free_pages + 1 ≡ s.free_pages
  unfolding take_page
  take_page-free_pages = omega (arith, some_free_pages)

  take_page-used_pages : (take_page p s).used_pages ≡ s.used_pages + 1
  unfolding take_page
  take_page-used_pages = ground (arith, v.accounted, some_free_pages, v.bounded)

  take_page-IsValid : IsValid (take_page p s)
  take_page-IsValid = record {
    bounded = unfold take_page in v.bounded;
    words = unfold take_page in set_bit-Words s.bitmap p v.words;
    page_zero = unfold take_page in ground (arith, is_free-set_bit s.bitmap p 0, v.page_zero);
    accounted = omega (arith, take_page-free_pages, take_page-used_pages, v.accounted, same_total);
    counted =
        unfold take_page in
        omega (
          arith,
          some_free_pages,
          v.counted,
          free_below-set_bit s.bitmap p s.total_managed_pages lt free,
        );
  }
    where
      same_total : (take_page p s).total_managed_pages ≡ s.total_managed_pages
      same_total = unfold take_page in refl

  not_zero : 0 < p
  not_zero = elim (ℕ_discrete p 0) [
    | yes e ↦ absurd (false≢true (sym v.page_zero ∙ rw (← e) free))
    | no ne ↦ omega arith
  ]

Allocation-Scanned :
    {s : Pmm} {r : Option PhysPage × Pmm} → IsValid s → Scanned s 0 r → Allocation s r
Allocation-Scanned {s} v (exhausted none_free) =
    out_of_memory
      (v.counted
        ∙ unfold free_below in
          count_below_none (is_free s.bitmap) s.total_managed_pages
            (λ i h. none_free i (omega arith) h))
      none_free
Allocation-Scanned {s} v (found p from lt free none_below) =
    let e : from_page_number p ≡ p * page_size = omega (arith, v.bounded) in
    rw e (
      page {s' = take_page p s} p (not_zero s v p lt free) lt free none_below
        (unfold take_page in is_free-set_bit s.bitmap p) (take_page-free_pages s v p lt free)
        (take_page-used_pages s v p lt free) (unfold take_page in refl) (unfold take_page in refl)
        (take_page-IsValid s v p lt free))

-- On a valid allocator `allocate_physical_page` either reports that no managed page is free, when
-- the free count is 0, and changes nothing, or it returns the address of the lowest free page,
-- which is not page 0: this page alone is now used, the counters have moved by one, the totals
-- are as before and the allocator is valid.
pub allocate_physical_page-Allocation :
    (s : Pmm) → IsValid s → Allocation s (allocate_physical_page s)
unfolding allocate_physical_page
allocate_physical_page-Allocation s v =
    Allocation-Scanned v (scan-Scanned (words_to_scan s) 0 s v.words (omega arith))
