-- ===== src/Pmm/Free.antt =====
-- `free_physical_page` of src/pmm.rs: every branch, and what it undoes.
use ventura_os.Base.{
  ℕ, ◌+◌, ◌*◌, ◌/◌, ◌%◌, ◌≤◌, ◌<◌, ◌≡◌, refl, sym, true, false, leb, ◌==◌, if◌then◌else◌, arith,
  inl, inr, Bool-cases, ℕ_discrete,
}
use ventura_os.Memory.{page_size}
use ventura_os.Base.Count.{count_below-le}
use ventura_os.Pmm.{
  Pmm, PhysPage, FreeResult, ok, err, unaligned_address, out_of_bounds, double_free,
  reserved_memory, give_page, free_physical_page,
}
use ventura_os.Pmm.Pages.{
  is_free, free_below, IsValid, is_free-clear_bit, free_below-clear_bit, clear_bit-Words, free_test,
}

-- What giving a page back promises: one branch for each result.
pub data Freed (s : Pmm) (addr : PhysPage) : FreeResult × Pmm → Type 0 where
  unaligned : ¬ (addr % page_size ≡ 0) → Freed s addr (err unaligned_address, s)
  page_zero : addr ≡ 0 → Freed s addr (err reserved_memory, s)
  outside :
      addr % page_size ≡ 0
      → 0 < addr
      → s.total_managed_pages * page_size ≤ addr
      → Freed s addr (err out_of_bounds, s)
  already_free :
      (p : ℕ)
      → addr ≡ p * page_size
      → p < s.total_managed_pages
      → is_free s.bitmap p ≡ true
      → Freed s addr (err double_free, s)
  given :
      {s' : Pmm} (p : ℕ)
      → addr ≡ p * page_size
      → 0 < p
      → p < s.total_managed_pages
      → is_free s.bitmap p ≡ false
      → ((q : ℕ) → is_free s'.bitmap q ≡ (if p == q then true else is_free s.bitmap q))
      → s'.free_pages ≡ s.free_pages + 1
      → s'.used_pages + 1 ≡ s.used_pages
      → s'.total_managed_pages ≡ s.total_managed_pages
      → s'.usable_pages ≡ s.usable_pages
      → IsValid s'
      → Freed s addr (ok, s')

module _ (s : Pmm) (v : IsValid s) (p : ℕ) (pos : 0 < p) (lt : p < s.total_managed_pages)
    (used : is_free s.bitmap p ≡ false) where
  free_below-give_page : free_below (give_page p s).bitmap s.total_managed_pages ≡ s.free_pages + 1
  free_below-give_page =
      unfold give_page in
      omega (arith, free_below-clear_bit s.bitmap p s.total_managed_pages lt used, v.counted)

  some_used : s.free_pages + 1 ≤ s.total_managed_pages
  some_used =
      rw (← free_below-give_page)
        (unfold free_below in count_below-le (is_free (give_page p s).bitmap) s.total_managed_pages)

  give_page-free_pages : (give_page p s).free_pages ≡ s.free_pages + 1
  unfolding give_page
  give_page-free_pages = ground (arith, some_used, v.bounded)

  give_page-used_pages : (give_page p s).used_pages + 1 ≡ s.used_pages
  unfolding give_page
  give_page-used_pages = omega (arith, some_used, v.accounted)

  give_page-IsValid : IsValid (give_page p s)
  give_page-IsValid = record {
    bounded = unfold give_page in v.bounded;
    words = unfold give_page in clear_bit-Words s.bitmap p v.words;
    page_zero = unfold give_page in ground (arith, is_free-clear_bit s.bitmap p 0, v.page_zero);
    accounted = omega (arith, give_page-free_pages, give_page-used_pages, v.accounted, same_total);
    counted = rw (give_page-free_pages, same_total) (sym free_below-give_page);
  }
    where
      same_total : (give_page p s).total_managed_pages ≡ s.total_managed_pages
      same_total = unfold give_page in refl

module _ (s : Pmm) (v : IsValid s) (addr : PhysPage) where
  abbrev p : ℕ
  p = addr / page_size

  free_physical_page-aligned :
      addr % page_size ≡ 0
      → 0 < addr
      → p < s.total_managed_pages
      → Freed s addr (free_physical_page addr s)
  free_physical_page-aligned aligned pos lt = elim (Bool-cases (is_free s.bitmap p)) [
    | inl free ↦
        let e : free_physical_page addr s ≡ (err double_free, s) =
          unfold free_physical_page in ground (arith, free_test s.bitmap p) in
        rw e (already_free p (omega arith) lt free)
    | inr used ↦
        let e : free_physical_page addr s ≡ (ok, give_page p s) =
          unfold free_physical_page in ground (arith, free_test s.bitmap p) in
        rw e (
          given {s' = give_page p s} p (omega arith) (omega arith) lt used
            (unfold give_page in is_free-clear_bit s.bitmap p)
            (give_page-free_pages s v p (omega arith) lt used)
            (give_page-used_pages s v p (omega arith) lt used) (unfold give_page in refl)
            (unfold give_page in refl) (give_page-IsValid s v p (omega arith) lt used))
  ]

-- On a valid allocator `free_physical_page` rejects an address that is not a multiple of the page
-- size, page 0, a page past the managed ones and a page that is already free, in this order and
-- with the state unchanged; any other page alone becomes free, the counters move by one and the
-- allocator stays valid.
pub free_physical_page-Freed :
    (s : Pmm) → IsValid s → (addr : PhysPage) → Freed s addr (free_physical_page addr s)
free_physical_page-Freed s v addr = elim (ℕ_discrete (addr % page_size) 0) [
  | no unaligned_addr ↦
      let e : free_physical_page addr s ≡ (err unaligned_address, s) =
        unfold free_physical_page in ground arith in
      rw e (unaligned unaligned_addr)
  | yes aligned ↦ elim (ℕ_discrete addr 0) [
    | yes zero_addr ↦
        let e : free_physical_page addr s ≡ (err reserved_memory, s) =
          unfold free_physical_page in ground arith in
        rw e (page_zero zero_addr)
    | no nonzero ↦ elim (Bool-cases (leb s.total_managed_pages (addr / page_size))) [
      | inl past ↦
          let e : free_physical_page addr s ≡ (err out_of_bounds, s) =
            unfold free_physical_page in ground arith in
          rw e (outside aligned (omega arith) (ground arith))
      | inr managed ↦ free_physical_page-aligned s v addr aligned (omega arith) (ground arith)
    ]
  ]
]
