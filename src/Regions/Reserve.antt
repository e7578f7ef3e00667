-- ===== src/Regions/Reserve.antt =====
-- `reserve_virtual_region` of src/vmm.rs on a valid region table.
use ventura_os.Base.{
  ℕ, ◌+◌, ◌%◌, ◌^◌, ◌≤◌, ◌<◌, ◌≡◌, ◌⊎◌, inl, inr, refl, true, false, not, ◌||◌, Option, none, some,
  ltb, leb, ◌==◌, checked_add, update, arith, ℕ_discrete, Bool-cases,
}
use ventura_os.Base.Search.{find_first-Found, Found, hit, miss}
use ventura_os.Memory.{page_size}
use ventura_os.Paging.{
  VirtPermissions, dynamic_virt_start, dynamic_virt_end, max_virt_regions, is_canonical,
}
use ventura_os.Regions.{
  VirtRegion, RegionPurpose, VirtualMemoryManager, zero_size, region_table_full, address_overflow,
  overlaps, find_overlap, dynamic_region, Reserved, ok, err, reserve_virtual_region,
}
use ventura_os.Paging.Addr.{is_canonical_iff}
use ventura_os.Regions.Valid.{IsRegion, Apart, IsValid, overlaps-meet, IsValid-append}

-- The dynamic cursor: whole pages inside the dynamic range, with no region above.
pub record IsCursor (m : VirtualMemoryManager) : Type 0 where
  pub cursor_aligned : m.next_dynamic_addr % page_size ≡ 0
  pub cursor_low : dynamic_virt_start ≤ m.next_dynamic_addr
  pub cursor_high : m.next_dynamic_addr ≤ dynamic_virt_end
  pub below :
      (i : ℕ)
      → i < m.region_count
      → (m.regions i).start + (m.regions i).size_bytes ≤ m.next_dynamic_addr

abbrev pub advanced : VirtRegion → VirtualMemoryManager → VirtualMemoryManager
advanced region m = record {
  regions = update m.regions m.region_count region;
  region_count = m.region_count + 1;
  next_dynamic_addr = m.next_dynamic_addr + region.size_bytes;
}

-- What `reserve_virtual_region` promises.
pub data ReserveResult (size : ℕ) (permissions : VirtPermissions) (purpose : RegionPurpose)
    (m : VirtualMemoryManager) : Reserved × VirtualMemoryManager → Type 0 where
  bad_size :
      (size ≡ 0) ⊎ ¬ (size % page_size ≡ 0)
      → ReserveResult size permissions purpose m (err zero_size, m)
  no_room :
      dynamic_virt_end < m.next_dynamic_addr + size
      → ReserveResult size permissions purpose m (err address_overflow, m)
  full :
      m.region_count ≡ max_virt_regions
      → ReserveResult size permissions purpose m (err region_table_full, m)
  reserved :
      m.next_dynamic_addr + size ≤ dynamic_virt_end
      → IsRegion (dynamic_region m.next_dynamic_addr size permissions purpose)
      → IsValid (advanced (dynamic_region m.next_dynamic_addr size permissions purpose) m)
      → IsCursor (advanced (dynamic_region m.next_dynamic_addr size permissions purpose) m)
      → ReserveResult size permissions purpose m (
        ok (dynamic_region m.next_dynamic_addr size permissions purpose),
        advanced (dynamic_region m.next_dynamic_addr size permissions purpose) m,
      )

module _ (size : ℕ) (permissions : VirtPermissions) (purpose : RegionPurpose)
    (m : VirtualMemoryManager) (v : IsValid m) (c : IsCursor m) where
  abbrev fresh : VirtRegion
  fresh = dynamic_region m.next_dynamic_addr size permissions purpose

  fresh-Apart : (i : ℕ) → i < m.region_count → Apart (m.regions i) fresh
  fresh-Apart i lt = inl (c.below i lt)

  IsValid-advanced : IsRegion fresh → m.region_count < max_virt_regions → IsValid (advanced fresh m)
  IsValid-advanced is room =
      let a = IsValid-append m fresh v is room fresh-Apart in
      record { bounded = a.bounded; each = a.each; apart = a.apart }

  IsCursor-advanced :
      IsRegion fresh → m.next_dynamic_addr + size ≤ dynamic_virt_end → IsCursor (advanced fresh m)
  IsCursor-advanced is fits = record {
    cursor_aligned = omega (arith, c.cursor_aligned, is.whole);
    cursor_low = omega (arith, c.cursor_low);
    cursor_high = fits;
    below = λ i lt. elim (ℕ_discrete m.region_count i) [
      | yes e ↦ let at : (advanced fresh m).regions i ≡ fresh = ground arith in rw at (omega arith)
      | no ne ↦
          let at : (advanced fresh m).regions i ≡ m.regions i = ground arith in
          rw at (omega (arith, c.below i (omega arith)))
    ];
  }

  no_overlap : find_overlap m m.next_dynamic_addr size ≡ none
  no_overlap = by_found (find_first-Found _ _)
    where
      by_found :
          {o : Option ℕ}
          → Found (λ i. overlaps (m.regions i) m.next_dynamic_addr size) m.region_count o
          → o ≡ none
      by_found (miss _) = refl
      by_found (hit i lt meet before) =
          absurd (overlaps-meet (m.regions i) fresh (v.each i lt) meet (fresh-Apart i lt))

-- On a valid table with no region above the dynamic cursor, `reserve_virtual_region` refuses and
-- keeps the state exactly for a size that is not a positive number of pages, a range that would
-- pass the end of the dynamic range, or a full table; else it hands out the pages from the cursor
-- on, registers them, moves the cursor behind them, and table and cursor are valid again.
pub reserve_virtual_region-ReserveResult :
    (size : ℕ) (permissions : VirtPermissions) (purpose : RegionPurpose) (m : VirtualMemoryManager)
    → IsValid m
    → IsCursor m
    → size < 2 ^ 64
    → ReserveResult size permissions purpose m (reserve_virtual_region size permissions purpose m)
unfolding reserve_virtual_region
reserve_virtual_region-ReserveResult size permissions purpose m v c lt =
    elim (Bool-cases ((size == 0) || not ((size % page_size) == 0))) [
      | inl bad ↦ rw bad (bad_size (ground arith))
      | inr sized ↦ elim (ltb-cases (m.next_dynamic_addr + size) (2 ^ 64)) [
        | inr big ↦
            let e : checked_add m.next_dynamic_addr size ≡ none = ground arith in
            rw (sized, e) (no_room (omega (arith, c.cursor_low)))
        | inl small ↦
            let e : checked_add m.next_dynamic_addr size ≡ some (m.next_dynamic_addr + size) =
              ground arith in
            elim (ltb-cases dynamic_virt_end (m.next_dynamic_addr + size)) [
              | inl past ↦
                  let f : (ltb dynamic_virt_end (m.next_dynamic_addr + size)
                        || not (is_canonical (m.next_dynamic_addr + size)))
                      ≡ true =
                    ground arith in
                  rw (sized, e, f) (no_room past)
              | inr fits ↦
                  let canonical : is_canonical (m.next_dynamic_addr + size) ≡ true =
                    (is_canonical_iff (m.next_dynamic_addr + size) small).1
                      (inr (omega (arith, c.cursor_low))) in
                  let f : (ltb dynamic_virt_end (m.next_dynamic_addr + size)
                        || not (is_canonical (m.next_dynamic_addr + size)))
                      ≡ false =
                    ground (arith, canonical) in
                  let is : IsRegion (dynamic_region m.next_dynamic_addr size permissions purpose) =
                    record {
                      aligned = c.cursor_aligned;
                      whole = ground arith;
                      some_bytes = ground arith;
                      no_wrap = small;
                    } in
                  elim (Bool-cases (leb max_virt_regions m.region_count)) [
                    | inl top ↦
                        rw (sized, e, f, no_overlap size permissions purpose m v c, top)
                          (full (ground (arith, v.bounded)))
                    | inr room ↦
                        rw (sized, e, f, no_overlap size permissions purpose m v c, room)
                          (reserved fits is
                            (IsValid-advanced size permissions purpose m v c is (ground arith))
                            (IsCursor-advanced size permissions purpose m v c is fits))
                  ]
            ]
      ]
    ]
  where
    ltb-cases : (a b : ℕ) → (a < b) ⊎ (b ≤ a)
    ltb-cases a b = ground arith
