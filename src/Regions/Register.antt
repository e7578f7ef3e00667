-- ===== src/Regions/Register.antt =====
-- `register_region` and `reserve_virtual_region` of src/vmm.rs on a valid region table.
use ventura_os.Base.{
  ℕ, ◌+◌, ◌%◌, ◌^◌, ◌<◌, ◌≤◌, ◌≡◌, ◌⊎◌, inl, inr, true, false, not, ◌||◌, Option, none, some, leb,
  ◌==◌, arith, ℕ_discrete, Bool-cases,
}
use ventura_os.Base.Search.{find_first-Found, Found, hit, miss}
use ventura_os.Memory.{page_size}
use ventura_os.Paging.{max_virt_regions, is_canonical, is_aligned}
use ventura_os.Regions.{
  VirtRegion, VirtualMemoryManager, VmmError, non_canonical, unaligned_virtual, zero_size,
  region_table_full, region_overlaps, region_end, overlaps, append, register_region,
}
use ventura_os.Regions.Valid.{
  IsRegion, Apart, IsValid, overlaps-Apart, overlaps-meet, IsValid-append,
}

-- What `register_region` promises.
pub data Registered (region : VirtRegion) (m : VirtualMemoryManager)
    : Option VmmError × VirtualMemoryManager → Type 0 where
  bad_address :
      (is_canonical region.start ≡ false) ⊎ (is_canonical (region_end region) ≡ false)
      → Registered region m (some non_canonical, m)
  bad_alignment : ¬ (region.start % page_size ≡ 0) → Registered region m (some unaligned_virtual, m)
  bad_size :
      (region.size_bytes ≡ 0) ⊎ ¬ (region.size_bytes % page_size ≡ 0)
      → Registered region m (some zero_size, m)
  full : m.region_count ≡ max_virt_regions → Registered region m (some region_table_full, m)
  clash :
      (i : ℕ)
      → i < m.region_count
      → ¬ Apart (m.regions i) region
      → Registered region m (some region_overlaps, m)
  added :
      region.start + region.size_bytes < 2 ^ 64
      → IsValid (append region m)
      → Registered region m (none, append region m)
  wrapped :
      2 ^ 64 ≤ region.start + region.size_bytes
      → m.region_count < max_virt_regions
      → Registered region m (none, append region m)

-- On a valid table `register_region` either refuses and keeps the table, for a bad address,
-- alignment or size, a table of 256 regions or a region that meets the new one, or appends the
-- region. If the region does not wrap around the address space the table is valid again: its
-- regions stay pairwise apart. A region that wraps is appended to a table with room too, with no
-- promise that the table stays valid.
pub register_region-Registered :
    (region : VirtRegion) (m : VirtualMemoryManager)
    → IsValid m
    → Registered region m (register_region region m)
unfolding register_region
register_region-Registered region m v =
    elim (Bool-cases (not (is_canonical region.start) || not (is_canonical (region_end region)))) [
      | inl bad ↦ rw bad (bad_address (ground arith))
      | inr good ↦ elim (ℕ_discrete (region.start % page_size) 0) [
        | no unaligned ↦
            let e : is_aligned region.start ≡ false = unfold is_aligned in ground arith in
            rw (good, e) (bad_alignment unaligned)
        | yes aligned ↦
            let e : is_aligned region.start ≡ true = unfold is_aligned in ground arith in
            elim (Bool-cases
              ((region.size_bytes == 0) || not ((region.size_bytes % page_size) == 0))) [
                | inl bad ↦ rw (good, e, bad) (bad_size (ground arith))
                | inr sized ↦ elim (Bool-cases (leb max_virt_regions m.region_count)) [
                  | inl top ↦ rw (good, e, sized, top) (full (ground (arith, v.bounded)))
                  | inr room ↦
                      rw (good, e, sized, room)
                        (by_search aligned sized room (find_first-Found _ _))
                ]
              ]
      ]
    ]
  where
    by_search :
        region.start % page_size ≡ 0
        → ((region.size_bytes == 0) || not ((region.size_bytes % page_size) == 0)) ≡ false
        → leb max_virt_regions m.region_count ≡ false
        → {o : Option ℕ}
        → Found (λ i. overlaps (m.regions i) region.start region.size_bytes) m.region_count o
        → Registered region m
            (elim o [ some _ ↦ (some region_overlaps, m) | none ↦ (none, append region m) ])
    by_search aligned sized room found =
        let lt : m.region_count < max_virt_regions = ground arith in by_found lt found
      where
        sound : region.start + region.size_bytes < 2 ^ 64 → IsRegion region
        sound no_wrap = record {
          aligned = aligned;
          whole = ground arith;
          some_bytes = ground arith;
          no_wrap = no_wrap;
        }

        wraps : (a b : ℕ) → (a < b) ⊎ (b ≤ a)
        wraps a b = ground arith

        by_found :
            m.region_count < max_virt_regions
            → {o : Option ℕ}
            → Found (λ i. overlaps (m.regions i) region.start region.size_bytes) m.region_count o
            → Registered region m
                (elim o [ some _ ↦ (some region_overlaps, m) | none ↦ (none, append region m) ])
        by_found lt (hit i lt_i meet before) =
            clash i lt_i (overlaps-meet (m.regions i) region (v.each i lt_i) meet)
        by_found lt (miss none_meet) = elim (wraps (region.start + region.size_bytes) (2 ^ 64)) [
          | inr wrap ↦ wrapped wrap lt
          | inl no_wrap ↦
              let is = sound no_wrap in
              added no_wrap (
                IsValid-append m region v is lt (λ j lt_j.
                  overlaps-Apart (m.regions j) region (v.each j lt_j) is (none_meet j lt_j)))
        ]
