-- ===== src/Regions/Lookup.antt =====
-- `find_region_for_addr` and `unregister_region` of src/vmm.rs on a valid region table.
use ventura_os.Base.{
  ℕ, ◌+◌, ◌-◌, ◌≤◌, ◌<◌, ◌≡◌, inl, inr, refl, sym, ◌∙◌, true, false, Option, none, some, ◌==◌,
  arith, ℕ_discrete, ap, ◌↔◌,
}
use ventura_os.Base.Search.{find_first-Found, Found, hit, miss}
use ventura_os.Paging.{VirtAddr}
use ventura_os.Regions.{
  VirtRegion, VirtualMemoryManager, VmmError, region_overlaps, contains, remove, unregister_region,
  find_region_for_addr,
}
use ventura_os.Regions.Valid.{
  IsRegion, Apart, IsValid, Apart-at, origin, remove-origin, IsValid-remove,
}

-- The address lies in the region, without wrap-around.
abbrev pub In : VirtAddr → VirtRegion → Type 0
In addr r = (r.start ≤ addr) × (addr < r.start + r.size_bytes)

-- The region is in the table.
abbrev pub Listed : VirtualMemoryManager → VirtRegion → Type 0
Listed m r = (i : ℕ) × (i < m.region_count) × (m.regions i ≡ r)

contains→In : (r : VirtRegion) (addr : ℕ) → IsRegion r → contains r addr ≡ true → In addr r
unfolding contains
contains→In r addr is h = ground (arith, is.no_wrap)

not_contains→In : (r : VirtRegion) (addr : ℕ) → IsRegion r → contains r addr ≡ false → ¬ In addr r
unfolding contains
not_contains→In r addr is h (low, high) = ground (arith, is.no_wrap)

-- What `find_region_for_addr` promises.
pub data Lookup (addr : VirtAddr) (m : VirtualMemoryManager) : Option VirtRegion → Type 0 where
  found :
      (r : VirtRegion)
      → Listed m r
      → In addr r
      → ((r' : VirtRegion) → Listed m r' → In addr r' → r' ≡ r)
      → Lookup addr m (some r)
  absent : ((r : VirtRegion) → Listed m r → ¬ In addr r) → Lookup addr m none

same_index :
    (m : VirtualMemoryManager) (addr i j : ℕ)
    → IsValid m
    → i < m.region_count
    → j < m.region_count
    → In addr (m.regions i)
    → In addr (m.regions j)
    → j ≡ i
same_index m addr i j v lt_i lt_j at_i at_j = elim (ℕ_discrete j i) [
  | yes e ↦ e
  | no ne ↦ absurd (by_sides (Apart-at m v j i lt_j lt_i ne))
]
  where
    by_sides : ¬ Apart (m.regions j) (m.regions i)
    by_sides (inl h) = omega (arith, at_i, at_j)
    by_sides (inr h) = omega (arith, at_i, at_j)

-- On a valid table `find_region_for_addr` returns the one region that holds the address, and
-- nothing exactly if no region does.
pub find_region_for_addr-Lookup :
    (addr : VirtAddr) (m : VirtualMemoryManager)
    → IsValid m
    → Lookup addr m (find_region_for_addr addr m)
unfolding find_region_for_addr
find_region_for_addr-Lookup addr m v = by_found (find_first-Found _ _)
  where
    by_found :
        {o : Option ℕ}
        → Found (λ i. contains (m.regions i) addr) m.region_count o
        → Lookup addr m (elim o [ some i ↦ some (m.regions i) | none ↦ none ])
    by_found (hit i lt holds before) =
        let at_i = contains→In (m.regions i) addr (v.each i lt) holds in
        found (m.regions i) (i, lt, refl) at_i
          (λ r (j, lt_j, e) at_r.
            sym e ∙ ap m.regions (same_index m addr i j v lt lt_j at_i (rw e at_r)))
    by_found (miss never) = absent (λ r (j, lt_j, e) at_r.
        not_contains→In (m.regions j) addr (v.each j lt_j) (never j lt_j) (rw e at_r))

-- What `unregister_region` promises.
pub data Unregistered (start : VirtAddr) (m : VirtualMemoryManager)
    : Option VmmError × VirtualMemoryManager → Type 0 where
  removed :
      {m' : VirtualMemoryManager} (r : VirtRegion)
      → Listed m r
      → r.start ≡ start
      → IsValid m'
      → ((q : VirtRegion) → Listed m' q ↔ (Listed m q × ¬ (q.start ≡ start)))
      → m'.region_count + 1 ≡ m.region_count
      → Unregistered start m (none, m')
  unknown :
      ((r : VirtRegion) → Listed m r → ¬ (r.start ≡ start))
      → Unregistered start m (some region_overlaps, m)

module _ (start : VirtAddr) (m : VirtualMemoryManager) (v : IsValid m) where
  Listed-remove :
      (i : ℕ)
      → i < m.region_count
      → (m.regions i).start ≡ start
      → (q : VirtRegion) → Listed (remove i m) q ↔ (Listed m q × ¬ (q.start ≡ start))
  Listed-remove i lt at q = (forth, back)
    where
      self : (j : ℕ) → j < m.region_count → (m.regions j).start ≡ start → j ≡ i
      self j lt_j at_j =
          same_index m start i j v lt lt_j (omega (arith, at, (v.each i lt).some_bytes))
            (omega (arith, at_j, (v.each j lt_j).some_bytes))

      forth : Listed (remove i m) q → Listed m q × ¬ (q.start ≡ start)
      forth (j, lt_j, e) =
          let e' : m.regions (origin m i j) ≡ q = sym (remove-origin m i j lt lt_j) ∙ e in
          let lt_o : origin m i j < m.region_count = ground arith in
          (
            (origin m i j, lt_o, e'),
            λ at_q.
                let same = self (origin m i j) lt_o (ap (λ r. r.start) e' ∙ at_q) in ground arith,
          )

      back : Listed m q × ¬ (q.start ≡ start) → Listed (remove i m) q
      back ((j, lt_j, e), other) =
          let differ : ¬ (j ≡ i) =
            λ same. other (sym (ap (λ r. r.start) e) ∙ ap (λ k. (m.regions k).start) same ∙ at) in
          elim (ℕ_discrete j (m.region_count - 1)) [
            | yes top ↦
                let o : origin m i i ≡ j = ground arith in
                (i, omega arith, remove-origin m i i lt (omega arith) ∙ ap m.regions o ∙ e)
            | no low ↦
                let o : origin m i j ≡ j = ground arith in
                (j, omega arith, remove-origin m i j lt (omega arith) ∙ ap m.regions o ∙ e)
          ]

-- On a valid table `unregister_region` removes the region that starts at the address and no other,
-- and the table is valid again; it fails, and keeps the table, exactly if no region starts there.
pub unregister_region-Unregistered :
    (start : VirtAddr) (m : VirtualMemoryManager)
    → IsValid m
    → Unregistered start m (unregister_region start m)
unfolding unregister_region
unregister_region-Unregistered start m v = by_found (find_first-Found _ _)
  where
    by_found :
        {o : Option ℕ}
        → Found (λ i. (m.regions i).start == start) m.region_count o
        → Unregistered start m
            (elim o [ some i ↦ (none, remove i m) | none ↦ (some region_overlaps, m) ])
    by_found (hit i lt at before) =
        let at' : (m.regions i).start ≡ start = ground arith in
        removed (m.regions i) (i, lt, refl) at' (IsValid-remove m i v lt)
          (Listed-remove start m v i lt at') (omega arith)
    by_found (miss never) = unknown (λ r (j, lt_j, e) at_r.
        let at_j : (m.regions j).start ≡ start = ap (λ r. r.start) e ∙ at_r in
        ground (arith, never j lt_j))
