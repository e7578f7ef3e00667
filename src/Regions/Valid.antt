-- ===== src/Regions/Valid.antt =====
-- The region table of src/vmm.rs: what a valid table is, and which changes keep it valid.
use ventura_os.Base.{
  ℕ, ◌+◌, ◌-◌, ◌%◌, ◌^◌, ◌≤◌, ◌<◌, ◌≡◌, ◌⊎◌, inl, inr, true, false, ◌==◌, if◌then◌else◌, arith,
  ℕ_discrete,
}
use ventura_os.Memory.{page_size}
use ventura_os.Paging.{max_virt_regions}
use ventura_os.Regions.{VirtRegion, VirtualMemoryManager, overlaps, append, remove}

-- A region of whole pages that does not wrap around the address space.
pub record IsRegion (r : VirtRegion) : Type 0 where
  pub aligned : r.start % page_size ≡ 0
  pub whole : r.size_bytes % page_size ≡ 0
  pub some_bytes : 0 < r.size_bytes
  pub no_wrap : r.start + r.size_bytes < 2 ^ 64

abbrev pub Apart : VirtRegion → VirtRegion → Type 0
Apart a b = (a.start + a.size_bytes ≤ b.start) ⊎ (b.start + b.size_bytes ≤ a.start)

pub record IsValid (m : VirtualMemoryManager) : Type 0 where
  pub bounded : m.region_count ≤ max_virt_regions
  pub each : (i : ℕ) → i < m.region_count → IsRegion (m.regions i)
  pub apart : (i j : ℕ) → i < j → j < m.region_count → Apart (m.regions i) (m.regions j)

-- Without wrap-around the source's test says whether the regions meet.
pub overlaps-Apart :
    (a b : VirtRegion)
    → IsRegion a
    → IsRegion b
    → overlaps a b.start b.size_bytes ≡ false
    → Apart a b
unfolding overlaps
overlaps-Apart a b is_a is_b none_meet =
    ground (arith, is_a.no_wrap, is_b.no_wrap, is_a.some_bytes, is_b.some_bytes)

-- A region that the test says meets `a` does meet it, also if it wraps.
pub overlaps-meet :
    (a b : VirtRegion) → IsRegion a → overlaps a b.start b.size_bytes ≡ true → ¬ Apart a b
unfolding overlaps
overlaps-meet a b is_a meet (inl h) = ground (arith, is_a.no_wrap, is_a.some_bytes)
overlaps-meet a b is_a meet (inr h) = ground (arith, is_a.no_wrap, is_a.some_bytes)

pub IsValid-append :
    (m : VirtualMemoryManager) (r : VirtRegion)
    → IsValid m
    → IsRegion r
    → m.region_count < max_virt_regions
    → ((j : ℕ) → j < m.region_count → Apart (m.regions j) r)
    → IsValid (append r m)
IsValid-append m r v is_r room apart_r = record {
  bounded = omega arith;
  each = λ i lt. elim (ℕ_discrete m.region_count i) [
    | yes e ↦ let at : (append r m).regions i ≡ r = ground arith in rw at is_r
    | no ne ↦
        let at : (append r m).regions i ≡ m.regions i = ground arith in
        rw at (v.each i (omega arith))
  ];
  apart = λ i j lt lt_j.
      let at_i : (append r m).regions i ≡ m.regions i = ground arith in
      elim (ℕ_discrete m.region_count j) [
        | yes e ↦
            let at : (append r m).regions j ≡ r = ground arith in
            rw (at_i, at) (apart_r i (omega arith))
        | no ne ↦
            let at : (append r m).regions j ≡ m.regions j = ground arith in
            rw (at_i, at) (v.apart i j lt (omega arith))
      ];
}

pub Apart-at :
    (m : VirtualMemoryManager)
    → IsValid m
    → (i j : ℕ) → i < m.region_count
    → j < m.region_count
    → ¬ (i ≡ j)
    → Apart (m.regions i) (m.regions j)
Apart-at m v i j lt_i lt_j ne = elim (ltb-cases i j) [
  | inl lt ↦ v.apart i j lt lt_j
  | inr le ↦ swap (m.regions j) (m.regions i) (v.apart j i (omega arith) lt_i)
]
  where
    ltb-cases : (a b : ℕ) → (a < b) ⊎ (b ≤ a)
    ltb-cases a b = ground arith

    swap : (a b : VirtRegion) → Apart a b → Apart b a
    swap a b (inl h) = inr h
    swap a b (inr h) = inl h

-- Where the entry at `j` comes from when the entry at `i` is removed.
abbrev pub origin : VirtualMemoryManager → ℕ → ℕ → ℕ
origin m i j = if i == j then m.region_count - 1 else j

pub remove-origin :
    (m : VirtualMemoryManager) (i j : ℕ)
    → i < m.region_count
    → j < m.region_count - 1
    → (remove i m).regions j ≡ m.regions (origin m i j)
remove-origin m i j lt_i lt_j = ground arith

pub IsValid-remove :
    (m : VirtualMemoryManager) (i : ℕ) → IsValid m → i < m.region_count → IsValid (remove i m)
IsValid-remove m i v lt_i = record {
  bounded = omega (arith, v.bounded);
  each = λ j lt. rw (remove-origin m i j lt_i lt) (v.each (origin m i j) (ground arith));
  apart = λ j k lt lt_k.
      rw (remove-origin m i j lt_i (omega arith), remove-origin m i k lt_i lt_k)
        (Apart-at m v (origin m i j) (origin m i k) (ground arith) (ground arith)
          (λ e. ground arith));
}
