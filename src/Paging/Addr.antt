-- ===== src/Paging/Addr.antt =====
-- The virtual addresses of src/vmm.rs: which are canonical, and how their indices name a page.
use ventura_os.Base.{ℕ, ◌-◌, ◌/◌, ◌%◌, ◌^◌, ◌≤◌, ◌<◌, ◌≡◌, ◌↔◌, ◌⊎◌, true, arith}
use ventura_os.Base.Bits.{bit_and-mask}
use ventura_os.Memory.{page_size}
use ventura_os.Paging.{
  VirtAddr, is_canonical, pml4_index, pdpt_index, pd_index, pt_index, page_offset,
}

-- A 64-bit address is canonical exactly if it lies in the lower or in the upper 2 ^ 47 bytes.
pub is_canonical_iff :
    (addr : ℕ)
    → addr < 2 ^ 64
    → (is_canonical addr ≡ true) ↔ ((addr < 2 ^ 47) ⊎ (2 ^ 64 - 2 ^ 47 ≤ addr))
unfolding is_canonical
is_canonical_iff addr lt = ground arith

pub pml4_index_lem : (v : VirtAddr) → pml4_index v ≡ v / 2 ^ 39 % 512
unfolding pml4_index
pml4_index_lem v = bit_and-mask 9 (v / 2 ^ 39)

pub pdpt_index_lem : (v : VirtAddr) → pdpt_index v ≡ v / 2 ^ 30 % 512
unfolding pdpt_index
pdpt_index_lem v = bit_and-mask 9 (v / 2 ^ 30)

pub pd_index_lem : (v : VirtAddr) → pd_index v ≡ v / 2 ^ 21 % 512
unfolding pd_index
pd_index_lem v = bit_and-mask 9 (v / 2 ^ 21)

pub pt_index_lem : (v : VirtAddr) → pt_index v ≡ v / 2 ^ 12 % 512
unfolding pt_index
pt_index_lem v = bit_and-mask 9 (v / 2 ^ 12)

pub page_offset_lem : (v : VirtAddr) → page_offset v ≡ v % 4096
unfolding page_offset
page_offset_lem v = bit_and-mask 12 v

-- The four indices select one canonical page: canonical addresses with the same indices lie in
-- the same page.
pub same_indices :
    (v w : VirtAddr)
    → v < 2 ^ 64
    → w < 2 ^ 64
    → is_canonical v ≡ true
    → is_canonical w ≡ true
    → pml4_index v ≡ pml4_index w
    → pdpt_index v ≡ pdpt_index w
    → pd_index v ≡ pd_index w
    → pt_index v ≡ pt_index w
    → v / page_size ≡ w / page_size
same_indices v w hv hw cv cw e4 e3 e2 e1 = omega (
  arith,
  (is_canonical_iff v hv).0 cv,
  (is_canonical_iff w hw).0 cw,
  pml4_index_lem v,
  pml4_index_lem w,
  pdpt_index_lem v,
  pdpt_index_lem w,
  pd_index_lem v,
  pd_index_lem w,
  pt_index_lem v,
  pt_index_lem w,
)
