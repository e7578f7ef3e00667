-- ===== src/Tables/Mmu.antt =====
-- The page walk of the processor, as its manual describes it: the specification that the tables
-- of src/vmm.rs are read by. A huge page ends the walk above the last level.
use ventura_os.Base.{
  ℕ, ◌+◌, ◌*◌, ◌/◌, ◌%◌, ◌^◌, ◌≡◌, true, false, Option, none, some, List, [], ◌∷◌, length,
  if◌then◌else◌,
}
use ventura_os.Paging.{
  VirtAddr, is_present, is_huge, phys_addr, pml4_index, pdpt_index, pd_index, pt_index,
}

-- The entry at which the walk from table `t` ends, and how many levels were left below it.
unfoldable pub walk : (ℕ → ℕ → ℕ) → ℕ → List ℕ → Option (ℕ × ℕ)
walk entries t [] = none
walk entries t (i ∷ []) = if is_present (entries t i) then some (entries t i, 0) else none
walk entries t (i ∷ j ∷ is) =
    let rest = walk entries (phys_addr (entries t i)) (j ∷ is) in
    if is_present (entries t i)
    then (if is_huge (entries t i) then some (entries t i, length (j ∷ is)) else rest)
    else none

abbrev pub indices : VirtAddr → List ℕ
indices v = pml4_index v ∷ pdpt_index v ∷ pd_index v ∷ pt_index v ∷ []

-- What the processor finds for `v` under the root table `root`.
unfoldable pub mmu : (ℕ → ℕ → ℕ) → ℕ → VirtAddr → Option (ℕ × ℕ)
unfolding walk
mmu entries root v = walk entries root (indices v)

-- The physical address of `v` under an entry that maps 2 ^ (12 + 9 n) bytes.
abbrev pub target : VirtAddr → ℕ × ℕ → ℕ
target v (e, n) = phys_addr e / 2 ^ (12 + 9 * n) * 2 ^ (12 + 9 * n) + v % 2 ^ (12 + 9 * n)

-- Entry `i` of table `t` leads to table `u`.
pub record Links (entries : ℕ → ℕ → ℕ) (t i u : ℕ) : Type 0 where
  pub present : is_present (entries t i) ≡ true
  pub table : is_huge (entries t i) ≡ false
  pub leads : phys_addr (entries t i) ≡ u

pub walk-Links :
    (entries : ℕ → ℕ → ℕ) (t i u j : ℕ) (is : List ℕ)
    → Links entries t i u
    → walk entries t (i ∷ j ∷ is) ≡ walk entries u (j ∷ is)
unfolding walk
walk-Links entries t i u j is l = rw (l.present, l.table, l.leads)
