-- ===== src/Boot/Check.antt =====
-- `verify_page_tables` and `shares_kernel_half` of src/vmm.rs.
use ventura_os.Base.{
  ℕ, zero, suc, ◌-◌, ◌%◌, Bool, true, not, ◌&&◌, Option, none, some, ◌==◌, if◌then◌else◌,
}
use ventura_os.Memory.{page_size}
use ventura_os.Paging.{is_present, phys_addr, kernel_pml4_start}

pub data TableError : Type 0 where
  root_null pml4_unaligned pdpt_unaligned pd_unaligned leaf_unaligned : TableError

-- A loop over the entries from `i` on, `left` of them, that returns at the first error.
unfoldable pub each_entry : (ℕ → Option TableError) → ℕ → ℕ → Option TableError
each_entry check i zero = none
each_entry check i (suc left) =
    let rest = each_entry check (suc i) left in elim (check i) [ none ↦ rest | some e ↦ some e ]

-- An entry that is not present passes; another is aligned, and then `below` looks at its table.
abbrev pub check_entry : TableError → (ℕ → Option TableError) → ℕ → Option TableError
check_entry e below entry =
    if is_present entry
    then (if not ((phys_addr entry % page_size) == 0) then some e else below (phys_addr entry))
    else none

abbrev pub check_pt : (ℕ → ℕ → ℕ) → ℕ → Option TableError
check_pt entries t = each_entry (λ i. check_entry leaf_unaligned (λ _. none) (entries t i)) 0 512

abbrev pub check_pd : (ℕ → ℕ → ℕ) → ℕ → Option TableError
check_pd entries t =
    each_entry (λ i. check_entry pd_unaligned (check_pt entries) (entries t i)) 0 512

abbrev pub check_pdpt : (ℕ → ℕ → ℕ) → ℕ → Option TableError
check_pdpt entries t =
    each_entry (λ i. check_entry pdpt_unaligned (check_pd entries) (entries t i)) 0 512

unfoldable pub verify_page_tables : (ℕ → ℕ → ℕ) → ℕ → Option TableError
unfolding each_entry
verify_page_tables entries root =
    if root == 0
    then some root_null
    else each_entry (λ i. check_entry pml4_unaligned (check_pdpt entries) (entries root i)) 0 512

-- `(KERNEL_PML4_START..512).all(...)`, from entry `i` on.
unfoldable pub all_shared : (ℕ → ℕ → ℕ) → ℕ → ℕ → ℕ → ℕ → Bool
all_shared entries kernel_root root i zero = true
all_shared entries kernel_root root i (suc left) =
    is_present (entries kernel_root i)
    && (phys_addr (entries root i) == phys_addr (entries kernel_root i))
    && all_shared entries kernel_root root (suc i) left

unfoldable pub shares_kernel_half : (ℕ → ℕ → ℕ) → ℕ → ℕ → Bool
unfolding all_shared
shares_kernel_half entries kernel_root root =
    all_shared entries kernel_root root kernel_pml4_start (512 - kernel_pml4_start)
