-- ===== src/Boot/Verify.antt =====
-- What the self-checks of src/vmm.rs establish, and that a new address space passes the second.
use ventura_os.Base.{
  ℕ, zero, suc, ◌+◌, ◌%◌, ◌≡◌, ◌<◌, ◌≤◌, refl, sym, ◌∙◌, ap, true, not, Option, none, some, ◌==◌,
  if◌then◌else◌, if_true, if_false, Bool-cases, inl, inr, arith, eq→==, ne→==,
}
use ventura_os.Memory.{page_size}
use ventura_os.Paging.{is_present, phys_addr, kernel_pml4_start}
use ventura_os.Paging.Entry.{phys_addr_bounds}
use ventura_os.AddressSpace.{share_kernel}
use ventura_os.Boot.Check.{
  TableError, root_null, each_entry, check_entry, check_pt, check_pd, check_pdpt, pml4_unaligned,
  pdpt_unaligned, pd_unaligned, leaf_unaligned, verify_page_tables, all_shared, shares_kernel_half,
}

each_entry-passes :
    (check : ℕ → Option TableError) (i left : ℕ)
    → ((j : ℕ) → check j ≡ none)
    → each_entry check i left ≡ none
unfolding each_entry
each_entry-passes check i zero all = refl
each_entry-passes check i (suc left) all =
    ap (λ r. elim r [ none ↦ each_entry check (suc i) left | some e ↦ some e ]) (all i)
    ∙ each_entry-passes check (suc i) left all

-- The address in an entry is a multiple of the page size, whatever the entry is.
check_entry-passes :
    (e : TableError) (below : ℕ → Option TableError) (entry : ℕ)
    → ((t : ℕ) → below t ≡ none)
    → check_entry e below entry ≡ none
check_entry-passes e below entry all = elim (Bool-cases (is_present entry)) [
  | inl present ↦
      if_true _ _ present
      ∙ if_false _ _ (ap not (eq→== (phys_addr entry % page_size) 0 (phys_addr_bounds entry).1))
      ∙ all (phys_addr entry)
  | inr absent ↦ if_false _ _ absent
]

-- `verify_page_tables` fails exactly on a null root: no contents of memory make it fail, since an
-- entry's address is masked to a multiple of the page size before it is tested for one.
pub verify_page_tables_lem :
    (entries : ℕ → ℕ → ℕ) (root : ℕ)
    → verify_page_tables entries root ≡ (if root == 0 then some root_null else none)
unfolding verify_page_tables
verify_page_tables_lem entries root =
    let pt : (t : ℕ) → check_pt entries t ≡ none = λ t.
      each_entry-passes _ 0 512
        λ i. check_entry-passes leaf_unaligned (λ _. none) (entries t i) (λ _. refl) in
    let pd : (t : ℕ) → check_pd entries t ≡ none = λ t.
      each_entry-passes _ 0 512
        λ i. check_entry-passes pd_unaligned (check_pt entries) (entries t i) pt in
    let pdpt : (t : ℕ) → check_pdpt entries t ≡ none = λ t.
      each_entry-passes _ 0 512
        λ i. check_entry-passes pdpt_unaligned (check_pd entries) (entries t i) pd in
    ap (λ r. if root == 0 then some root_null else r)
      (each_entry-passes _ 0 512
        λ i. check_entry-passes pml4_unaligned (check_pdpt entries) (entries root i) pdpt)

pub all_shared_if :
    (entries : ℕ → ℕ → ℕ) (kernel_root root i left : ℕ)
    → ((j : ℕ)
        → i ≤ j
        → j < i + left
        → (is_present (entries kernel_root j) ≡ true) × (entries root j ≡ entries kernel_root j))
    → all_shared entries kernel_root root i left ≡ true
unfolding all_shared
all_shared_if entries kernel_root root i zero all = refl
all_shared_if entries kernel_root root i (suc left) all =
    let (present, same) = all i (omega arith) (omega arith) in
    rw
      (
        present,
        same,
        eq→== (phys_addr (entries kernel_root i)) (phys_addr (entries kernel_root i)) refl,
      )
      (all_shared_if entries kernel_root root (suc i) left
        (λ j low high. all j (omega arith) (omega arith)))

-- Where every kernel slot of the kernel's root is present, the root that `AddressSpace::new` fills
-- in a frame of its own passes `shares_kernel_half`.
pub share_kernel-shares_kernel_half :
    (entries : ℕ → ℕ → ℕ) (kernel_root root : ℕ)
    → ¬ (root ≡ kernel_root)
    → ((j : ℕ) → kernel_pml4_start ≤ j → j < 512 → is_present (entries kernel_root j) ≡ true)
    → shares_kernel_half (share_kernel entries kernel_root root) kernel_root root ≡ true
unfolding shares_kernel_half share_kernel
share_kernel-shares_kernel_half entries kernel_root root ne all =
    all_shared_if (share_kernel entries kernel_root root) kernel_root root kernel_pml4_start 256
      λ j low high.
        (rw (kept j) (all j low (omega arith)), copied j low (omega arith) ∙ sym (kept j))
  where
    kept : (j : ℕ) → share_kernel entries kernel_root root kernel_root j ≡ entries kernel_root j
    kept j = if_false _ _ (ne→== root kernel_root ne)

    copied :
        (j : ℕ)
        → kernel_pml4_start ≤ j
        → j < 512
        → share_kernel entries kernel_root root root j ≡ entries kernel_root j
    copied j low high = ground (arith, ne)
