-- ===== src/Tables/Translate.antt =====
-- `translate` and `verify_null_page_unmapped` of src/vmm.rs against the page walk of the processor.
use ventura_os.Base.{
  ℕ, ◌+◌, ◌%◌, ◌^◌, ◌≡◌, refl, true, false, Option, none, some, arith, Bool-cases, inl, inr,
}
use ventura_os.Paging.{
  VirtAddr, is_canonical, pml4_index, pdpt_index, pd_index, pt_index, page_offset, is_present,
  is_huge, phys_addr, flags_of,
}
use ventura_os.Paging.Addr.{page_offset_lem}
use ventura_os.Paging.Entry.{phys_addr_bounds}
use ventura_os.Tables.{Vm, leaf_table, translate, verify_null_page_unmapped}
use ventura_os.Tables.Mmu.{walk, mmu, target, Links}

-- What the processor makes of an address: where it lies, with the entry's flags.
abbrev pub located : VirtAddr → Option (ℕ × ℕ) → Option (ℕ × ℕ)
located v none = none
located v (some (e, n)) = some (target v (e, n), flags_of e)

-- No upper entry on the way to the address is a huge page.
pub record SmallPages (entries : ℕ → ℕ → ℕ) (root : ℕ) (v : VirtAddr) : Type 0 where
  pub at_pml4 : is_huge (entries root (pml4_index v)) ≡ false
  pub at_pdpt : is_huge (entries (phys_addr (entries root (pml4_index v))) (pdpt_index v)) ≡ false
  pub at_pd :
      is_huge (
        entries
          (phys_addr (entries (phys_addr (entries root (pml4_index v))) (pdpt_index v)))
          (pd_index v))
      ≡ false

target-small : (v : VirtAddr) (e : ℕ) → target v (e, 0) ≡ (phys_addr e + page_offset v) % 2 ^ 64
target-small v e = omega (arith, page_offset_lem v, phys_addr_bounds e)

module _ (root : ℕ) (v : VirtAddr) (s : Vm) (canonical : is_canonical v ≡ true)
    (small : SmallPages s.entries root v) where
  abbrev pml4_e : ℕ
  pml4_e = s.entries root (pml4_index v)

  abbrev pdpt_e : ℕ
  pdpt_e = s.entries (phys_addr pml4_e) (pdpt_index v)

  abbrev pd_e : ℕ
  pd_e = s.entries (phys_addr pdpt_e) (pd_index v)

  abbrev pt_e : ℕ
  pt_e = s.entries (phys_addr pd_e) (pt_index v)

  translate-steps : translate root v s ≡ located v (mmu s.entries root v)
  unfolding translate leaf_table mmu walk
  translate-steps = elim (Bool-cases (is_present pml4_e)) [
    | inr a ↦ rw (canonical, a) refl
    | inl a ↦ elim (Bool-cases (is_present pdpt_e)) [
      | inr b ↦ rw (canonical, a, small.at_pml4, b) refl
      | inl b ↦ elim (Bool-cases (is_present pd_e)) [
        | inr c ↦ rw (canonical, a, small.at_pml4, b, small.at_pdpt, c) refl
        | inl c ↦ elim (Bool-cases (is_present pt_e)) [
          | inr d ↦ rw (canonical, a, small.at_pml4, b, small.at_pdpt, c, small.at_pd, d) refl
          | inl d ↦
              rw
                (
                  canonical,
                  a,
                  small.at_pml4,
                  b,
                  small.at_pdpt,
                  c,
                  small.at_pd,
                  d,
                  target-small v pt_e,
                )
                refl
        ]
      ]
    ]
  ]

-- Where no huge page lies on the way to a canonical address, `translate` returns the physical
-- address and flags that the processor finds, and nothing exactly if the processor finds nothing.
pub translate-mmu :
    (root : ℕ) (v : VirtAddr) (s : Vm)
    → is_canonical v ≡ true
    → SmallPages s.entries root v
    → translate root v s ≡ located v (mmu s.entries root v)
translate-mmu root v s canonical small = translate-steps root v s canonical small

-- The walks to a canonical address whose indices are all 0.
module _ (root pdpt pd : ℕ) (s : Vm) (l : Links s.entries root 0 pdpt)
    (m : Links s.entries pdpt 0 pd) (present : is_present (s.entries pd 0) ≡ true) (v : VirtAddr)
    (z4 : pml4_index v ≡ 0) (z3 : pdpt_index v ≡ 0) (z2 : pd_index v ≡ 0)
    (z1 : pt_index v ≡ 0) where
  translate-none :
      is_canonical v ≡ true
      → is_present (s.entries (phys_addr (s.entries pd 0)) 0) ≡ false
      → translate root v s ≡ none
  unfolding translate leaf_table
  translate-none c word =
      rw (c, z4, z3, z2, l.leads, l.present, m.leads, m.present, present, z1, word) refl

  mmu-huge : is_huge (s.entries pd 0) ≡ true → mmu s.entries root v ≡ some (s.entries pd 0, 1)
  unfolding mmu walk
  mmu-huge huge =
      rw (z4, z3, z2, l.present, l.table, l.leads, m.present, m.table, m.leads, present, huge) refl

-- Where a 2 MB page maps address 0, the processor translates address 0, yet
-- `verify_null_page_unmapped` says that it is unmapped whenever the first word of the page itself
-- does not look like a present entry.
pub verify_null_page_unmapped-huge :
    (root pdpt pd : ℕ) (s : Vm)
    → Links s.entries root 0 pdpt
    → Links s.entries pdpt 0 pd
    → is_present (s.entries pd 0) ≡ true
    → is_huge (s.entries pd 0) ≡ true
    → is_present (s.entries (phys_addr (s.entries pd 0)) 0) ≡ false
    → (verify_null_page_unmapped root s ≡ true) × (mmu s.entries root 0 ≡ some (s.entries pd 0, 1))
unfolding verify_null_page_unmapped
verify_null_page_unmapped-huge root pdpt pd s l m present huge word =
    let c : is_canonical 0 ≡ true = unfold is_canonical in refl in
    let z4 : pml4_index 0 ≡ 0 = unfold pml4_index in refl in
    let z3 : pdpt_index 0 ≡ 0 = unfold pdpt_index in refl in
    let z2 : pd_index 0 ≡ 0 = unfold pd_index in refl in
    let z1 : pt_index 0 ≡ 0 = unfold pt_index in refl in
    (
      rw (translate-none root pdpt pd s l m present 0 z4 z3 z2 z1 c word, verify_null_page_unmapped)
          refl,
      mmu-huge root pdpt pd s l m present 0 z4 z3 z2 z1 huge,
    )
