-- ===== src/Tables/Unmap.antt =====
-- `unmap_page` of src/vmm.rs against the page walk of the processor.
use ventura_os.Base.{ℕ, ◌≡◌, true, false, none, some, [], ◌∷◌}
use ventura_os.Paging.{
  VirtAddr, is_canonical, is_aligned, pml4_index, pdpt_index, pd_index, pt_index, is_present,
  phys_addr,
}
use ventura_os.Tables.{
  Vm, Unmapped, ok, err, non_canonical, unaligned_virtual, not_mapped, parent_table_missing, write,
}
use ventura_os.Tables.Mmu.{mmu}
use ventura_os.Tables.Tree.{Trail, extend, Ghost, IsTree}
use ventura_os.Tables.Leaf.{leaf_of}
use ventura_os.Tables.Map.{IsRoot}
use ventura_os.Tables.Translate.{SmallPages}

-- What `unmap_page` promises.
pub data UnmapPage (owner : ℕ → ℕ → ℕ) (pos : Ghost) (root : ℕ) (virt : VirtAddr) (s : Vm)
    : Unmapped → Type 0 where
  bad_virtual : is_canonical virt ≡ false → UnmapPage owner pos root virt s (err non_canonical)
  bad_alignment : is_aligned virt ≡ false → UnmapPage owner pos root virt s (err unaligned_virtual)
  no_table :
      mmu s.entries root virt ≡ none → UnmapPage owner pos root virt s (err parent_table_missing)
  no_page : mmu s.entries root virt ≡ none → UnmapPage owner pos root virt s (err not_mapped)
  unmapped :
      {s' : Vm} (e : ℕ)
      → mmu s.entries root virt ≡ some (e, 0)
      → mmu s'.entries root virt ≡ none
      → ((r : ℕ) (v : VirtAddr)
          → IsRoot pos r
          → ¬ (leaf_of owner r v ≡ leaf_of owner root virt)
          → mmu s'.entries r v ≡ mmu s.entries r v)
      → IsTree owner pos s'
      → UnmapPage owner pos root virt s (ok (phys_addr e) s')

module _ (owner : ℕ → ℕ → ℕ) (pos : Ghost) (root : ℕ) (virt : VirtAddr) (s : Vm)
    (is : IsTree owner pos s) (at_root : IsRoot pos root)
    (small : SmallPages s.entries root virt) where
  abbrev pml4_e : ℕ
  pml4_e = s.entries root (pml4_index virt)

  abbrev pdpt_e : ℕ
  pdpt_e = s.entries (phys_addr pml4_e) (pdpt_index virt)

  abbrev pd_e : ℕ
  pd_e = s.entries (phys_addr pdpt_e) (pd_index virt)

  abbrev pt : ℕ
  pt = phys_addr pd_e

  abbrev Outcome : Unmapped → Type 0
  Outcome = UnmapPage owner pos root virt s

  module _ (a : is_present pml4_e ≡ true) (b : is_present pdpt_e ≡ true)
      (c : is_present pd_e ≡ true) where
    abbrev pdpt_trail : Trail
    pdpt_trail = extend owner (pml4_index virt) (root ∷ [])

    abbrev pd_trail : Trail
    pd_trail = extend owner (pdpt_index virt) pdpt_trail

    abbrev pt_trail : Trail
    pt_trail = extend owner (pd_index virt) pd_trail

    abbrev cleared : ℕ → ℕ → ℕ
    cleared = write s.entries pt (pt_index virt) 0
