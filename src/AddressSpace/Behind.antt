-- ===== src/AddressSpace/Behind.antt =====
-- What `free_private_tables` of src/address_space.rs frees behind an entry, level by level.
use ventura_os.Base.{ℕ, ◌*◌, ◌<◌, ◌≡◌, ◌⊎◌, ◌∙◌, subst, true, arith, inl, inr}
use ventura_os.Memory.{page_size}
use ventura_os.Pmm.{Pmm, free_physical_page}
use ventura_os.Pmm.Pages.{is_free, IsValid}
use ventura_os.Paging.{is_present, phys_addr, kernel_pml4_start}
use ventura_os.AddressSpace.Destroy.{
  is_table, Tally, each_slot, visit_entry, free_pt, free_pd, free_pdpt,
}
use ventura_os.AddressSpace.Emptied.{
  Freer, Freer-trans, Frees, OnlyFrees, each_slot-Frees, each_slot-OnlyFrees,
  free_physical_page-Freer, free_physical_page-frees, visit_entry-Frees, visit_entry-OnlyFrees,
}

-- The table at `t`, or one behind an entry of the page directory at `t`.
abbrev pub BehindPd : (ℕ → ℕ → ℕ) → ℕ → ℕ → Type 0
BehindPd entries pd t =
    (t ≡ pd)
    ⊎ ((k : ℕ) × (k < 512) × (is_table (entries pd k) ≡ true) × (t ≡ phys_addr (entries pd k)))

-- The same for a page directory pointer table.
abbrev pub BehindPdpt : (ℕ → ℕ → ℕ) → ℕ → ℕ → Type 0
BehindPdpt entries pdpt t =
    (t ≡ pdpt)
    ⊎ ((k : ℕ) × (k < 512)
        × (is_table (entries pdpt k) ≡ true)
        × BehindPd entries (phys_addr (entries pdpt k)) t)

-- A table behind a private slot of the root.
abbrev pub BehindRoot : (ℕ → ℕ → ℕ) → ℕ → ℕ → Type 0
BehindRoot entries root t =
    (j : ℕ) × (0 < j)
    × (j < kernel_pml4_start)
    × (is_present (entries root j) ≡ true)
    × BehindPdpt entries (phys_addr (entries root j)) t

module _ (entries : ℕ → ℕ → ℕ) where
  free_pt-OnlyFrees : (t : ℕ) → OnlyFrees (free_pt entries t)
  free_pt-OnlyFrees t c v = free_physical_page-Freer t c.pmm v

  free_pd-OnlyFrees : (t : ℕ) → OnlyFrees (free_pd entries t)
  unfolding free_pd
  free_pd-OnlyFrees t c v =
      let loop =
        each_slot-OnlyFrees (λ i. visit_entry (free_pt entries) (entries t i)) 0 512
          (λ j. visit_entry-OnlyFrees (free_pt entries) (entries t j) free_pt-OnlyFrees) c v in
      Freer-trans loop (free_physical_page-Freer t _ loop.valid)

  pub free_pdpt-OnlyFrees : (t : ℕ) → OnlyFrees (free_pdpt entries t)
  unfolding free_pdpt
  free_pdpt-OnlyFrees t c v =
      let loop =
        each_slot-OnlyFrees (λ i. visit_entry (free_pd entries) (entries t i)) 0 512
          (λ j. visit_entry-OnlyFrees (free_pd entries) (entries t j) free_pd-OnlyFrees) c v in
      Freer-trans loop (free_physical_page-Freer t _ loop.valid)

  module _ (n q : ℕ) (pos : 0 < q) (lt : q < n) where
    -- Giving back the page itself frees it, at the end of each pass.
    last_frees :
        (t : ℕ) (pmm : Pmm)
        → q * page_size ≡ t
        → IsValid pmm
        → pmm.total_managed_pages ≡ n
        → is_free (free_physical_page t pmm).1.bitmap q ≡ true
    last_frees t pmm at v total =
        subst (λ x. is_free (free_physical_page x pmm).1.bitmap q ≡ true) at
          (free_physical_page-frees q pmm v pos (omega (arith, total, lt)))

    free_pt-Frees : (t : ℕ) → q * page_size ≡ t → Frees n q (free_pt entries t)
    free_pt-Frees t at c v total = last_frees t c.pmm at v total

    free_pd-Frees : (t : ℕ) → BehindPd entries t (q * page_size) → Frees n q (free_pd entries t)
    unfolding free_pd
    free_pd-Frees t behind c v total = by_place behind
      where
        visit : ℕ → Tally → Tally
        visit i = visit_entry (free_pt entries) (entries t i)

        keeps : (j : ℕ) → OnlyFrees (visit j)
        keeps j = visit_entry-OnlyFrees (free_pt entries) (entries t j) free_pt-OnlyFrees

        loop : Freer c.pmm (each_slot visit 0 512 c).pmm
        loop = each_slot-OnlyFrees visit 0 512 keeps c v

        by_place :
            BehindPd entries t (q * page_size) → is_free (free_pd entries t c).pmm.bitmap q ≡ true
        by_place (inl here) = last_frees t _ here loop.valid (loop.total ∙ total)
        by_place (inr (k, low, table, at)) = (free_physical_page-Freer t _ loop.valid).more q (
            each_slot-Frees visit n q 0 512 k keeps (omega arith) (omega (arith, low))
              (visit_entry-Frees (free_pt entries) (entries t k) n q table
                (free_pt-Frees (phys_addr (entries t k)) at))
              c v total)

    pub free_pdpt-Frees :
        (t : ℕ) → BehindPdpt entries t (q * page_size) → Frees n q (free_pdpt entries t)
    unfolding free_pdpt
    free_pdpt-Frees t behind c v total = by_place behind
      where
        visit : ℕ → Tally → Tally
        visit i = visit_entry (free_pd entries) (entries t i)

        keeps : (j : ℕ) → OnlyFrees (visit j)
        keeps j = visit_entry-OnlyFrees (free_pd entries) (entries t j) free_pd-OnlyFrees

        loop : Freer c.pmm (each_slot visit 0 512 c).pmm
        loop = each_slot-OnlyFrees visit 0 512 keeps c v

        by_place :
            BehindPdpt entries t (q * page_size)
            → is_free (free_pdpt entries t c).pmm.bitmap q ≡ true
        by_place (inl here) = last_frees t _ here loop.valid (loop.total ∙ total)
        by_place (inr (k, low, table, behind')) = (free_physical_page-Freer t _ loop.valid).more q (
            each_slot-Frees visit n q 0 512 k keeps (omega arith) (omega (arith, low))
              (visit_entry-Frees (free_pd entries) (entries t k) n q table
                (free_pd-Frees (phys_addr (entries t k)) behind'))
              c v total)
