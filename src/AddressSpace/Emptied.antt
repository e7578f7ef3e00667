-- ===== src/AddressSpace/Emptied.antt =====
-- `destroy` of src/address_space.rs gives back the root and every page table behind its private
-- slots.
use ventura_os.Base.{
  ℕ, zero, suc, ◌+◌, ◌*◌, ◌<◌, ◌≤◌, ◌≡◌, refl, sym, ◌∙◌, ap, subst, true, not, if_true, if_false,
  arith, Bool-cases, inl, inr, ℕ_discrete, ne→==, eq→==,
}
use ventura_os.Memory.{page_size}
use ventura_os.Pmm.{Pmm, FreeResult, free_physical_page}
use ventura_os.Pmm.Pages.{is_free, IsValid}
use ventura_os.Pmm.Free.{
  Freed, unaligned, page_zero, outside, already_free, given, free_physical_page-Freed,
}
use ventura_os.Paging.{phys_addr}
use ventura_os.AddressSpace.Destroy.{is_table, Tally, each_slot, visit_entry}

-- More pages are free, of the same number of pages.
pub record Freer (pmm pmm' : Pmm) : Type 0 where
  pub valid : IsValid pmm'
  pub total : pmm'.total_managed_pages ≡ pmm.total_managed_pages
  pub more : (q : ℕ) → is_free pmm.bitmap q ≡ true → is_free pmm'.bitmap q ≡ true

pub Freer-refl : (pmm : Pmm) → IsValid pmm → Freer pmm pmm
Freer-refl pmm v = record { valid = v; total = refl; more = λ q free. free }

pub Freer-trans : {a b c : Pmm} → Freer a b → Freer b c → Freer a c
Freer-trans f g = record {
  valid = g.valid;
  total = g.total ∙ f.total;
  more = λ q free. g.more q (f.more q free);
}

pub free_physical_page-Freer :
    (t : ℕ) (pmm : Pmm) → IsValid pmm → Freer pmm (free_physical_page t pmm).1
free_physical_page-Freer t pmm v = by_result (free_physical_page-Freed pmm v t)
  where
    by_result : {r : FreeResult × Pmm} → Freed pmm t r → Freer pmm r.1
    by_result (unaligned h) = Freer-refl pmm v
    by_result (page_zero h) = Freer-refl pmm v
    by_result (outside a b c) = Freer-refl pmm v
    by_result (already_free p e lt free) = Freer-refl pmm v
    by_result (given p e pos lt used changed a b total d valid) = record {
      valid = valid;
      total = total;
      more = λ q free. elim (ℕ_discrete p q) [
        | yes same ↦ changed q ∙ if_true _ _ (eq→== p q same)
        | no ne ↦ changed q ∙ if_false _ _ (ne→== p q ne) ∙ free
      ];
    }

-- A page of the allocator other than page 0 is free once it has been given back.
pub free_physical_page-frees :
    (q : ℕ) (pmm : Pmm)
    → IsValid pmm
    → 0 < q
    → q < pmm.total_managed_pages
    → is_free (free_physical_page (q * page_size) pmm).1.bitmap q ≡ true
free_physical_page-frees q pmm v pos lt = by_result (free_physical_page-Freed pmm v (q * page_size))
  where
    by_result : {r : FreeResult × Pmm} → Freed pmm (q * page_size) r → is_free r.1.bitmap q ≡ true
    by_result (unaligned h) = absurd (h (omega arith))
    by_result (page_zero h) = absurd (omega (arith, h, pos))
    by_result (outside a b c) = absurd (omega (arith, c, lt))
    by_result (already_free p e lt_p free) =
        let same : p ≡ q = omega (arith, e) in subst (λ x. is_free pmm.bitmap x ≡ true) same free
    by_result (given p e pos_p lt_p used changed a b c d valid) =
        let same : p ≡ q = omega (arith, e) in changed q ∙ if_true _ _ (eq→== p q same)

-- A pass that only frees, started on a valid allocator.
abbrev pub OnlyFrees : (Tally → Tally) → Type 0
OnlyFrees f = (c : Tally) → IsValid c.pmm → Freer c.pmm (f c).pmm

-- A pass after which page `q` is free, whatever was free before, if the allocator has the page.
abbrev pub Frees : ℕ → ℕ → (Tally → Tally) → Type 0
Frees n q f =
    (c : Tally) → IsValid c.pmm → c.pmm.total_managed_pages ≡ n → is_free (f c).pmm.bitmap q ≡ true

pub each_slot-OnlyFrees :
    (visit : ℕ → Tally → Tally) (i left : ℕ)
    → ((j : ℕ) → OnlyFrees (visit j))
    → OnlyFrees (each_slot visit i left)
unfolding each_slot
each_slot-OnlyFrees visit i zero keeps c v = Freer-refl c.pmm v
each_slot-OnlyFrees visit i (suc left) keeps c v =
    let one = keeps i c v in
    Freer-trans one (each_slot-OnlyFrees visit (suc i) left keeps (visit i c) one.valid)

-- What one slot frees the loop frees.
pub each_slot-Frees :
    (visit : ℕ → Tally → Tally) (n q i left j : ℕ)
    → ((j : ℕ) → OnlyFrees (visit j))
    → i ≤ j
    → j < i + left
    → Frees n q (visit j)
    → Frees n q (each_slot visit i left)
unfolding each_slot
each_slot-Frees visit n q i zero j keeps low high frees c v total =
    absurd (omega (arith, low, high))
each_slot-Frees visit n q i (suc left) j keeps low high frees c v total =
    let one = keeps i c v in
    elim (ℕ_discrete j i) [
      | yes same ↦
          (each_slot-OnlyFrees visit (suc i) left keeps (visit i c) one.valid).more q
            (subst (λ k. is_free (visit k c).pmm.bitmap q ≡ true) same (frees c v total))
      | no ne ↦
          each_slot-Frees visit n q (suc i) left j keeps (omega (arith, low, ne))
            (omega (arith, high)) frees (visit i c) one.valid (one.total ∙ total)
    ]

pub visit_entry-OnlyFrees :
    (free : ℕ → Tally → Tally) (e : ℕ)
    → ((t : ℕ) → OnlyFrees (free t))
    → OnlyFrees (visit_entry free e)
visit_entry-OnlyFrees free e keeps c v = elim (Bool-cases (is_table e)) [
  | inr leaf ↦
      subst (λ (d : Tally). Freer c.pmm d.pmm) (sym (if_true _ _ (ap not leaf)))
        (Freer-refl c.pmm v)
  | inl table ↦
      subst (λ (d : Tally). Freer c.pmm d.pmm) (sym (if_false _ _ (ap not table)))
        (keeps (phys_addr e) c v)
]

pub visit_entry-Frees :
    (free : ℕ → Tally → Tally) (e n q : ℕ)
    → is_table e ≡ true
    → Frees n q (free (phys_addr e))
    → Frees n q (visit_entry free e)
visit_entry-Frees free e n q table frees c v total =
    subst (λ (d : Tally). is_free d.pmm.bitmap q ≡ true) (sym (if_false _ _ (ap not table)))
      (frees c v total)
