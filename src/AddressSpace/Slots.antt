-- ===== src/AddressSpace/Slots.antt =====
-- The private slots that `free_private_tables` of src/address_space.rs goes through: every table behind one of them is freed.
use ventura_os.Base.{
  ℕ, zero, suc, ◌+◌, ◌*◌, ◌<◌, ◌≤◌, ◌≡◌, sym, ◌∙◌, ap, subst, true, not, some, [], ◌∷◌, if_true,
  if_false, arith, Bool-cases, inl, inr, ℕ_discrete,
}
use mathlib.Core.Bool.{false≢true}
use ventura_os.Memory.{page_size}
use ventura_os.Pmm.Pages.{is_free, IsValid}
use ventura_os.Paging.{is_present, phys_addr, kernel_pml4_start}
use ventura_os.Tables.{Vm, write}
use ventura_os.Tables.Tree.{Trail, Ghost, Children}
use ventura_os.Tables.Map.{IsRoot}
use ventura_os.AddressSpace.Destroy.{is_table, Tally, free_pdpt, free_slots}
use ventura_os.AddressSpace.Ownership.{NoHugeSlot, Children-clear, NoHugeSlot-clear}
use ventura_os.AddressSpace.Emptied.{Freer, Freer-refl, Freer-trans}
use ventura_os.AddressSpace.Behind.{BehindPd, BehindPdpt, free_pdpt-OnlyFrees, free_pdpt-Frees}

pub free_slots-Freer :
    (root i left : ℕ) (entries : ℕ → ℕ → ℕ) (c : Tally)
    → IsValid c.pmm
    → Freer c.pmm (free_slots root i left entries c).1.pmm
unfolding free_slots
free_slots-Freer root i zero entries c v = Freer-refl c.pmm v
free_slots-Freer root i (suc left) entries c v = elim (Bool-cases (is_present (entries root i))) [
  | inr absent ↦
      let skips : free_slots root i (suc left) entries c ≡ free_slots root (suc i) left entries c =
        if_true _ _ (ap not absent) in
      subst (λ (r : (ℕ → ℕ → ℕ) × Tally). Freer c.pmm r.1.pmm) (sym skips)
        (free_slots-Freer root (suc i) left entries c v)
  | inl present ↦
      let pdpt : ℕ = phys_addr (entries root i) in
      let frees : free_slots root i (suc left) entries c
          ≡ free_slots root (suc i) left (write entries root i 0) (free_pdpt entries pdpt c) =
        if_false _ _ (ap not present) in
      let one = free_pdpt-OnlyFrees entries pdpt c v in
      subst (λ (r : (ℕ → ℕ → ℕ) × Tally). Freer c.pmm r.1.pmm) (sym frees)
        (Freer-trans one (free_slots-Freer root (suc i) left _ _ one.valid))
]

-- Clearing an entry of the root changes no table behind it.
module _ (entries : ℕ → ℕ → ℕ) (root i : ℕ) where
  write-other : (u k : ℕ) → ¬ (root ≡ u) → write entries root i 0 u k ≡ entries u k
  write-other u k ne = ground arith

  BehindPd-write :
      (pd t : ℕ) → ¬ (root ≡ pd) → BehindPd entries pd t → BehindPd (write entries root i 0) pd t
  BehindPd-write pd t ne (inl here) = inl here
  BehindPd-write pd t ne (inr (k, low, table, at)) =
      let e = write-other pd k ne in inr (k, low, ap is_table e ∙ table, at ∙ ap phys_addr (sym e))

  BehindPdpt-write :
      (pdpt t : ℕ)
      → ¬ (root ≡ pdpt)
      → ((k : ℕ) → is_table (entries pdpt k) ≡ true → ¬ (root ≡ phys_addr (entries pdpt k)))
      → BehindPdpt entries pdpt t
      → BehindPdpt (write entries root i 0) pdpt t
  BehindPdpt-write pdpt t ne each (inl here) = inl here
  BehindPdpt-write pdpt t ne each (inr (k, low, table, behind)) =
      let e = write-other pdpt k ne in
      inr (
        k,
        low,
        ap is_table e ∙ table,
        subst (λ u. BehindPd (write entries root i 0) u t) (ap phys_addr (sym e))
            (BehindPd-write (phys_addr (entries pdpt k)) t (each k table) behind),
      )

module _ (owner : ℕ → ℕ → ℕ) (pos : Ghost) (root : ℕ) (s : Vm) (at : IsRoot pos root) (n q : ℕ)
    (pos_q : 0 < q) (lt_q : q < n) where
  -- The root has the shortest trail.
  root_ne : (t a b : ℕ) (p : Trail) → pos t ≡ some (a ∷ b ∷ p) → ¬ (root ≡ t)
  root_ne t a b p long same = absurd (cc (sym at ∙ ap pos same ∙ long))

  -- The slots from `i` on still link what they linked when slot `i` has been cleared.
  behind_later :
      (i j : ℕ) (entries : ℕ → ℕ → ℕ)
      → Children owner pos entries
      → NoHugeSlot entries root
      → ¬ (i ≡ j)
      → is_present (entries root j) ≡ true
      → BehindPdpt entries (phys_addr (entries root j)) (q * page_size)
      → (is_present (write entries root i 0 root j) ≡ true)
        × BehindPdpt
            (write entries root i 0)
            (phys_addr (write entries root i 0 root j))
            (q * page_size)
  behind_later i j entries children none_huge ne present behind =
      let pdpt : ℕ = phys_addr (entries root j) in
      let e : write entries root i 0 root j ≡ entries root j = ground (arith, ne) in
      let link : pos pdpt ≡ some (j ∷ owner root j ∷ []) =
        children root (root ∷ []) j at (omega arith) (omega arith) present (none_huge j) in
      (
        ap is_present e ∙ present,
        subst (λ u. BehindPdpt (write entries root i 0) u (q * page_size)) (ap phys_addr (sym e))
            (BehindPdpt-write entries root i pdpt (q * page_size) (root_ne pdpt _ _ [] link)
              (λ k table. root_ne (phys_addr (entries pdpt k)) _ _ _ (
                children pdpt _ k link (omega arith) (omega arith) (ground (arith, table))
                  (ground (arith, table))))
              behind),
      )

  pub free_slots-frees :
      (i left j : ℕ) (entries : ℕ → ℕ → ℕ) (c : Tally)
      → 0 < i
      → i + left ≤ kernel_pml4_start
      → Children owner pos entries
      → NoHugeSlot entries root
      → IsValid c.pmm
      → c.pmm.total_managed_pages ≡ n
      → i ≤ j
      → j < i + left
      → is_present (entries root j) ≡ true
      → BehindPdpt entries (phys_addr (entries root j)) (q * page_size)
      → is_free (free_slots root i left entries c).1.pmm.bitmap q ≡ true
  unfolding free_slots
  free_slots-frees i zero j entries c pos_i le children none_huge v total low high present behind =
      absurd (omega (arith, low, high))
  free_slots-frees i (suc left) j entries c pos_i le children none_huge v total low high present
        behind =
      elim (Bool-cases (is_present (entries root i))) [
        | inr absent ↦
            let skips : free_slots root i (suc left) entries c
                ≡ free_slots root (suc i) left entries c =
              if_true _ _ (ap not absent) in
            let later : ¬ (i ≡ j) =
              λ e. false≢true (sym absent ∙ ap (λ k. is_present (entries root k)) e ∙ present) in
            subst (λ (r : (ℕ → ℕ → ℕ) × Tally). is_free r.1.pmm.bitmap q ≡ true) (sym skips)
              (free_slots-frees (suc i) left j entries c (omega arith) (omega (arith, le)) children
                none_huge v total (omega (arith, low, later)) (omega (arith, high)) present behind)
        | inl here ↦
            let pdpt : ℕ = phys_addr (entries root i) in
            let frees : free_slots root i (suc left) entries c
                ≡ free_slots root (suc i) left (write entries root i 0) (free_pdpt entries pdpt c) =
              if_false _ _ (ap not here) in
            let one = free_pdpt-OnlyFrees entries pdpt c v in
            subst (λ (r : (ℕ → ℕ → ℕ) × Tally). is_free r.1.pmm.bitmap q ≡ true) (sym frees)
              (elim (ℕ_discrete i j) [
                | yes same ↦
                    (free_slots-Freer root (suc i) left (write entries root i 0) _ one.valid).more q
                      (free_pdpt-Frees entries n q pos_q lt_q pdpt
                        (subst
                          (λ k. BehindPdpt entries (phys_addr (entries root k)) (q * page_size))
                          (sym same) behind)
                        c v total)
                | no ne ↦
                    let kept = behind_later i j entries children none_huge ne present behind in
                    free_slots-frees (suc i) left j (write entries root i 0)
                      (free_pdpt entries pdpt c) (omega arith) (omega (arith, le))
                      (Children-clear owner pos root s entries root i children)
                      (NoHugeSlot-clear owner pos root s entries root i none_huge) one.valid
                      (one.total ∙ total) (omega (arith, low, ne)) (omega (arith, high)) kept.0
                      kept.1
              ])
      ]
