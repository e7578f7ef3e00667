-- ===== src/AddressSpace/Ownership.antt =====
-- `destroy` of src/address_space.rs frees page tables of this address space and nothing else.
use ventura_os.Base.{
  ℕ, zero, suc, ◌+◌, ◌*◌, ◌<◌, ◌≤◌, ◌≡◌, refl, sym, ◌∙◌, ap, subst, true, false, not, ◌&&◌, ◌||◌,
  some, [], ◌∷◌, length, ◌==◌, if◌then◌else◌, if_true, if_false, arith, Bool-cases, inl, inr,
  ℕ_discrete, ne→==,
}
use mathlib.Core.Bool.{false≢true}
use ventura_os.Memory.{page_size}
use ventura_os.Pmm.{Pmm, PhysPage, FreeResult, free_physical_page}
use ventura_os.Pmm.Pages.{is_free, IsValid}
use ventura_os.Pmm.Free.{
  Freed, unaligned, page_zero, outside, already_free, given, free_physical_page-Freed,
}
use ventura_os.Paging.{is_present, is_huge, phys_addr, kernel_pml4_start}
use ventura_os.Paging.Entry.{is_present-zero}
use ventura_os.Tables.{Vm, write}
use ventura_os.Tables.Tree.{Trail, extend-long, Ghost, Children, IsTree}
use ventura_os.Tables.Map.{IsRoot}
use ventura_os.AddressSpace.{AddressSpace}
use ventura_os.AddressSpace.Isolation.{OwnsPrivate}
use ventura_os.AddressSpace.Destroy.{
  Cpu, is_table, Tally, each_slot, visit_entry, free_pt, free_pd, free_pdpt, free_slots,
  free_private_tables, destroy,
}

-- The owner at the end of a trail.
abbrev pub owner_of : Trail → ℕ
owner_of [] = 0
owner_of (x ∷ []) = x
owner_of (x ∷ y ∷ xs) = owner_of (y ∷ xs)

owner_of-cons : (i : ℕ) (p : Trail) → 0 < length p → owner_of (i ∷ p) ≡ owner_of p
owner_of-cons i [] h = absurd (omega (arith, h))
owner_of-cons i (x ∷ p) h = refl

-- A table of the address space with this root.
abbrev pub Owned : Ghost → ℕ → ℕ → Type 0
Owned pos root t = (p : Trail) × (pos t ≡ some p) × (owner_of p ≡ root)

-- No entry of a private slot is huge.
abbrev pub NoHugeSlot : (ℕ → ℕ → ℕ) → ℕ → Type 0
NoHugeSlot entries root = (i : ℕ) → is_huge (entries root i) ≡ false

module _ (owner : ℕ → ℕ → ℕ) (pos : Ghost) (root : ℕ) (s : Vm) where
  -- What has been freed since `s` are tables of this address space.
  record OnlyOwned (pmm : Pmm) : Type 0 where
    valid : IsValid pmm
    freed :
        (q : ℕ)
        → is_free pmm.bitmap q ≡ true
        → is_free s.pmm.bitmap q ≡ false
        → Owned pos root (q * page_size)

  free_physical_page-OnlyOwned :
      (t : ℕ) (pmm : Pmm)
      → Owned pos root t
      → OnlyOwned pmm
      → OnlyOwned (free_physical_page t pmm).1
  free_physical_page-OnlyOwned t pmm ours w = by_result (free_physical_page-Freed pmm w.valid t)
    where
      by_result : {r : FreeResult × Pmm} → Freed pmm t r → OnlyOwned r.1
      by_result (unaligned h) = w
      by_result (page_zero h) = w
      by_result (outside a b c) = w
      by_result (already_free p e lt free) = w
      by_result (given p e pos_p lt used changed a b c d valid) = record {
        valid = valid;
        freed = λ q free before. elim (ℕ_discrete p q) [
          | yes same ↦ subst (Owned pos root) (e ∙ ap (λ x. x * page_size) same) ours
          | no ne ↦ w.freed q (sym (changed q ∙ if_false _ _ (ne→== p q ne)) ∙ free) before
        ];
      }

  each_slot-OnlyOwned :
      (visit : ℕ → Tally → Tally) (i left : ℕ) (c : Tally)
      → ((j : ℕ) (d : Tally) → OnlyOwned d.pmm → OnlyOwned (visit j d).pmm)
      → OnlyOwned c.pmm
      → OnlyOwned (each_slot visit i left c).pmm
  unfolding each_slot
  each_slot-OnlyOwned visit i zero c keeps w = w
  each_slot-OnlyOwned visit i (suc left) c keeps w =
      each_slot-OnlyOwned visit (suc i) left (visit i c) keeps (keeps i c w)

  -- The table behind an entry that links one.
  child-Owned :
      (entries : ℕ → ℕ → ℕ) (t i : ℕ) (p : Trail)
      → Children owner pos entries
      → pos t ≡ some p
      → owner_of p ≡ root
      → 1 < length p
      → length p < 4
      → is_table (entries t i) ≡ true
      → (pos (phys_addr (entries t i)) ≡ some (i ∷ p)) × (owner_of (i ∷ p) ≡ root)
  child-Owned entries t i p children at own low high table = (
    children t p i at (omega (arith, low)) high (ground (arith, table)) (ground (arith, table))
        ∙ ap (λ q. some q) (extend-long owner i p low),
    owner_of-cons i p (omega (arith, low)) ∙ own,
  )

  visit_entry-OnlyOwned :
      (free : ℕ → Tally → Tally) (entries : ℕ → ℕ → ℕ) (t i : ℕ) (p : Trail) (c : Tally)
      → Children owner pos entries
      → pos t ≡ some p
      → owner_of p ≡ root
      → 1 < length p
      → length p < 4
      → ((u : ℕ) → pos u ≡ some (i ∷ p) → owner_of (i ∷ p) ≡ root → OnlyOwned (free u c).pmm)
      → OnlyOwned c.pmm
      → OnlyOwned (visit_entry free (entries t i) c).pmm
  visit_entry-OnlyOwned free entries t i p c children at own low high frees w =
      elim (Bool-cases (is_table (entries t i))) [
        | inr leaf ↦ rw (if_true _ _ (ap not leaf)) w
        | inl table ↦
            let (at', own') = child-Owned entries t i p children at own low high table in
            rw (if_false _ _ (ap not table)) (frees (phys_addr (entries t i)) at' own')
      ]

  free_pd-OnlyOwned :
      (entries : ℕ → ℕ → ℕ) (t : ℕ) (p : Trail) (c : Tally)
      → Children owner pos entries
      → pos t ≡ some p
      → owner_of p ≡ root
      → length p ≡ 3
      → OnlyOwned c.pmm
      → OnlyOwned (free_pd entries t c).pmm
  unfolding free_pd
  free_pd-OnlyOwned entries t p c children at own len w =
      free_physical_page-OnlyOwned t _ (p, at, own)
        (each_slot-OnlyOwned (λ i. visit_entry (free_pt entries) (entries t i)) 0 512 c
          (λ j d w'.
            visit_entry-OnlyOwned (free_pt entries) entries t j p d children at own
              (omega (arith, len)) (omega (arith, len))
              (λ u at' own'. free_physical_page-OnlyOwned u d.pmm (j ∷ p, at', own') w') w')
          w)

  free_pdpt-OnlyOwned :
      (entries : ℕ → ℕ → ℕ) (t : ℕ) (p : Trail) (c : Tally)
      → Children owner pos entries
      → pos t ≡ some p
      → owner_of p ≡ root
      → length p ≡ 2
      → OnlyOwned c.pmm
      → OnlyOwned (free_pdpt entries t c).pmm
  unfolding free_pdpt
  free_pdpt-OnlyOwned entries t p c children at own len w =
      free_physical_page-OnlyOwned t _ (p, at, own)
        (each_slot-OnlyOwned (λ i. visit_entry (free_pd entries) (entries t i)) 0 512 c
          (λ j d w'.
            visit_entry-OnlyOwned (free_pd entries) entries t j p d children at own
              (omega (arith, len)) (omega (arith, len))
              (λ u at' own'.
                free_pd-OnlyOwned entries u (j ∷ p) d children at' own' (omega (arith, len)) w')
              w')
          w)

  -- Clearing an entry breaks no link.
  pub Children-clear :
      (entries : ℕ → ℕ → ℕ) (t i : ℕ)
      → Children owner pos entries
      → Children owner pos (write entries t i 0)
  Children-clear entries t i children u p j at low high present table =
      elim (Bool-cases ((t == u) && (i == j))) [
        | inl here ↦
            let zero_entry : write entries t i 0 u j ≡ 0 = ground (arith, here) in
            absurd (false≢true (sym is_present-zero ∙ ap is_present (sym zero_entry) ∙ present))
        | inr elsewhere ↦
            let same : write entries t i 0 u j ≡ entries u j = ground (arith, elsewhere) in
            rw same (children u p j at low high (rw same at present) (rw same at table))
      ]

  pub NoHugeSlot-clear :
      (entries : ℕ → ℕ → ℕ) (t i : ℕ)
      → NoHugeSlot entries root
      → NoHugeSlot (write entries t i 0) root
  unfolding is_huge
  NoHugeSlot-clear entries t i none_huge j = elim (Bool-cases ((t == root) && (i == j))) [
    | inl here ↦
        let zero_entry : write entries t i 0 root j ≡ 0 = ground (arith, here) in
        ap is_huge zero_entry ∙ refl
    | inr elsewhere ↦
        let same : write entries t i 0 root j ≡ entries root j = ground (arith, elsewhere) in
        ap is_huge same ∙ none_huge j
  ]

  free_slots-OnlyOwned :
      (i left : ℕ) (entries : ℕ → ℕ → ℕ) (c : Tally)
      → IsRoot pos root
      → OwnsPrivate owner root
      → 0 < i
      → i + left ≤ kernel_pml4_start
      → Children owner pos entries
      → NoHugeSlot entries root
      → OnlyOwned c.pmm
      → OnlyOwned (free_slots root i left entries c).1.pmm
  unfolding free_slots
  free_slots-OnlyOwned i zero entries c at own pos_i le children none_huge w = w
  free_slots-OnlyOwned i (suc left) entries c at own pos_i le children none_huge w =
      elim (Bool-cases (is_present (entries root i))) [
        | inr absent ↦
            let skips : free_slots root i (suc left) entries c
                ≡ free_slots root (suc i) left entries c =
              if_true _ _ (ap not absent) in
            subst (λ r. OnlyOwned r.1.pmm) (sym skips)
              (free_slots-OnlyOwned (suc i) left entries c at own (omega arith) (omega (arith, le))
                children none_huge w)
        | inl present ↦
            let link : pos (phys_addr (entries root i)) ≡ some (i ∷ owner root i ∷ []) =
              children root (root ∷ []) i at (omega arith) (omega arith) present (none_huge i) in
            let frees : free_slots root i (suc left) entries c
                ≡ free_slots root (suc i) left (write entries root i 0)
                    (free_pdpt entries (phys_addr (entries root i)) c) =
              if_false _ _ (ap not present) in
            subst (λ r. OnlyOwned r.1.pmm) (sym frees)
              (free_slots-OnlyOwned (suc i) left (write entries root i 0) _ at own (omega arith)
                (omega (arith, le)) (Children-clear entries root i children)
                (NoHugeSlot-clear entries root i none_huge)
                (free_pdpt-OnlyOwned entries (phys_addr (entries root i)) (i ∷ owner root i ∷ []) c
                  children link (own i pos_i (omega (arith, le))) refl w))
      ]

  free_private_tables-OnlyOwned :
      IsTree owner pos s
      → IsRoot pos root
      → OwnsPrivate owner root
      → NoHugeSlot s.entries root
      → OnlyOwned (free_private_tables root s).0.pmm
  unfolding free_private_tables
  free_private_tables-OnlyOwned tree at own none_huge =
      free_slots-OnlyOwned 1 255 s.entries (record { pmm = s.pmm; freed = 0; leaves = 0 }) at own
        (omega arith) (omega arith) tree.child none_huge
        (record { valid = tree.pmm_valid; freed = λ x f b. absurd (false≢true (sym b ∙ f)) })

-- The page allocator that `destroy` leaves.
pub destroy-pmm :
    (kernel_root : PhysPage) (a : AddressSpace) (cpu : Cpu) (s : Vm)
    → (destroy kernel_root a cpu s).2.pmm ≡ (
        if not a.owns_root || (a.root_page == 0)
        then s.pmm
        else (free_physical_page a.root_page (free_private_tables a.root_page s).0.pmm).1)
unfolding destroy
destroy-pmm kernel_root a cpu s = elim (Bool-cases (not a.owns_root || (a.root_page == 0))) [
  | inl skipped ↦
      ap (λ (r : AddressSpace × Cpu × Vm). r.2.pmm) (if_true _ _ skipped)
      ∙ sym (if_true _ _ skipped)
  | inr runs ↦
      ap (λ (r : AddressSpace × Cpu × Vm). r.2.pmm) (if_false _ _ runs) ∙ sym (if_false _ _ runs)
]

-- Destroying an address space that owns its private slots, over a valid tree and with no huge entry
-- in its root, frees only page tables of this address space: a page that was in use and is free
-- afterwards held one. Leaf pages and the tables of the kernel and of other spaces stay in use.
pub destroy_owned :
    (owner : ℕ → ℕ → ℕ) (pos : Ghost) (kernel_root : PhysPage) (a : AddressSpace) (cpu : Cpu)
    (s : Vm) (q : ℕ)
    → IsTree owner pos s
    → IsRoot pos a.root_page
    → OwnsPrivate owner a.root_page
    → NoHugeSlot s.entries a.root_page
    → is_free (destroy kernel_root a cpu s).2.pmm.bitmap q ≡ true
    → is_free s.pmm.bitmap q ≡ false
    → Owned pos a.root_page (q * page_size)
destroy_owned owner pos kernel_root a cpu s q tree at own none_huge free before =
    let ended : Pmm =
      (free_physical_page a.root_page (free_private_tables a.root_page s).0.pmm).1 in
    elim (Bool-cases (not a.owns_root || (a.root_page == 0))) [
      | inl skipped ↦
          let same : (destroy kernel_root a cpu s).2.pmm ≡ s.pmm =
            destroy-pmm kernel_root a cpu s ∙ if_true _ _ skipped in
          absurd (false≢true (sym before ∙ ap (λ m. is_free m.bitmap q) (sym same) ∙ free))
      | inr runs ↦
          let same : (destroy kernel_root a cpu s).2.pmm ≡ ended =
            destroy-pmm kernel_root a cpu s ∙ if_false _ _ runs in
          let all : OnlyOwned owner pos a.root_page s ended =
            free_physical_page-OnlyOwned owner pos a.root_page s a.root_page _
              (a.root_page ∷ [], at, refl)
              (free_private_tables-OnlyOwned owner pos a.root_page s tree at own none_huge) in
          all.freed q (ap (λ m. is_free m.bitmap q) (sym same) ∙ free) before
    ]
