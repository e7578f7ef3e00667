-- ===== src/AddressSpace/Isolation.antt =====
-- Mapping in one address space of src/address_space.rs does not show in another.
use ventura_os.Base.{
  ℕ, ◌<◌, ◌≡◌, refl, sym, ◌∙◌, ap, true, Option, none, some, [], ◌∷◌, arith, Bool-cases, inl, inr,
}
use ventura_os.Pmm.{PhysPage}
use ventura_os.Paging.{VirtAddr, PageTableFlags, kernel_pml4_start, pml4_index, is_present}
use ventura_os.Tables
use ventura_os.Tables.{Vm, Mapped}
use ventura_os.Tables.Mmu.{mmu, indices}
use ventura_os.Tables.Tree.{Trail, Ghost, IsTree}
use ventura_os.Tables.Create.{Grows}
use ventura_os.Tables.Leaf.{leaf_of}
use ventura_os.Tables.Map.{
  IsRoot, MapPage, bad_virtual, bad_alignment, bad_physical, taken, no_frame, mapped,
  map_page-MapPage,
}
use ventura_os.AddressSpace.{
  AddressSpace, is_private_addr, map_page, invalid_virtual_address, AddressSpaceError,
  mapping_failed,
}

-- A root's private slots are its own.
abbrev pub OwnsPrivate : (ℕ → ℕ → ℕ) → ℕ → Type 0
OwnsPrivate owner root = (slot : ℕ) → 0 < slot → slot < kernel_pml4_start → owner root slot ≡ root

-- The owner at the end of a leaf's trail.
last : Trail → ℕ
last [] = 0
last (x ∷ []) = x
last (x ∷ y ∷ xs) = last (y ∷ xs)

last-leaf_of :
    (owner : ℕ → ℕ → ℕ) (r : ℕ) (v : VirtAddr) → last (leaf_of owner r v) ≡ owner r (pml4_index v)
unfolding last
last-leaf_of owner r v = refl

-- The state that a call leaves, with an error or without.
abbrev state_of : Mapped (Unit {0}) → Vm
state_of (Tables.ok _ s') = s'
state_of (Tables.err _ s') = s'

module _ (owner : ℕ → ℕ → ℕ) (pos : Ghost) (root : ℕ) (virt : VirtAddr) (phys : PhysPage)
    (flags : PageTableFlags) (s : Vm) (r : ℕ) (w : VirtAddr) (is_root : IsRoot pos r)
    (differ : ¬ (leaf_of owner r w ≡ leaf_of owner root virt)) where
  grown :
      {pos' : Ghost} {s' : Vm} → Grows owner pos pos' s s' → mmu s'.entries r w ≡ mmu s.entries r w
  grown g = unfold mmu in g.walks r (r ∷ []) (indices w) is_root (omega arith) refl

  unseen :
      {m : Mapped (Unit {0})}
      → MapPage owner pos root virt phys flags s m
      → mmu (state_of m).entries r w ≡ mmu s.entries r w
  unseen (bad_virtual h) = refl
  unseen (bad_alignment h) = refl
  unseen (bad_physical h) = refl
  unseen (taken pos' e at g) = grown g
  unseen (no_frame pos' at g) = grown g
  unseen (mapped pos' before after others tree trails) = others r w is_root differ

state-map_page :
    (virt : VirtAddr) (phys : PhysPage) (flags : PageTableFlags) (a : AddressSpace) (s : Vm)
    → is_private_addr virt ≡ true
    → (map_page virt phys flags a s).1 ≡ state_of (Tables.map_page a.root_page virt phys flags s)
unfolding map_page
state-map_page virt phys flags a s private =
    rw private (by_result (Tables.map_page a.root_page virt phys flags s))
  where
    by_result :
        (m : Mapped (Unit {0}))
        → (elim m as (λ _. Option AddressSpaceError × Vm) [
          | Tables.ok _ s' ↦ (none, s')
          | Tables.err e s' ↦ (some (mapping_failed e), s')
        ]).1
          ≡ state_of m
    by_result (Tables.ok _ s') = refl
    by_result (Tables.err e s') = refl

-- Over a valid tree in which an address space owns its private slots, and with flags that say
-- present, `AddressSpace::map_page`, whether it succeeds or fails, changes nothing of what the processor finds under any root at any
-- address whose slot does not belong to this address space: other address spaces and the shared
-- kernel part see no difference.
pub map_page-isolated :
    (owner : ℕ → ℕ → ℕ) (pos : Ghost) (a : AddressSpace) (virt : VirtAddr) (phys : PhysPage)
    (flags : PageTableFlags) (s : Vm) (r : ℕ) (w : VirtAddr)
    → IsTree owner pos s
    → IsRoot pos a.root_page
    → OwnsPrivate owner a.root_page
    → is_present flags ≡ true
    → IsRoot pos r
    → ¬ (owner r (pml4_index w) ≡ a.root_page)
    → mmu (map_page virt phys flags a s).1.entries r w ≡ mmu s.entries r w
map_page-isolated owner pos a virt phys flags s r w tree at_root own present is_root foreign =
    elim (Bool-cases (is_private_addr virt)) [
      | inr shared ↦
          let e : map_page virt phys flags a s ≡ (some invalid_virtual_address, s) =
            unfold map_page in rw shared refl in
          rw e refl
      | inl private ↦ rw (state-map_page virt phys flags a s private) (
          unseen owner pos a.root_page virt phys flags s r w is_root (differ private)
            (map_page-MapPage owner pos a.root_page virt phys flags s tree at_root present))
    ]
  where
    slot :
        is_private_addr virt ≡ true → (0 < pml4_index virt) × (pml4_index virt < kernel_pml4_start)
    slot private = unfold is_private_addr in ground arith

    differ : is_private_addr virt ≡ true → ¬ (leaf_of owner r w ≡ leaf_of owner a.root_page virt)
    differ private e = foreign (
        sym (last-leaf_of owner r w)
        ∙ ap last e
        ∙ last-leaf_of owner a.root_page virt
        ∙ own (pml4_index virt) (slot private).0 (slot private).1)
