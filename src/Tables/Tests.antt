-- ===== src/Tables/Tests.antt =====
-- The page tables of src/vmm.rs: an empty root table in the bootstrap pool, and a tiny tree.
use ventura_os.Base.{Bool, ℕ, ◌≡◌, refl, true, false, none, some, [], ◌∷◌, ◌==◌, if◌then◌else◌}
use ventura_os.Memory.{new_map}
use ventura_os.Pmm
use ventura_os.Pmm.Pages.{is_free}
use ventura_os.Pmm.Init.{init-is_free}
use ventura_os.Pmm.Release.{usable_page}
use ventura_os.Pmm.Tests.{blank}
use ventura_os.Paging.{is_canonical, is_present, is_huge, phys_addr, to_page_flags, kernel_data}
use ventura_os.Tables.{Vm, map_page, translate, verify_null_page_unmapped}
use ventura_os.Tables.{Mapped, ok, err}
use ventura_os.Tables.Map.{IsRoot}
use ventura_os.Tables.Mmu.{mmu, Links}
use ventura_os.Tables.Tree.{Ghost, IsTree}
use ventura_os.Tables.Translate.{located, SmallPages, translate-mmu, verify_null_page_unmapped-huge}

abbrev pub base : ℕ
base = 0x10_0000

abbrev pub boot : Vm
boot = record {
  entries = λ _ _. 0;
  pmm = Pmm.init new_map blank;
  pool_base = base;
  bootstrap_index = 1;
  is_bootstrapping = true;
}

abbrev boot_trails : Ghost
boot_trails t = if t == base then some (base ∷ []) else none

abbrev pub own_slots : ℕ → ℕ → ℕ
own_slots r i = r

pub none_free : (q : ℕ) → is_free boot.pmm.bitmap q ≡ false
unfolding usable_page
none_free q = init-is_free new_map blank q

-- A root at 0x1000 with tables at 0x2000 and 0x3000, whose entry 0 is a 2 MB page at 0.
abbrev huge_zero : Vm
huge_zero = record boot {
  entries = λ t i.
      if t == 0x1000
      then (if i == 0 then 0x2003 else 0)
      else if t == 0x2000
      then (if i == 0 then 0x3003 else 0)
      else if t == 0x3000
      then (if i == 0 then 0x83 else 0)
      else 0;
}

upper_link : Links huge_zero.entries 0x1000 0 0x2000
unfolding is_present is_huge phys_addr
upper_link = record { present = refl; table = refl; leads = refl }

lower_link : Links huge_zero.entries 0x2000 0 0x3000
unfolding is_present is_huge phys_addr
lower_link = record { present = refl; table = refl; leads = refl }

huge_present : is_present 0x83 ≡ true
unfolding is_present
huge_present = refl

huge_huge : is_huge 0x83 ≡ true
unfolding is_huge
huge_huge = refl

word_absent : is_present (huge_zero.entries (phys_addr 0x83) 0) ≡ false
unfolding is_present phys_addr
word_absent = refl

verify_null_page_unmapped-huge_example :
    (verify_null_page_unmapped 0x1000 huge_zero ≡ true)
    × (mmu huge_zero.entries 0x1000 0 ≡ some (0x83, 1))
verify_null_page_unmapped-huge_example =
    verify_null_page_unmapped-huge 0x1000 0x2000 0x3000 huge_zero upper_link lower_link huge_present
      huge_huge word_absent

-- Four tables of which the last has entry 5 for the frame 0x9000.
abbrev small_tree : Vm
small_tree = record boot {
  entries = λ t i.
      if t == 0x1000
      then 0x2003
      else if t == 0x2000
      then 0x3003
      else if t == 0x3000
      then 0x4003
      else if t == 0x4000
      then (if i == 5 then 0x9003 else 0)
      else 0;
}

small_tree-SmallPages : SmallPages small_tree.entries 0x1000 0x5123
unfolding is_huge phys_addr
small_tree-SmallPages = record { at_pml4 = refl; at_pdpt = refl; at_pd = refl }

canonical_small : is_canonical 0x5123 ≡ true
unfolding is_canonical
canonical_small = refl

translate-mmu_example :
    translate 0x1000 0x5123 small_tree ≡ located 0x5123 (mmu small_tree.entries 0x1000 0x5123)
translate-mmu_example = translate-mmu 0x1000 0x5123 small_tree canonical_small small_tree-SmallPages

-- The tables after a page has been mapped.
abbrev state_of : Mapped (Unit {0}) → Vm
state_of (ok _ s') = s'
state_of (err _ s') = s'

abbrev is_ok : Mapped (Unit {0}) → Bool
is_ok (ok _ s') = true
is_ok (err _ s') = false

abbrev after_map : Mapped (Unit {0})
after_map = map_page base 0x40_0000 0x5000 (to_page_flags kernel_data) boot

abbrev TreeAfter : Mapped (Unit {0}) → Type 0
TreeAfter m = (pos : Ghost) × IsTree own_slots pos (state_of m) × IsRoot pos base
