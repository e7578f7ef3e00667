-- ===== src/AddressSpace.antt =====
-- Address spaces: src/address_space.rs. A new space shares slot 0 and the upper half of its root
-- table with the kernel; the slots between are its own.
pub mod Isolation
pub mod Destroy
pub mod Emptied
pub mod Behind
pub mod Ownership
pub mod Slots
pub mod Outcome
pub mod Tests
use ventura_os.Base.{
  ℕ, Bool, true, false, not, ◌&&◌, ◌||◌, Option, none, some, ltb, leb, ◌==◌, if◌then◌else◌, add64,
}
use ventura_os.Pmm.{PhysPage, allocate_physical_page}
use ventura_os.Paging.{VirtAddr, PageTableFlags, kernel_pml4_start, pml4_index}
use ventura_os.Tables
use ventura_os.Tables.{Vm, MapError, UnmapError, zero_table}

pub data AddressSpaceError : Type 0 where
  root_page_allocation_failed : AddressSpaceError
  mapping_failed : MapError → AddressSpaceError
  unmapping_failed : UnmapError → AddressSpaceError
  invalid_virtual_address : AddressSpaceError

pub record AddressSpace : Type 0 where
  pub id : ℕ
  pub root_page : PhysPage
  pub owns_root : Bool

abbrev pub bootstrap : PhysPage → AddressSpace
bootstrap root = record { id = 0; root_page = root; owns_root = false }

-- The page tables and NEXT_ASID.
pub record Spaces : Type 0 where
  pub vm : Vm
  pub next_asid : ℕ

-- The new root at `t`: zeroed, then with the slots of the kernel's root that are shared.
unfoldable pub share_kernel : (ℕ → ℕ → ℕ) → ℕ → ℕ → ℕ → ℕ → ℕ
share_kernel entries kernel_root t u i =
    if t == u
    then (if (i == 0) || (leb kernel_pml4_start i && ltb i 512)
        then zero_table entries t kernel_root i
        else 0)
    else entries u i

-- `Result<AddressSpace, AddressSpaceError>`, beside the state.
pub data Made : Type 0 where
  ok : AddressSpace → Spaces → Made
  err : AddressSpaceError → Spaces → Made

unfoldable pub new : PhysPage → Spaces → Made
unfolding share_kernel
new kernel_root s =
    let (frame, pmm') = allocate_physical_page s.vm.pmm in
    let vm' = record s.vm { pmm = pmm' } in
    elim frame [
      | none ↦ err root_page_allocation_failed (record s { vm = vm' })
      | some root ↦
          ok (record { id = s.next_asid; root_page = root; owns_root = true })
            (record {
              vm = record vm' { entries = share_kernel s.vm.entries kernel_root root };
              next_asid = add64 s.next_asid 1;
            })
    ]

unfoldable pub is_private_addr : VirtAddr → Bool
is_private_addr virt = let slot = pml4_index virt in not (slot == 0) && ltb slot kernel_pml4_start

-- The error, if any, beside the state.
unfoldable pub map_page :
    VirtAddr → PhysPage → PageTableFlags → AddressSpace → Vm → Option AddressSpaceError × Vm
unfolding is_private_addr
map_page virt phys flags a s =
    if not (is_private_addr virt)
    then (some invalid_virtual_address, s)
    else elim (Tables.map_page a.root_page virt phys flags s) [
      | Tables.ok _ s' ↦ (none, s')
      | Tables.err e s' ↦ (some (mapping_failed e), s')
    ]

-- `Result<PhysPage, AddressSpaceError>`, beside the state.
pub data Removed : Type 0 where
  ok : PhysPage → Vm → Removed
  err : AddressSpaceError → Removed

unfoldable pub unmap_page : VirtAddr → AddressSpace → Vm → Removed
unfolding is_private_addr
unmap_page virt a s =
    if not (is_private_addr virt)
    then err invalid_virtual_address
    else elim (Tables.unmap_page a.root_page virt s) [
      | Tables.ok phys s' ↦ ok phys s'
      | Tables.err e ↦ err (unmapping_failed e)
    ]

abbrev pub translate : VirtAddr → AddressSpace → Vm → Option (PhysPage × PageTableFlags)
translate virt a s = Tables.translate a.root_page virt s
