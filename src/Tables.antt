-- ===== src/Tables.antt =====
-- Page tables: `get_or_create_table`, `map_page`, `map_2mb_huge_page`, `unmap_page` and `translate`
-- of src/vmm.rs, with the bootstrap pool. A table is named by its physical address; `entries` reads
-- physical memory as tables, so `entries t i` is the 64-bit word at `t + 8 * i`.
pub mod Tests
pub mod Mmu
pub mod Tree
pub mod Create
pub mod Link
pub mod Leaf
pub mod Chain
pub mod Map
pub mod Translate
pub mod Unmap
use ventura_os.Base.{
  ℕ, zero, suc, ◌+◌, ◌-◌, ◌*◌, ◌/◌, ◌%◌, ◌^◌, Bool, true, false, not, Option, none, some, leb, ◌==◌,
  if◌then◌else◌, update, bit_and, bit_or, not64,
}
use ventura_os.Memory.{page_size}
use ventura_os.Pmm.{Pmm, PhysPage, allocate_physical_page}
use ventura_os.Paging.{
  VirtAddr, PageTableFlags, is_canonical, is_aligned, pml4_index, pdpt_index, pd_index, pt_index,
  page_offset, is_present, is_huge, phys_addr, set_entry, flags_of, present_flag, writable_flag,
  huge_page_flag,
}

pub data MapError : Type 0 where
  non_canonical unaligned_virtual unaligned_physical frame_allocation_failed already_mapped :
      MapError

pub data UnmapError : Type 0 where
  non_canonical unaligned_virtual not_mapped parent_table_missing : UnmapError

abbrev pub bootstrap_table_count : ℕ
bootstrap_table_count = 512

-- The tables in physical memory, the page allocator behind them, and the statics BOOTSTRAP_POOL
-- (its address), BOOTSTRAP_INDEX and IS_BOOTSTRAPPING.
pub record Vm : Type 0 where
  pub entries : ℕ → ℕ → ℕ
  pub pmm : Pmm
  pub pool_base : ℕ
  pub bootstrap_index : ℕ
  pub is_bootstrapping : Bool

-- `Result<A, MapError>` and `Result<A, UnmapError>`, beside the state.
pub data Mapped (A : Type 0) : Type 0 where
  ok : A → Vm → Mapped A
  err : MapError → Vm → Mapped A

pub data Unmapped : Type 0 where
  ok : PhysPage → Vm → Unmapped
  err : UnmapError → Unmapped

infixl 5 ◌>>=◌
abbrev pub ◌>>=◌ : {A B : Type 0} → Mapped A → (A → Vm → Mapped B) → Mapped B
ok a s >>= f = f a s
err e s >>= f = err e s

abbrev pub write : (ℕ → ℕ → ℕ) → ℕ → ℕ → ℕ → ℕ → ℕ → ℕ
write entries t i e u j = if t == u then (if i == j then e else entries u j) else entries u j

abbrev pub zero_table : (ℕ → ℕ → ℕ) → ℕ → ℕ → ℕ → ℕ
zero_table entries t u j = if t == u then 0 else entries u j

unfoldable pub allocate_bootstrap_table : Vm → Option PhysPage × Vm
allocate_bootstrap_table s =
    if leb bootstrap_table_count s.bootstrap_index
    then (none, s)
    else (let table = s.pool_base + s.bootstrap_index * page_size in
        (
          some table,
          record s {
            entries = zero_table s.entries table;
            bootstrap_index = s.bootstrap_index + 1;
          },
        ))

-- A frame for a table: from the pool while bootstrapping, else from the page allocator.
unfoldable pub allocate_table : Vm → Option PhysPage × Vm
unfolding allocate_bootstrap_table
allocate_table s =
    if s.is_bootstrapping
    then allocate_bootstrap_table s
    else (let (frame, pmm') = allocate_physical_page s.pmm in (frame, record s { pmm = pmm' }))

-- `entry` is entry `i` of the table at `t`.
unfoldable pub get_or_create_table : ℕ → ℕ → Vm → Mapped ℕ
unfolding allocate_table
get_or_create_table t i s =
    if is_present (s.entries t i)
    then (if is_huge (s.entries t i)
        then err already_mapped s
        else ok (phys_addr (s.entries t i)) s)
    else (let (frame, s') = allocate_table s in
        elim frame [
          | none ↦ err frame_allocation_failed s'
          | some f ↦ ok f (record s' {
            entries =
                write (zero_table s'.entries f) t i
                  (set_entry f (bit_or present_flag writable_flag));
          })
        ])

-- The last step of `map_page`, at the leaf entry.
unfoldable pub set_leaf : ℕ → ℕ → PhysPage → PageTableFlags → Vm → Mapped (Unit {0})
set_leaf t i phys flags s =
    if is_present (s.entries t i)
    then err already_mapped s
    else ok tt (record s { entries = write s.entries t i (set_entry phys flags) })

unfoldable pub map_page : ℕ → VirtAddr → PhysPage → PageTableFlags → Vm → Mapped (Unit {0})
unfolding get_or_create_table set_leaf
map_page root virt phys flags s =
    if not (is_canonical virt)
    then err non_canonical s
    else if not (is_aligned virt)
    then err unaligned_virtual s
    else if not ((phys % page_size) == 0)
    then err unaligned_physical s
    else (get_or_create_table root (pml4_index virt) s >>= λ pdpt s1.
        get_or_create_table pdpt (pdpt_index virt) s1 >>= λ pd s2.
        get_or_create_table pd (pd_index virt) s2 >>= λ pt s3.
        set_leaf pt (pt_index virt) phys flags s3)

unfoldable pub map_2mb_huge_page : ℕ → VirtAddr → PhysPage → PageTableFlags → Vm → Mapped (Unit {0})
unfolding get_or_create_table
map_2mb_huge_page root virt phys flags s =
    if not (is_canonical virt)
    then err non_canonical s
    else (get_or_create_table root (pml4_index virt) s >>= λ pdpt s1.
        get_or_create_table pdpt (pdpt_index virt) s1 >>= λ pd s2. ok tt (record s2 {
          entries =
              write s2.entries pd (pd_index virt)
                (set_entry (bit_and phys (not64 0x1F_FFFF)) (bit_or flags huge_page_flag));
        }))

-- The table that the three upper levels lead to; no level is checked for a huge page.
unfoldable pub leaf_table : (ℕ → ℕ → ℕ) → ℕ → VirtAddr → Option ℕ
leaf_table entries root virt =
    let pml4_entry = entries root (pml4_index virt) in
    let pdpt_entry = entries (phys_addr pml4_entry) (pdpt_index virt) in
    let pd_entry = entries (phys_addr pdpt_entry) (pd_index virt) in
    if not (is_present pml4_entry)
    then none
    else if not (is_present pdpt_entry)
    then none
    else if not (is_present pd_entry)
    then none
    else some (phys_addr pd_entry)

unfoldable pub unmap_page : ℕ → VirtAddr → Vm → Unmapped
unfolding leaf_table
unmap_page root virt s =
    if not (is_canonical virt)
    then err non_canonical
    else if not (is_aligned virt)
    then err unaligned_virtual
    else elim (leaf_table s.entries root virt) [
      | none ↦ err parent_table_missing
      | some pt ↦
          if not (is_present (s.entries pt (pt_index virt)))
          then err not_mapped
          else ok (phys_addr (s.entries pt (pt_index virt)))
              (record s { entries = write s.entries pt (pt_index virt) 0 })
    ]

unfoldable pub translate : ℕ → VirtAddr → Vm → Option (PhysPage × PageTableFlags)
unfolding leaf_table
translate root virt s =
    if not (is_canonical virt) then none else elim (leaf_table s.entries root virt) [
      | none ↦ none
      | some pt ↦
          let pt_entry = s.entries pt (pt_index virt) in
          if not (is_present pt_entry)
          then none
          else some ((phys_addr pt_entry + page_offset virt) % 2 ^ 64, flags_of pt_entry)
    ]

-- `verify_null_page_unmapped`
unfoldable pub verify_null_page_unmapped : ℕ → Vm → Bool
unfolding translate
verify_null_page_unmapped root s = elim (translate root 0 s) [ none ↦ true | some _ ↦ false ]
