-- ===== src/AddressSpace/Destroy.antt =====
-- `activate`, `destroy` and `free_private_tables` of src/address_space.rs.
use ventura_os.Base.{
  ℕ, zero, suc, ◌+◌, ◌-◌, Bool, false, not, ◌&&◌, ◌||◌, ◌==◌, if◌then◌else◌, bit_and, not64,
}
use ventura_os.Base.Count.{count_below}
use ventura_os.Pmm.{Pmm, PhysPage, free_physical_page}
use ventura_os.Paging.{PageTableEntry, kernel_pml4_start, is_present, is_huge, phys_addr}
use ventura_os.Tables.{Vm, write}
use ventura_os.AddressSpace.{AddressSpace, bootstrap}

-- CR3 and CURRENT_ASID.
pub record Cpu : Type 0 where
  pub cr3 : ℕ
  pub current_asid : ℕ

unfoldable pub activate : AddressSpace → Cpu → Cpu
activate a cpu = if a.root_page == 0 then cpu else record {
  cr3 = if cpu.cr3 == a.root_page then cpu.cr3 else a.root_page;
  current_asid = a.id;
}

abbrev pub is_table : PageTableEntry → Bool
is_table e = is_present e && not (is_huge e)

-- The page allocator, with the tables freed and the leaf pages met so far.
pub record Tally : Type 0 where
  pub pmm : Pmm
  pub freed : ℕ
  pub leaves : ℕ

-- `leaves += e.is_present() as usize`
abbrev pub count_leaf : PageTableEntry → Tally → Tally
count_leaf e c = record c { leaves = c.leaves + (if is_present e then 1 else 0) }

-- `let _ = pmm::free_physical_page(...); freed += 1`
abbrev pub free_table : ℕ → Tally → Tally
free_table t c = record c { pmm = (free_physical_page t c.pmm).1; freed = c.freed + 1 }

-- A loop over the entries from `i` on, `left` of them.
unfoldable pub each_slot : (ℕ → Tally → Tally) → ℕ → ℕ → Tally → Tally
each_slot visit i zero c = c
each_slot visit i (suc left) c = each_slot visit (suc i) left (visit i c)

-- An entry that links no table is counted if it is present; the table behind another is freed.
abbrev pub visit_entry : (ℕ → Tally → Tally) → PageTableEntry → Tally → Tally
visit_entry free e c = if not (is_table e) then count_leaf e c else free (phys_addr e) c

abbrev pub free_pt : (ℕ → ℕ → ℕ) → ℕ → Tally → Tally
free_pt entries pt c =
    free_table pt
      (record c { leaves = c.leaves + count_below (λ i. is_present (entries pt i)) 512 })

-- The tables behind the entries of a page directory, and the directory.
unfoldable pub free_pd : (ℕ → ℕ → ℕ) → ℕ → Tally → Tally
unfolding each_slot
free_pd entries pd c =
    free_table pd (each_slot (λ i. visit_entry (free_pt entries) (entries pd i)) 0 512 c)

unfoldable pub free_pdpt : (ℕ → ℕ → ℕ) → ℕ → Tally → Tally
unfolding each_slot free_pd
free_pdpt entries pdpt c =
    free_table pdpt (each_slot (λ i. visit_entry (free_pd entries) (entries pdpt i)) 0 512 c)

-- The private slots of the root from `i` on, `left` of them.
unfoldable pub free_slots : PhysPage → ℕ → ℕ → (ℕ → ℕ → ℕ) → Tally → (ℕ → ℕ → ℕ) × Tally
unfolding free_pdpt
free_slots root i zero entries c = (entries, c)
free_slots root i (suc left) entries c =
    let e = entries root i in
    if not (is_present e)
    then free_slots root (suc i) left entries c
    else free_slots root (suc i) left (write entries root i 0) (free_pdpt entries (phys_addr e) c)

-- The memory and the counts.
unfoldable pub free_private_tables : PhysPage → Vm → Vm × Tally
unfolding free_slots
free_private_tables root s =
    let (entries', c) =
      free_slots root 1 (kernel_pml4_start - 1) s.entries
        (record { pmm = s.pmm; freed = 0; leaves = 0 }) in
    (record s { entries = entries'; pmm = c.pmm }, c)

unfoldable pub destroy : PhysPage → AddressSpace → Cpu → Vm → AddressSpace × Cpu × Vm
unfolding activate free_private_tables
destroy kernel_root a cpu s =
    if not a.owns_root || (a.root_page == 0)
    then (a, cpu, s)
    else (let current_cr3 = bit_and cpu.cr3 (not64 0xFFF) in
        let (s', c) = free_private_tables a.root_page s in
        (
          record a { root_page = 0; owns_root = false },
          if current_cr3 == a.root_page then activate (bootstrap kernel_root) cpu else cpu,
          record s' { pmm = (free_physical_page a.root_page s'.pmm).1 },
        ))
