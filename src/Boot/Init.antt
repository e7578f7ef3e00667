-- ===== src/Boot/Init.antt =====
-- `init` of src/vmm.rs ends with a valid tree of page tables whose kernel half is complete.
use ventura_os.Base.{
  ℕ, ◌≡◌, ◌<◌, refl, sym, ap, subst, Bool, true, false, Option, none, some, if◌then◌else◌, arith,
}
use ventura_os.Memory.{PhysicalMemoryMap}
use ventura_os.Pmm.{PhysPage}
use ventura_os.Paging.{kernel_pml4_start}
use ventura_os.Tables.{Vm, bootstrap_table_count, allocate_bootstrap_table}
use ventura_os.Tables.Tree.{IsTree, pool_table}
use ventura_os.Mapping.{Kernel}
use ventura_os.Console.{FramebufferInfo}
use ventura_os.Boot.{create_kernel_half, identity_maps, Booted, booted, halted, init}
use ventura_os.Boot.Check.{shares_kernel_half}
use ventura_os.Boot.Verify.{all_shared_if}
use ventura_os.Boot.Tree.{Rooted}
use ventura_os.Boot.Maps.{Running, identity_maps-Running}
use ventura_os.Boot.KernelHalf.{
  Half, HalfResult, IsTree-flag, Stuck, complete, create_kernel_half-HalfResult, incomplete,
  root_table-Rooted,
}

-- How `init` ends: with a valid tree under the root in CR3 that shares the kernel half with itself,
-- so has all of it; or with a halt.
pub data BootResult (owner : ℕ → ℕ → ℕ) : Booted → Type 0 where
  up :
      {k : Kernel}
      → Rooted owner k.root k.vm
      → shares_kernel_half k.vm.entries k.root k.root ≡ true
      → BootResult owner (booted k k.root)
  stopped :
      {k : Kernel} → Rooted owner k.root k.vm → Stuck k.root k.vm → BootResult owner (halted k)

Rooted-flag :
    (owner : ℕ → ℕ → ℕ) (root : ℕ) (s : Vm) (b : Bool)
    → Rooted owner root s
    → Rooted owner root (record s { is_bootstrapping = b })
Rooted-flag owner root s b w = record {
  pos = w.pos;
  tree = IsTree-flag owner w.pos s b w.tree;
  at = w.at;
}

Half-shares :
    (entries : ℕ → ℕ → ℕ) (root : ℕ)
    → Half entries root 512
    → shares_kernel_half entries root root ≡ true
unfolding shares_kernel_half
Half-shares entries root half =
    all_shared_if entries root root kernel_pml4_start 256
      λ j low high. (half j low (omega (arith, high)), refl)

-- The end of `init`, once the identity maps stand.
last_step :
    (owner : ℕ → ℕ → ℕ) (k : Kernel) (root : ℕ)
    → k.root ≡ root
    → (r : Bool × Vm) → HalfResult owner root r
    → BootResult owner
        (if r.0 then booted (record k { vm = r.1 }) root else halted (record k { vm = r.1 }))
last_step owner k root same _ (complete {s' = s'} w half) =
    subst
      (λ r.
        Rooted owner r s'
        → Half s'.entries r 512
        → BootResult owner (booted (record k { vm = s' }) r))
      same (λ w' half'. up w' (Half-shares s'.entries k.root half')) w half
last_step owner k root same _ (incomplete {s' = s'} w stuck_at) =
    stopped (subst (λ r. Rooted owner r s') (sym same) w)
      (subst (λ r. Stuck r s') (sym same) stuck_at)

-- Started without tables and with a table left in the bootstrap pool, `init` ends, whatever the
-- memory map and the devices: it sets CR3 to the root of a valid tree of page tables in which
-- every entry of the kernel half is present, or it halts because no page is free or the root holds
-- a huge entry, and the tables are a valid tree then too.
pub init-BootResult :
    (owner : ℕ → ℕ → ℕ) (map : PhysicalMemoryMap) (lapic ioapic : ℕ) (fb : Option FramebufferInfo)
    (k : Kernel)
    → IsTree owner (λ _. none) k.vm
    → k.vm.bootstrap_index < bootstrap_table_count
    → BootResult owner (init map lapic ioapic fb k)
unfolding init
init-BootResult owner map lapic ioapic fb k is room =
    let vm0 : Vm = record k.vm { is_bootstrapping = true } in
    let root : ℕ = pool_table k.vm k.vm.bootstrap_index in
    let (first, rooted) =
      root_table-Rooted owner vm0 (IsTree-flag owner (λ _. none) k.vm true is) room in
    let vm1 : Vm = (allocate_bootstrap_table vm0).1 in
    let k2 : Kernel = identity_maps map lapic ioapic fb (record k { vm = vm1; root = root }) in
    let mapped : Running owner root k2 =
      identity_maps-Running owner root map lapic ioapic fb (record k { vm = vm1; root = root })
        (record { root_page = refl; tables = rooted }) in
    let s3 : Vm = record k2.vm { is_bootstrapping = false } in
    let half : HalfResult owner root (create_kernel_half 256 kernel_pml4_start root s3) =
      create_kernel_half-HalfResult owner root 256 kernel_pml4_start s3
        (Rooted-flag owner root k2.vm false mapped.tables) refl refl
        (λ j low high. absurd (omega (arith, low, high))) in
    let after : Option PhysPage → Booted = λ o. elim o [
      | none ↦ halted (record k { vm = vm1 })
      | some r ↦
          let k' = identity_maps map lapic ioapic fb (record k { vm = vm1; root = r }) in
          let (all_there, vm3) =
            create_kernel_half 256 kernel_pml4_start r
              (record k'.vm { is_bootstrapping = false }) in
          if all_there then booted (record k' { vm = vm3 }) r else halted (record k' { vm = vm3 })
    ] in
    subst (BootResult owner) (sym (ap after first)) (
      last_step owner k2 root mapped.root_page (create_kernel_half 256 kernel_pml4_start root s3)
        half)
