-- ===== src/AddressSpace/Outcome.antt =====
-- What `destroy` of src/address_space.rs frees, on every branch.
use ventura_os.Base.{ℕ, ◌*◌, ◌<◌, ◌≡◌, ◌⊎◌, true, false, bit_and, not64}
use ventura_os.Memory.{page_size}
use ventura_os.Pmm.{Pmm}
use ventura_os.Pmm.Pages.{is_free}
use ventura_os.Tables.{Vm}
use ventura_os.Tables.Tree.{Ghost}
use ventura_os.AddressSpace.{AddressSpace}
use ventura_os.AddressSpace.Destroy.{Cpu}
use ventura_os.AddressSpace.Ownership.{Owned}
use ventura_os.AddressSpace.Emptied.{Freer}
use ventura_os.AddressSpace.Behind.{BehindRoot}

-- What `destroy` promises of an address space `a` in the state `s`.
pub data Destroyed (pos : Ghost) (kernel_root : ℕ) (a : AddressSpace) (cpu : Cpu) (s : Vm)
    : AddressSpace × Cpu × Vm → Type 0 where
  skipped :
      (a.owns_root ≡ false) ⊎ (a.root_page ≡ 0) → Destroyed pos kernel_root a cpu s (a, cpu, s)
  destroyed :
      {a' : AddressSpace} {cpu' : Cpu} {s' : Vm}
      → ((q : ℕ)
          → 0 < q
          → q < s.pmm.total_managed_pages
          → (q * page_size ≡ a.root_page) ⊎ BehindRoot s.entries a.root_page (q * page_size)
          → is_free s'.pmm.bitmap q ≡ true)
      → ((q : ℕ)
          → is_free s'.pmm.bitmap q ≡ true
          → is_free s.pmm.bitmap q ≡ false
          → Owned pos a.root_page (q * page_size))
      → Freer s.pmm s'.pmm
      → (a'.root_page ≡ 0) × (a'.owns_root ≡ false)
      → (kernel_root ≡ 0)
        ⊎ (cpu'.cr3 ≡ kernel_root)
        ⊎ ((cpu' ≡ cpu) × ¬ (bit_and cpu.cr3 (not64 0xFFF) ≡ a.root_page))
      → Destroyed pos kernel_root a cpu s (a', cpu', s')
