-- ===== src/Paging.antt =====
-- Addresses, permissions, flags and page-table entries: the first part of src/vmm.rs. A 64-bit
-- word is a number, so `VirtAddr`, `PageTableFlags` and `PageTableEntry` are numbers too.
pub mod Tests
pub mod Addr
pub mod Entry
use ventura_os.Base.{
  ℕ, ◌+◌, ◌-◌, ◌*◌, ◌/◌, ◌%◌, ◌^◌, Bool, true, false, not, ◌||◌, ltb, leb, ◌==◌, if◌then◌else◌,
  add64, bit_and, bit_or, ◌&&◌,
}
use ventura_os.Memory.{page_size}

abbrev pub kernel_pml4_start : ℕ
kernel_pml4_start = 256

abbrev pub dynamic_virt_start : ℕ
dynamic_virt_start = 0xFFFF_8000_0000_0000

abbrev pub dynamic_virt_end : ℕ
dynamic_virt_end = 0xFFFF_FF80_0000_0000

abbrev pub max_virt_regions : ℕ
max_virt_regions = 256

-- `((addr as i64) >> k) as i64`, as the bit pattern of the result.
abbrev pub arithmetic_shr : ℕ → ℕ → ℕ
arithmetic_shr addr k =
    if ltb addr (2 ^ 63) then addr / 2 ^ k else addr / 2 ^ k + (2 ^ 64 - 2 ^ (64 - k))

-- `sign_ext == 0 || sign_ext == -1`
unfoldable pub is_canonical : ℕ → Bool
is_canonical addr =
    let sign_ext = arithmetic_shr addr 47 in (sign_ext == 0) || (sign_ext == 2 ^ 64 - 1)

unfoldable pub canonical_virt : ℕ → ℕ
canonical_virt phys =
    if not (bit_and phys (2 ^ 47) == 0)
    then bit_or phys 0xFFFF_0000_0000_0000
    else bit_and phys 0x0000_FFFF_FFFF_FFFF

abbrev pub VirtAddr : Type 0
VirtAddr = ℕ

unfoldable pub is_aligned : VirtAddr → Bool
is_aligned virt = (virt % page_size) == 0

unfoldable pub pml4_index : VirtAddr → ℕ
pml4_index virt = bit_and (virt / 2 ^ 39) 0x1FF

unfoldable pub pdpt_index : VirtAddr → ℕ
pdpt_index virt = bit_and (virt / 2 ^ 30) 0x1FF

unfoldable pub pd_index : VirtAddr → ℕ
pd_index virt = bit_and (virt / 2 ^ 21) 0x1FF

unfoldable pub pt_index : VirtAddr → ℕ
pt_index virt = bit_and (virt / 2 ^ 12) 0x1FF

unfoldable pub page_offset : VirtAddr → ℕ
page_offset virt = bit_and virt 0xFFF

pub record VirtPermissions : Type 0 where
  pub readable : Bool
  pub writable : Bool
  pub executable : Bool
  pub user : Bool

abbrev pub kernel_code : VirtPermissions
kernel_code = record { readable = true; writable = false; executable = true; user = false }

abbrev pub kernel_data : VirtPermissions
kernel_data = record { readable = true; writable = true; executable = false; user = false }

abbrev pub kernel_rodata : VirtPermissions
kernel_rodata = record { readable = true; writable = false; executable = false; user = false }

abbrev pub mmio : VirtPermissions
mmio = record { readable = true; writable = true; executable = false; user = false }

abbrev pub PageTableFlags : Type 0
PageTableFlags = ℕ

abbrev pub present_flag : PageTableFlags
present_flag = 2 ^ 0

abbrev pub writable_flag : PageTableFlags
writable_flag = 2 ^ 1

abbrev pub user_accessible_flag : PageTableFlags
user_accessible_flag = 2 ^ 2

abbrev pub write_through_flag : PageTableFlags
write_through_flag = 2 ^ 3

abbrev pub no_cache_flag : PageTableFlags
no_cache_flag = 2 ^ 4

abbrev pub huge_page_flag : PageTableFlags
huge_page_flag = 2 ^ 7

abbrev pub no_execute_flag : PageTableFlags
no_execute_flag = 2 ^ 63

abbrev pub mmio_flags : PageTableFlags
mmio_flags =
    bit_or (bit_or (bit_or (bit_or present_flag writable_flag) no_cache_flag) write_through_flag)
      no_execute_flag

unfoldable pub to_page_flags : VirtPermissions → PageTableFlags
to_page_flags p =
    let flags = present_flag in
    let flags = if p.writable then bit_or flags writable_flag else flags in
    let flags = if p.user then bit_or flags user_accessible_flag else flags in
    if not p.executable then bit_or flags no_execute_flag else flags

abbrev pub PageTableEntry : Type 0
PageTableEntry = ℕ

abbrev pub addr_mask : ℕ
addr_mask = 0x000F_FFFF_FFFF_F000

unfoldable pub is_present : PageTableEntry → Bool
is_present e = not (bit_and e present_flag == 0)

unfoldable pub flags_of : PageTableEntry → PageTableFlags
flags_of e = bit_and e (bit_or 0xFFF0_0000_0000_0FFF (2 ^ 63))

unfoldable pub phys_addr : PageTableEntry → ℕ
phys_addr e = bit_and e addr_mask

unfoldable pub set_entry : ℕ → PageTableFlags → PageTableEntry
set_entry phys flags = bit_or (bit_and phys addr_mask) flags

-- `(entry.flags().0 & PageTableFlags::HUGE_PAGE.0) != 0`
unfoldable pub is_huge : PageTableEntry → Bool
unfolding flags_of
is_huge e = not (bit_and (flags_of e) huge_page_flag == 0)
