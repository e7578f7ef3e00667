-- ===== src/Paging/Entry.antt =====
-- What a page-table entry of src/vmm.rs gives back after `set`.
use ventura_os.Base.{
  not, ℕ, ◌-◌, ◌*◌, ◌/◌, ◌%◌, ◌^◌, ◌<◌, ◌≡◌, refl, sym, ◌∙◌, true, false, arith, bit_and, bit_or,
  ap,
}
use ventura_os.Base.Bits.{
  test_bit, test_bit_ext, test_bit-shifted, test_bit-zero, test_bit-bit_or, test_bit-bit_and,
  bit_and-pow, bit_and-shifted, bit_and-mask,
}
use ventura_os.Memory.{page_size}
use ventura_os.Paging.{
  PageTableFlags, PageTableEntry, VirtPermissions, addr_mask, is_present, flags_of, phys_addr,
  set_entry, is_huge, to_page_flags,
}

-- Flags that leave the address field alone.
abbrev pub IsFlags : PageTableFlags → Type 0
IsFlags flags = (flags < 2 ^ 64) × (bit_and flags addr_mask ≡ 0)

pub is_present-test_bit : (e : PageTableEntry) → is_present e ≡ test_bit e 0
unfolding is_present
is_present-test_bit e = ground (arith, bit_and-pow 0 e)

flags_mask-huge : test_bit (bit_or 0xFFF0_0000_0000_0FFF (2 ^ 63)) 7 ≡ true
unfolding test_bit
flags_mask-huge = refl

pub is_huge-test_bit : (e : PageTableEntry) → is_huge e ≡ test_bit e 7
unfolding is_huge
is_huge-test_bit e = ground (
  arith,
  bit_and-pow 7 (flags_of e),
  test_bit-bit_and 7 e (bit_or 0xFFF0_0000_0000_0FFF (2 ^ 63)),
  flags_mask-huge,
)

pub phys_addr_lem : (e : PageTableEntry) → phys_addr e ≡ e / 4096 % 2 ^ 40 * 4096
unfolding phys_addr
phys_addr_lem e = bit_and-shifted 12 e (2 ^ 40 - 1) ∙ rw (bit_and-mask 40 (e / 2 ^ 12))

-- The address field of an entry is a page address below 2 ^ 52.
pub phys_addr_bounds : (e : PageTableEntry) → (phys_addr e < 2 ^ 52) × (phys_addr e % page_size ≡ 0)
phys_addr_bounds e = omega (arith, phys_addr_lem e)

test_bit-addr_mask : (i : ℕ) → i < 12 → test_bit addr_mask i ≡ false
test_bit-addr_mask i h = test_bit-shifted 12 (2 ^ 40 - 1) i h

module _ (phys : ℕ) (flags : PageTableFlags) where
  pub phys_addr-set_entry :
      phys < 2 ^ 52 → phys % page_size ≡ 0 → IsFlags flags → phys_addr (set_entry phys flags) ≡ phys
  phys_addr-set_entry lt aligned is =
      test_bit_ext 64 (phys_addr (set_entry phys flags)) (phys_addr phys)
        (omega (arith, phys_addr_bounds (set_entry phys flags)))
        (omega (arith, phys_addr_bounds phys)) same_bits
      ∙ omega (arith, phys_addr_lem phys)
    where
      same_bits :
          (i : ℕ) → test_bit (phys_addr (set_entry phys flags)) i ≡ test_bit (phys_addr phys) i
      same_bits i =
          unfold phys_addr set_entry in
          ground (
            arith,
            test_bit-bit_and i (bit_or (bit_and phys addr_mask) flags) addr_mask,
            test_bit-bit_or i (bit_and phys addr_mask) flags,
            test_bit-bit_and i phys addr_mask,
            test_bit-bit_and i flags addr_mask,
            ap (λ w. test_bit w i) is.1,
            test_bit-zero i,
          )

  pub test_bit-set_entry : (i : ℕ) → i < 12 → test_bit (set_entry phys flags) i ≡ test_bit flags i
  unfolding set_entry
  test_bit-set_entry i lt = ground (
    arith,
    test_bit-bit_or i (bit_and phys addr_mask) flags,
    test_bit-bit_and i phys addr_mask,
    test_bit-addr_mask i lt,
  )

  pub is_present-set_entry : is_present (set_entry phys flags) ≡ is_present flags
  is_present-set_entry =
      is_present-test_bit (set_entry phys flags)
      ∙ test_bit-set_entry 0 (omega arith)
      ∙ sym (is_present-test_bit flags)

  pub is_huge-set_entry : is_huge (set_entry phys flags) ≡ is_huge flags
  is_huge-set_entry =
      is_huge-test_bit (set_entry phys flags)
      ∙ test_bit-set_entry 7 (omega arith)
      ∙ sym (is_huge-test_bit flags)

pub is_present-zero : is_present 0 ≡ false
unfolding is_present
is_present-zero = refl

-- The permissions of a region become flags that are present, not huge, writable, open to the user
-- and barred from execution exactly if the region is, and that leave the address field alone.
pub to_page_flags_lem :
    (p : VirtPermissions)
    → IsFlags (to_page_flags p)
      × (is_present (to_page_flags p) ≡ true)
      × (is_huge (to_page_flags p) ≡ false)
      × (test_bit (to_page_flags p) 1 ≡ p.writable)
      × (test_bit (to_page_flags p) 2 ≡ p.user)
      × (test_bit (to_page_flags p) 63 ≡ not p.executable)
unfolding to_page_flags is_present is_huge test_bit
to_page_flags_lem p = ground arith
