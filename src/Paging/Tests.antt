-- ===== src/Paging/Tests.antt =====
-- Addresses of src/vmm.rs at fixed values.
use ventura_os.Base.{◌≡◌, refl, true}
use ventura_os.Paging.{is_canonical, pml4_index, pdpt_index, pd_index, pt_index}

canonical_low : is_canonical 0x1234 ≡ true
unfolding is_canonical
canonical_low = refl

canonical_low_end : is_canonical 0x1FFF ≡ true
unfolding is_canonical
canonical_low_end = refl

same_pml4 : pml4_index 0x1234 ≡ pml4_index 0x1FFF
unfolding pml4_index
same_pml4 = refl

same_pdpt : pdpt_index 0x1234 ≡ pdpt_index 0x1FFF
unfolding pdpt_index
same_pdpt = refl

same_pd : pd_index 0x1234 ≡ pd_index 0x1FFF
unfolding pd_index
same_pd = refl

same_pt : pt_index 0x1234 ≡ pt_index 0x1FFF
unfolding pt_index
same_pt = refl
