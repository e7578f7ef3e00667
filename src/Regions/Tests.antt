-- ===== src/Regions/Tests.antt =====
-- The region table of src/vmm.rs with one region.
use ventura_os.Base.{◌≡◌, refl, arith}
use ventura_os.Base.Search.{find_first}
use ventura_os.Paging.{kernel_data, dynamic_virt_start, is_canonical}
use ventura_os.Regions.{
  VirtRegion, VirtualMemoryManager, new_manager, dynamic_kernel, dynamic_region, append,
  register_region, reserve_virtual_region, unregister_region, find_region_for_addr, ok,
}
use ventura_os.Regions.Valid.{IsRegion, IsValid, IsValid-append}
use ventura_os.Regions.Register.{Registered, register_region-Registered}
use ventura_os.Regions.Reserve.{IsCursor, ReserveResult, reserve_virtual_region-ReserveResult}
use ventura_os.Regions.Lookup.{
  Lookup, find_region_for_addr-Lookup, Unregistered, unregister_region-Unregistered,
}

abbrev first : VirtRegion
first = dynamic_region 0x1000 0x2000 kernel_data dynamic_kernel

abbrev second : VirtRegion
second = dynamic_region 0x2000 0x1000 kernel_data dynamic_kernel

abbrev one_region : VirtualMemoryManager
one_region = append first new_manager

first-IsRegion : IsRegion first
first-IsRegion = record {
  aligned = refl;
  whole = refl;
  some_bytes = omega arith;
  no_wrap = omega arith;
}

new_manager-IsValid : IsValid new_manager
new_manager-IsValid = record {
  bounded = omega arith;
  each = λ i lt. absurd (omega arith);
  apart = λ i j lt lt_j. absurd (omega arith);
}

new_manager-IsCursor : IsCursor new_manager
new_manager-IsCursor = record {
  cursor_aligned = refl;
  cursor_low = omega arith;
  cursor_high = omega arith;
  below = λ i lt. absurd (omega arith);
}

one_region-IsValid : IsValid one_region
one_region-IsValid =
    IsValid-append new_manager first new_manager-IsValid first-IsRegion (omega arith)
      (λ j lt. absurd (omega arith))

-- The second region lies in the first.
register_region-Registered_example :
    Registered second one_region (register_region second one_region)
register_region-Registered_example = register_region-Registered second one_region one_region-IsValid

reserved_first :
    (reserve_virtual_region 0x4000 kernel_data dynamic_kernel new_manager).0
    ≡ ok (dynamic_region dynamic_virt_start 0x4000 kernel_data dynamic_kernel)
unfolding reserve_virtual_region is_canonical find_first
reserved_first = refl

reserve_virtual_region-ReserveResult_example :
    ReserveResult 0x4000 kernel_data dynamic_kernel new_manager
      (reserve_virtual_region 0x4000 kernel_data dynamic_kernel new_manager)
reserve_virtual_region-ReserveResult_example =
    reserve_virtual_region-ReserveResult 0x4000 kernel_data dynamic_kernel new_manager
      new_manager-IsValid new_manager-IsCursor (omega arith)

find_region_for_addr-Lookup_example :
    Lookup 0x2ABC one_region (find_region_for_addr 0x2ABC one_region)
find_region_for_addr-Lookup_example =
    find_region_for_addr-Lookup 0x2ABC one_region one_region-IsValid

unregister_region-Unregistered_example :
    Unregistered 0x1000 one_region (unregister_region 0x1000 one_region)
unregister_region-Unregistered_example =
    unregister_region-Unregistered 0x1000 one_region one_region-IsValid
