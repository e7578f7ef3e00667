-- ===== src/Memory/Tests.antt =====
-- A memory map of one descriptor, loaded as src/memory.rs does.
use ventura_os.Base.{◌≡◌, refl, if◌then◌else◌, ◌==◌}
use ventura_os.Memory.{Slice, new_map, init_from_uefi}
use ventura_os.Memory.Load.{IsLoaded, init_from_uefi-IsLoaded}

-- A descriptor of conventional memory: three pages from 0 on.
abbrev one_descriptor : Slice
one_descriptor = record { len = 48; byte = λ i. if i == 0 then 7 else if i == 24 then 3 else 0 }

one_region : (init_from_uefi one_descriptor 48 1 new_map).region_count ≡ 1
unfolding init_from_uefi
one_region = refl

init_from_uefi-IsLoaded_example : IsLoaded (init_from_uefi one_descriptor 48 1 new_map)
init_from_uefi-IsLoaded_example = init_from_uefi-IsLoaded one_descriptor 48 1 new_map
