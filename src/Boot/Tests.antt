-- ===== src/Boot/Tests.antt =====
-- The boot of src/vmm.rs on a machine without memory regions or a framebuffer.
use ventura_os.Base.{◌/◌, refl, none, arith, sym, ◌∙◌}
use mathlib.Core.Bool.{false≢true}
use ventura_os.Memory.{page_size, new_map}
use ventura_os.Pmm.Tests.{blank}
use ventura_os.Pmm.Init.{init-IsValid}
use ventura_os.Paging.Entry.{is_present-zero}
use ventura_os.Tables.Tree.{IsTree, pool_table}
use ventura_os.Tables.Tests.{boot, own_slots, none_free}
use ventura_os.Regions.{new_manager}
use ventura_os.Mapping.{Kernel}
use ventura_os.Boot.{init}
use ventura_os.Boot.Init.{BootResult, init-BootResult}

abbrev kernel : Kernel
kernel = record { vm = boot; vmm = new_manager; root = 0 }

no_tables : IsTree own_slots (λ _. none) boot
no_tables = record {
  pmm_valid = (init-IsValid new_map blank (λ i lt. absurd (omega arith))).0;
  in_use = λ t p at. none_free (t / page_size);
  child = λ t p i at low high present table. absurd (false≢true (sym is_present-zero ∙ present));
  pool_aligned = refl;
  pool_end = omega arith;
  pool_used = λ j lt. none_free (pool_table boot j / page_size);
  pool_fresh = λ j low high. refl;
}

init-BootResult_example : BootResult own_slots (init new_map 0xFEE0_0000 0xFEC0_0000 none kernel)
init-BootResult_example =
    init-BootResult own_slots new_map 0xFEE0_0000 0xFEC0_0000 none kernel no_tables (omega arith)
