-- ===== src/Console/Tests.antt =====
-- A console of two rows of ten characters, as src/framebuffer.rs runs it.
use ventura_os.Base.{ℕ, ◌+◌, ◌*◌, ◌≡◌, refl, true, false, some, ltb, if◌then◌else◌, arith}
use ventura_os.Console.{
  FramebufferInfo, Console, rgb, bg_color, init, scroll, write_byte, cell_height,
}
use ventura_os.Console.Scroll.{scroll_lem}
use ventura_os.Console.Write.{IsScreen, IsValid, Kept, write_byte-Kept, init-Shows}

abbrev info : FramebufferInfo
info = record {
  phys_base = 0x8000_0000;
  size_bytes = 12800;
  width = 80;
  height = 40;
  stride = 80;
  format = rgb;
}

abbrev off : Console
off = record {
  info = some info;
  cols = 0;
  rows = 0;
  col = 0;
  row = 0;
  active = false;
  pixels = λ i. i;
}

info-IsScreen : IsScreen info
info-IsScreen = record {
  wide = omega arith;
  small = omega arith;
  width_lt = omega arith;
  height_lt = omega arith;
  some_cols = omega arith;
  some_rows = omega arith;
}

init-Shows_example :
    ((init off).0 ≡ true)
    × IsValid info (init off).1
    × ((i : ℕ)
        → (init off).1.pixels i ≡ (if ltb i (info.stride * info.height) then bg_color else i))
init-Shows_example = init-Shows info off info-IsScreen refl refl

abbrev full : Console
full = record {
  info = some info;
  cols = 10;
  rows = 2;
  col = 10;
  row = 1;
  active = true;
  pixels = λ i. i;
}

full-IsValid : IsValid info full
full-IsValid = record {
  active = refl;
  screen = refl;
  cols = refl;
  rows = refl;
  col_le = omega arith;
  row_lt = omega arith;
}

-- At the end of the last row a letter scrolls.
write_byte-Kept_example : Kept info 0 full (write_byte 0x41 full)
write_byte-Kept_example = write_byte-Kept info 0x41 full info-IsScreen full-IsValid

scroll_lem_example : scroll info 2 full.pixels 7 ≡ (
    if ltb (info.stride * cell_height + 7) (info.stride * cell_height * 2)
    then info.stride * cell_height + 7
    else if ltb 7 (info.stride * cell_height * 2)
    then bg_color
    else 7)
scroll_lem_example = scroll_lem info 2 full.pixels 7 (omega arith) (omega arith)
