-- ===== src/Console.antt =====
-- The text console on the framebuffer: src/framebuffer.rs. The pixel `i` is the 32-bit word at
-- `phys_base + 4 * i`. A pixel's index is reduced modulo 2 ^ 64 once, after the sums and products
-- that the source reduces one by one.
pub mod Tests
pub mod Draw
pub mod Scroll
pub mod Write
use ventura_os.Base.{
  ℕ, zero, suc, ◌+◌, ◌-◌, ◌*◌, ◌/◌, ◌%◌, ◌^◌, Bool, true, false, not, ◌&&◌, ◌||◌, Option, none,
  some, List, [], ◌∷◌, ltb, leb, ◌==◌, if◌then◌else◌, add64, sub64, update, get_elem?, bit_and,
}
use ventura_os.Font.{glyph, glyph_width, glyph_height}

abbrev pub cell_width : ℕ
cell_width = glyph_width

abbrev pub cell_height : ℕ
cell_height = glyph_height * 2

abbrev pub fg_color : ℕ
fg_color = 0x00CC_CCCC

abbrev pub bg_color : ℕ
bg_color = 0x0000_0000

pub data PixelFormat : Type 0 where
  rgb bgr bitmask blt_only : PixelFormat

unfoldable pub from_uefi : ℕ → PixelFormat
from_uefi value =
    if value == 0 then rgb else if value == 1 then bgr else if value == 2 then bitmask else blt_only

-- `format != BltOnly`
abbrev pub is_linear : PixelFormat → Bool
is_linear rgb = true
is_linear bgr = true
is_linear bitmask = true
is_linear blt_only = false

pub record FramebufferInfo : Type 0 where
  pub phys_base : ℕ
  pub size_bytes : ℕ
  pub width : ℕ
  pub height : ℕ
  pub stride : ℕ
  pub format : PixelFormat

abbrev pub Pixels : Type 0
Pixels = ℕ → ℕ

-- CONSOLE, ACTIVE and the framebuffer.
pub record Console : Type 0 where
  pub info : Option FramebufferInfo
  pub cols : ℕ
  pub rows : ℕ
  pub col : ℕ
  pub row : ℕ
  pub active : Bool
  pub pixels : Pixels

abbrev pub set_info : FramebufferInfo → Console → Console
set_info info c = record c { info = some info }

-- `for i in from..from + count` with a write of `BG_COLOR`.
unfoldable pub fill : ℕ → ℕ → Pixels → Pixels
fill start zero fb = fb
fill start (suc count) fb = fill (start + 1) count (update fb start bg_color)

-- The body of `init` with a usable framebuffer.
unfoldable pub start_console : FramebufferInfo → Console → Console
unfolding fill
start_console info c = record c {
  cols = info.width / cell_width;
  rows = info.height / cell_height;
  col = 0;
  row = 0;
  active = true;
  pixels = fill 0 ((info.stride * info.height) % 2 ^ 64) c.pixels;
}

unfoldable pub init : Console → Bool × Console
unfolding start_console
init c = elim c.info [
  | none ↦ (false, c)
  | some info ↦
      if is_linear info.format && ltb 0 info.width && ltb 0 info.height
      then (true, start_console info c)
      else (false, c)
]

abbrev pub console_size : Console → ℕ × ℕ
console_size c = (c.cols, c.rows)

-- `for gx in ..`, `left` pixels of a line from `gx` on.
unfoldable pub draw_line : ℕ → ℕ → ℕ → ℕ → Pixels → Pixels
draw_line line bits gx zero fb = fb
draw_line line bits gx (suc left) fb = draw_line line bits (suc gx) left (
    update fb ((line + gx) % 2 ^ 64)
      (if not (bit_and (bits / 2 ^ gx) 1 == 0) then fg_color else bg_color))

-- The two lines of a glyph row.
unfoldable pub draw_row : FramebufferInfo → ℕ → ℕ → ℕ → ℕ → Pixels → Pixels
unfolding draw_line
draw_row info x0 y0 gy bits fb =
    draw_line ((y0 + gy * 2 + 1) * info.stride + x0) bits 0 glyph_width
      (draw_line ((y0 + gy * 2) * info.stride + x0) bits 0 glyph_width fb)

-- `for gy in ..`, over the rows that are left of the glyph.
unfoldable pub draw_rows : FramebufferInfo → ℕ → ℕ → ℕ → List ℕ → Pixels → Pixels
unfolding draw_row
draw_rows info x0 y0 gy [] fb = fb
draw_rows info x0 y0 gy (bits ∷ rest) fb =
    draw_rows info x0 y0 (suc gy) rest (draw_row info x0 y0 gy bits fb)

unfoldable pub draw_glyph : FramebufferInfo → ℕ → ℕ → ℕ → Pixels → Pixels
unfolding draw_rows
draw_glyph info col row byte fb =
    draw_rows info (col * cell_width) (row * cell_height) 0 (glyph byte) fb

-- `core::ptr::copy` of `count` pixels from `from` to the start.
abbrev pub copy_down : ℕ → ℕ → Pixels → Pixels
copy_down from count fb i = if ltb i count then fb (from + i) else fb i

unfoldable pub scroll : FramebufferInfo → ℕ → Pixels → Pixels
unfolding fill
scroll info rows fb =
    let row_pixels = (info.stride * cell_height) % 2 ^ 64 in
    let text_pixels = (info.stride * cell_height * rows) % 2 ^ 64 in
    let kept = sub64 text_pixels row_pixels in
    fill kept (text_pixels - kept) (copy_down row_pixels kept fb)

-- `if row >= rows { scroll; row = rows - 1 }`
unfoldable pub scroll_past : FramebufferInfo → Console → Console
unfolding scroll
scroll_past info c =
    if leb c.rows c.row
    then record c { row = sub64 c.rows 1; pixels = scroll info c.rows c.pixels }
    else c

-- `if col >= cols { col = 0; row += 1 }`
unfoldable pub wrap_line : Console → Console
wrap_line c = if leb c.cols c.col then record c { col = 0; row = add64 c.row 1 } else c

-- A byte that is neither a line feed nor a carriage return.
unfoldable pub put_glyph : FramebufferInfo → ℕ → Console → Console
unfolding scroll_past wrap_line draw_glyph
put_glyph info byte c =
    let c1 = scroll_past info (wrap_line c) in
    record c1 { pixels = draw_glyph info c1.col c1.row byte c1.pixels; col = add64 c1.col 1 }

unfoldable pub write_byte : ℕ → Console → Console
unfolding put_glyph scroll_past
write_byte byte c = if not c.active then c else elim c.info [
  | none ↦ c
  | some info ↦ scroll_past info (
      if byte == 10
      then record c { col = 0; row = add64 c.row 1 }
      else if byte == 13
      then record c { col = 0 }
      else put_glyph info byte c)
]
