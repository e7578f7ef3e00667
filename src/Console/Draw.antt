-- ===== src/Console/Draw.antt =====
-- Where the drawing of src/framebuffer.rs writes: inside the lines of the screen, padding included.
use ventura_os.Base.{
  ℕ, zero, suc, ◌+◌, ◌*◌, ◌/◌, ◌^◌, ◌≤◌, ◌<◌, ◌≡◌, refl, ◌∙◌, Bool, true, none, some, List, [], ◌∷◌,
  ltb, leb, ◌==◌, if◌then◌else◌, update, arith, length, get_elem?, ◌&&◌,
}
use native.Mathlib.Nat.{mul-le-mul_right}
use ventura_os.Font.{font, glyph, glyph_width, glyph_index}
use ventura_os.Console.{
  FramebufferInfo, Pixels, fill, draw_line, draw_row, draw_rows, draw_glyph, cell_width,
  cell_height, bg_color,
}

-- Two pictures agree from pixel `n` on.
abbrev pub SameFrom : ℕ → Pixels → Pixels → Type 0
SameFrom n fb fb' = (i : ℕ) → n ≤ i → fb' i ≡ fb i

pub fill_lem :
    (start count : ℕ) (fb : Pixels) (i : ℕ)
    → fill start count fb i ≡ (if leb start i && ltb i (start + count) then bg_color else fb i)
unfolding fill
fill_lem start zero fb i = ground arith
fill_lem start (suc count) fb i =
    ground (arith, fill_lem (start + 1) count (update fb start bg_color) i)

draw_line-SameFrom :
    (n line bits gx left : ℕ) (fb : Pixels)
    → line + gx + left ≤ n
    → n < 2 ^ 64
    → SameFrom n fb (draw_line line bits gx left fb)
unfolding draw_line
draw_line-SameFrom n line bits gx zero fb fits small i past = refl
draw_line-SameFrom n line bits gx (suc left) fb fits small i past =
    draw_line-SameFrom n line bits (suc gx) left _ (omega arith) small i past ∙ ground arith

-- The end of a line lies before the end of the picture.
line_end :
    (stride height y x : ℕ) → y < height → x + 8 ≤ stride → y * stride + x + 8 ≤ stride * height
line_end stride height y x lt fits =
    let h : (y + 1) * stride ≤ height * stride = mul-le-mul_right stride (omega arith) in
    omega (arith, h)

module _ (info : FramebufferInfo) (small : info.stride * info.height < 2 ^ 64) where
  abbrev pub screen_size : ℕ
  screen_size = info.stride * info.height

  draw_row-SameFrom :
      (x0 y0 gy bits : ℕ) (fb : Pixels)
      → x0 + 8 ≤ info.stride
      → y0 + gy * 2 + 2 ≤ info.height
      → SameFrom screen_size fb (draw_row info x0 y0 gy bits fb)
  unfolding draw_row
  draw_row-SameFrom x0 y0 gy bits fb wide high i past =
      let upper = line_end info.stride info.height (y0 + gy * 2) x0 (omega arith) wide in
      let lower = line_end info.stride info.height (y0 + gy * 2 + 1) x0 (omega arith) wide in
      draw_line-SameFrom screen_size ((y0 + gy * 2 + 1) * info.stride + x0) bits 0 glyph_width
        (draw_line ((y0 + gy * 2) * info.stride + x0) bits 0 glyph_width fb) (omega (arith, lower))
        small i past
      ∙ draw_line-SameFrom screen_size ((y0 + gy * 2) * info.stride + x0) bits 0 glyph_width fb
          (omega (arith, upper)) small i past

  draw_rows-SameFrom :
      (x0 y0 gy : ℕ) (rows : List ℕ) (fb : Pixels)
      → x0 + 8 ≤ info.stride
      → y0 + (gy + length rows) * 2 ≤ info.height
      → SameFrom screen_size fb (draw_rows info x0 y0 gy rows fb)
  unfolding draw_rows
  draw_rows-SameFrom x0 y0 gy [] fb wide high i past = refl
  draw_rows-SameFrom x0 y0 gy (bits ∷ rest) fb wide high i past =
      draw_rows-SameFrom x0 y0 (suc gy) rest _ wide (omega arith) i past
      ∙ draw_row-SameFrom x0 y0 gy bits fb wide (omega arith) i past

-- Every glyph of the font has 8 rows.
abbrev all_eight : List (List ℕ) → Bool
all_eight [] = true
all_eight (g ∷ gs) = (length g == 8) && all_eight gs

at_eight :
    (gs : List (List ℕ)) (i : ℕ)
    → all_eight gs ≡ true
    → length (elim (get_elem? gs i) [ some g ↦ g | none ↦ [] ]) ≤ 8
at_eight [] i all = omega arith
at_eight (g ∷ gs) zero all = ground arith
at_eight (g ∷ gs) (suc i) all = at_eight gs i (ground arith)

font-all_eight : all_eight font ≡ true
unfolding font
font-all_eight = refl

pub length-glyph : (byte : ℕ) → length (glyph byte) ≤ 8
unfolding glyph
length-glyph byte = at_eight font (glyph_index byte) font-all_eight

-- A glyph in a text cell of the screen writes only inside the lines of the screen.
pub draw_glyph-SameFrom :
    (info : FramebufferInfo) (col row byte : ℕ) (fb : Pixels)
    → info.stride * info.height < 2 ^ 64
    → info.width ≤ info.stride
    → col < info.width / cell_width
    → row < info.height / cell_height
    → SameFrom (info.stride * info.height) fb (draw_glyph info col row byte fb)
unfolding draw_glyph
draw_glyph-SameFrom info col row byte fb small wide lt_col lt_row =
    draw_rows-SameFrom info small (col * cell_width) (row * cell_height) 0 (glyph byte) fb
      (omega arith) (omega (arith, length-glyph byte))
