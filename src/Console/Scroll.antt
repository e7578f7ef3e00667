-- ===== src/Console/Scroll.antt =====
-- `scroll` of src/framebuffer.rs moves the text up by one row.
use ventura_os.Base.{
  ℕ, ◌+◌, ◌-◌, ◌*◌, ◌%◌, ◌^◌, ◌≤◌, ◌<◌, ◌≡◌, ◌∙◌, ltb, if◌then◌else◌, arith, sub64,
}
use native.Mathlib.Nat.{mul-le-mul_left}
use ventura_os.Console.{FramebufferInfo, Pixels, fill, scroll, copy_down, cell_height, bg_color}
use ventura_os.Console.Draw.{fill_lem}

scroll_at :
    (r t : ℕ) (fb : Pixels) (i : ℕ)
    → r ≤ t
    → t < 2 ^ 64
    → fill (sub64 t r) (t - sub64 t r) (copy_down r (sub64 t r) fb) i
      ≡ (if ltb (r + i) t then fb (r + i) else if ltb i t then bg_color else fb i)
scroll_at r t fb i le small =
    let e : sub64 t r ≡ t - r = omega arith in
    rw e (fill_lem (t - r) (t - (t - r)) (copy_down r (t - r) fb) i ∙ ground arith)

-- If the text fits a 64-bit number and has a row, `scroll` moves every pixel of the text up by one
-- text row, blanks the last text row and leaves the pixels below the text alone.
pub scroll_lem :
    (info : FramebufferInfo) (rows : ℕ) (fb : Pixels) (i : ℕ)
    → 0 < rows
    → info.stride * cell_height * rows < 2 ^ 64
    → scroll info rows fb i ≡ (
        if ltb (info.stride * cell_height + i) (info.stride * cell_height * rows)
        then fb (info.stride * cell_height + i)
        else if ltb i (info.stride * cell_height * rows)
        then bg_color
        else fb i)
unfolding scroll
scroll_lem info rows fb i pos small =
    let h : info.stride * cell_height * 1 ≤ info.stride * cell_height * rows =
      mul-le-mul_left (info.stride * cell_height) (omega arith) in
    let r : (info.stride * cell_height) % 2 ^ 64 ≡ info.stride * cell_height = omega (arith, h) in
    let t : (info.stride * cell_height * rows) % 2 ^ 64 ≡ info.stride * cell_height * rows =
      omega arith in
    rw (r, t)
      (scroll_at (info.stride * cell_height) (info.stride * cell_height * rows) fb i
        (omega (arith, h)) small)
