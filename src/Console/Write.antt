-- ===== src/Console/Write.antt =====
-- `write_byte` and `init` of src/framebuffer.rs keep the cursor on the screen and the writes in its
-- lines.
use ventura_os.Base.{
  ℕ, ◌+◌, ◌*◌, ◌/◌, ◌%◌, ◌^◌, ◌≤◌, ◌<◌, ◌≡◌, refl, ◌∙◌, true, some, ltb, leb, ◌==◌, if◌then◌else◌,
  arith, add64, sub64, Bool-cases, inl, inr, if_true, if_false, ◌&&◌, ap,
}
use native.Mathlib.Nat.{mul-le-mul_left}
use ventura_os.Console.{
  FramebufferInfo, Console, Pixels, is_linear, scroll, scroll_past, wrap_line, put_glyph,
  write_byte, cell_width, cell_height, init, start_console, bg_color,
}
use ventura_os.Console.Draw.{SameFrom, draw_glyph-SameFrom, fill_lem}
use ventura_os.Console.Scroll.{scroll_lem}

-- A screen that fits its scan lines and has room for a character.
pub record IsScreen (info : FramebufferInfo) : Type 0 where
  pub wide : info.width ≤ info.stride
  pub small : info.stride * info.height < 2 ^ 64
  pub width_lt : info.width < 2 ^ 32
  pub height_lt : info.height < 2 ^ 32
  pub some_cols : cell_width ≤ info.width
  pub some_rows : cell_height ≤ info.height

-- The console shows `info`, with `extra` rows of slack for the cursor.
pub record Shows (extra : ℕ) (info : FramebufferInfo) (c : Console) : Type 0 where
  pub active : c.active ≡ true
  pub screen : c.info ≡ some info
  pub cols : c.cols ≡ info.width / cell_width
  pub rows : c.rows ≡ info.height / cell_height
  pub col_le : c.col ≤ c.cols
  pub row_lt : c.row < c.rows + extra

abbrev pub IsValid : FramebufferInfo → Console → Type 0
IsValid info c = Shows 0 info c

-- A step that keeps the console valid and writes only inside the lines of the screen.
abbrev pub Kept : FramebufferInfo → ℕ → Console → Console → Type 0
Kept info extra c c' = Shows extra info c' × SameFrom (info.stride * info.height) c.pixels c'.pixels

module _ (info : FramebufferInfo) (is : IsScreen info) where
  abbrev screen_size : ℕ
  screen_size = info.stride * info.height

  text-screen_size :
      info.stride * cell_height * (info.height / cell_height) ≤ info.stride * info.height
  text-screen_size =
      let h : info.stride * (cell_height * (info.height / cell_height))
          ≤ info.stride * info.height =
        mul-le-mul_left info.stride (omega arith) in
      omega (arith, h)

  scroll-SameFrom :
      (fb : Pixels)
      → SameFrom (info.stride * info.height) fb (scroll info (info.height / cell_height) fb)
  scroll-SameFrom fb i past =
      scroll_lem info (info.height / cell_height) fb i (omega (arith, is.some_rows))
        (omega (arith, text-screen_size, is.small))
      ∙ ground (arith, text-screen_size)

  scroll_past-Kept : (c : Console) → Shows 1 info c → Kept info 0 c (scroll_past info c)
  scroll_past-Kept c s = elim (Bool-cases (leb c.rows c.row)) [
    | inr low ↦
        let e : scroll_past info c ≡ c = unfold scroll_past in if_false _ _ low in
        rw e (
          record {
            active = s.active;
            screen = s.screen;
            cols = s.cols;
            rows = s.rows;
            col_le = s.col_le;
            row_lt = ground arith;
          },
          λ i past. refl,
        )
    | inl past_end ↦
        let e : scroll_past info c
            ≡ record c { row = sub64 c.rows 1; pixels = scroll info c.rows c.pixels } =
          unfold scroll_past in if_true _ _ past_end in
        rw e (
          record {
            active = s.active;
            screen = s.screen;
            cols = s.cols;
            rows = s.rows;
            col_le = s.col_le;
            row_lt = omega (arith, s.rows, is.some_rows, is.height_lt);
          },
          λ i past. rw s.rows (scroll-SameFrom c.pixels i past),
        )
  ]

  wrap_line-Shows :
      (c : Console)
      → Shows 0 info c
      → Shows 1 info (wrap_line c)
        × ((wrap_line c).col < c.cols)
        × ((wrap_line c).pixels ≡ c.pixels)
  unfolding wrap_line
  wrap_line-Shows c s = elim (Bool-cases (leb c.cols c.col)) [
    | inl full ↦ rw (if_true _ _ full) (
      record {
        active = s.active;
        screen = s.screen;
        cols = s.cols;
        rows = s.rows;
        col_le = omega arith;
        row_lt = omega (arith, s.row_lt, s.rows, is.height_lt);
      },
      omega (arith, s.cols, is.some_cols),
      refl,
    )
    | inr room ↦ rw (if_false _ _ room) (
      record {
        active = s.active;
        screen = s.screen;
        cols = s.cols;
        rows = s.rows;
        col_le = s.col_le;
        row_lt = omega (arith, s.row_lt);
      },
      ground arith,
      refl,
    )
  ]

  scroll_past-col : (c : Console) → (scroll_past info c).col ≡ c.col
  unfolding scroll_past
  scroll_past-col c = elim (Bool-cases (leb c.rows c.row)) [
    | inl past ↦ rw (if_true _ _ past) refl
    | inr low ↦ rw (if_false _ _ low) refl
  ]

  put_glyph-Kept : (byte : ℕ) (c : Console) → Shows 0 info c → Kept info 1 c (put_glyph info byte c)
  unfolding put_glyph
  put_glyph-Kept byte c s =
      let (s1, lt, same) = wrap_line-Shows c s in
      let (s2, above) = scroll_past-Kept (wrap_line c) s1 in
      let col : (scroll_past info (wrap_line c)).col < info.width / cell_width =
        omega (arith, scroll_past-col (wrap_line c), lt, s.cols) in
      (
        record {
          active = s2.active;
          screen = s2.screen;
          cols = s2.cols;
          rows = s2.rows;
          col_le = omega (arith, col, s2.cols, is.width_lt);
          row_lt = omega (arith, s2.row_lt);
        },
        λ i past.
            draw_glyph-SameFrom info (scroll_past info (wrap_line c)).col
              (scroll_past info (wrap_line c)).row byte (scroll_past info (wrap_line c)).pixels
              is.small is.wide col (omega (arith, s2.row_lt, s2.rows)) i past
            ∙ above i past
            ∙ ap (λ fb. fb i) same,
      )

  -- The match on the byte, before the last scroll.
  by_byte-Kept :
      (byte : ℕ) (c : Console)
      → Shows 0 info c
      → Kept info 1 c (
          if byte == 10
          then record c { col = 0; row = add64 c.row 1 }
          else if byte == 13
          then record c { col = 0 }
          else put_glyph info byte c)
  by_byte-Kept byte c s = elim (Bool-cases (byte == 10)) [
    | inl feed ↦ rw (if_true _ _ feed) (
      record {
        active = s.active;
        screen = s.screen;
        cols = s.cols;
        rows = s.rows;
        col_le = omega arith;
        row_lt = omega (arith, s.row_lt, s.rows, is.height_lt);
      },
      λ i past. refl,
    )
    | inr other ↦ rw (if_false _ _ other) (elim (Bool-cases (byte == 13)) [
      | inl return ↦ rw (if_true _ _ return) (
        record {
          active = s.active;
          screen = s.screen;
          cols = s.cols;
          rows = s.rows;
          col_le = omega arith;
          row_lt = omega (arith, s.row_lt);
        },
        λ i past. refl,
      )
      | inr glyph ↦ rw (if_false _ _ glyph) (put_glyph-Kept byte c s)
    ])
  ]

-- On an active console with a screen of at least one character, `write_byte` keeps the cursor in
-- the text area, whatever the byte, and writes no pixel past the lines of the screen. A line has
-- `stride` pixels, padding included.
pub write_byte-Kept :
    (info : FramebufferInfo) (byte : ℕ) (c : Console)
    → IsScreen info
    → IsValid info c
    → Kept info 0 c (write_byte byte c)
unfolding write_byte
write_byte-Kept info byte c is s =
    let (s1, above) = by_byte-Kept info is byte c s in
    let (s2, above') = scroll_past-Kept info is _ s1 in
    rw (s.active, s.screen) (s2, λ i past. above' i past ∙ above i past)

-- On a screen of at least one character with a linear format, `init` succeeds: the console is
-- valid, the pixels of all lines, padding included, are blank and no other pixel is written.
pub init-Shows :
    (info : FramebufferInfo) (c : Console)
    → IsScreen info
    → c.info ≡ some info
    → is_linear info.format ≡ true
    → ((init c).0 ≡ true)
      × IsValid info (init c).1
      × ((i : ℕ)
          → (init c).1.pixels i
            ≡ (if ltb i (info.stride * info.height) then bg_color else c.pixels i))
unfolding init start_console
init-Shows info c is at linear =
    let e : (is_linear info.format && ltb 0 info.width && ltb 0 info.height) ≡ true =
      ground (arith, linear, is.some_cols, is.some_rows) in
    let n : (info.stride * info.height) % 2 ^ 64 ≡ info.stride * info.height =
      omega (arith, is.small) in
    rw (at, e, n)
      (
        refl,
        record {
          active = refl;
          screen = refl;
          cols = refl;
          rows = refl;
          col_le = omega arith;
          row_lt = omega (arith, is.some_rows);
        },
        λ i. fill_lem 0 (info.stride * info.height) c.pixels i ∙ ground arith,
      )
