-- ===== src/Frame/Cursor.antt =====
-- `usb_hal_dev_draw_cursor` of usb_hal/usb_hal_thread.c: the cursor is blended into the desktop
-- buffer, and the pixels under it are kept so that the next call can put them back.
pub mod Undo
use lenovo_magicbay_hud_linu.Base.{
  not, ℕ, zero, suc, ◌+◌, ◌-◌, ◌*◌, ◌/◌, ◌%◌, ◌^◌, Bool, true, false, min, shr, leb, ltb, ◌||◌,
  if◌then◌else◌,
}
use lenovo_magicbay_hud_linu.Base.Int.{ℤ, pos, ◌+ℤ◌, ◌-ℤ◌, to_ℕ}
use lenovo_magicbay_hud_linu.Base.Memory.{copy, put}
use lenovo_magicbay_hud_linu.Frame.{Pixels}

-- `struct usb_hal_cursor_buffer` of the pointer image; the hot area is (x1, y1) to (x2, y2).
pub record Cursor : Type 0 where
  pub valid : Bool
  pub buf : Pixels
  pub x : ℤ
  pub y : ℤ
  pub x1 : ℕ
  pub y1 : ℕ
  pub x2 : ℕ
  pub y2 : ℕ

-- `old_cursor_buf`: what was under the pointer, row after row, and where that was.
pub record Saved : Type 0 where
  pub valid : Bool
  pub buf : Pixels
  pub x1 : ℕ
  pub y1 : ℕ
  pub x2 : ℕ
  pub y2 : ℕ

abbrev pub cursor_width : ℕ
cursor_width = 64

-- "remove old cursor": `n` rows of `len` pixels, from `from` in the kept pixels to `at`
pub restore_rows : ℕ → Pixels → Pixels → ℕ → ℕ → ℕ → ℕ → Pixels
restore_rows zero desktop kept at from stride len = desktop
restore_rows (suc n) desktop kept at from stride len =
    restore_rows n (copy desktop at kept from len) kept (at + stride) (from + len) stride len

-- One colour byte: the pointer's `m` over the image's `i`, by the alpha `a` of the pointer.
blend_byte : ℕ → ℕ → ℕ → ℕ
blend_byte a m i =
    if leb 192 a
    then m
    else if leb 128 a
    then (shr m 2 + shr i 2 + shr i 1) % 2 ^ 8
    else if leb 64 a
    then (shr m 2 + shr m 1 + shr i 2) % 2 ^ 8
    else i

abbrev pub byte : ℕ → ℕ → ℕ
byte p k = p / 2 ^ (8 * k) % 2 ^ 8

-- The three colour bytes of a pixel are blended; its fourth byte stays.
unfoldable pub blend : ℕ → ℕ → ℕ
unfolding blend_byte
blend m i =
    blend_byte (byte m 3) (byte m 0) (byte i 0)
    + blend_byte (byte m 3) (byte m 1) (byte i 1) * 2 ^ 8
    + blend_byte (byte m 3) (byte m 2) (byte i 2) * 2 ^ 16
    + i / 2 ^ 24 * 2 ^ 24

-- The column loop: `n` pixels of the pointer from `mouse` over the image from `at`.
pub blend_line : ℕ → Pixels → Pixels → ℕ → ℕ → Pixels
blend_line zero desktop cursor at mouse = desktop
blend_line (suc n) desktop cursor at mouse =
    blend_line n (put desktop at (blend (cursor mouse) (desktop at))) cursor (at + 1) (mouse + 1)

-- "add new cursor": each row is kept, then blended; the result is the desktop and the kept pixels.
-- The array of the kept pixels has room for 64 by 64; here what is kept behind these stays too.
pub draw_rows : ℕ → Pixels → Pixels → Pixels → ℕ → ℕ → ℕ → ℕ → ℕ → Pixels × Pixels
draw_rows zero desktop kept cursor at from mouse stride len = (desktop, kept)
draw_rows (suc n) desktop kept cursor at from mouse stride len =
    draw_rows n (blend_line len desktop cursor at mouse) (copy kept from desktop at len) cursor
      (at + stride) (from + len) (mouse + cursor_width) stride len

-- `if (a < 0) a = 0`
abbrev clip_low : ℤ → ℕ
clip_low a = to_ℕ a

-- `if (a > limit) a = limit`; a negative end is 0 here, which fails `start >= end` all the same
abbrev clip_high : ℤ → ℕ → ℕ
clip_high a limit = min (to_ℕ a) limit

unfoldable pub remove_cursor : Pixels → ℕ → Saved → Pixels
remove_cursor desktop width old =
    if old.valid
    then restore_rows (old.y2 - old.y1) desktop old.buf (old.y1 * width + old.x1) 0 width
        (old.x2 - old.x1)
    else desktop

-- `start_row`, `start_col`, `end_row` and `end_col`: the part of the pointer that is on the screen.
pub record Area : Type 0 where
  pub start_row : ℕ
  pub start_col : ℕ
  pub end_row : ℕ
  pub end_col : ℕ

unfoldable pub clip : Cursor → ℕ → ℕ → Area
clip c width height = record {
  start_row = clip_low (c.y +ℤ pos c.y1);
  start_col = clip_low (c.x +ℤ pos c.x1);
  end_row = clip_high (c.y +ℤ pos c.y2) height;
  end_col = clip_high (c.x +ℤ pos c.x2) width;
}

-- Nothing is drawn: the pointer is hidden, or no part of it is on the screen.
unfoldable pub draws_nothing : Cursor → Area → Bool
draws_nothing c a = not c.valid || (leb a.end_row a.start_row || leb a.end_col a.start_col)

-- The index in the pointer's image of the first pixel that is drawn.
unfoldable pub mouse_start : Cursor → Area → ℕ
mouse_start c a = to_ℕ (pos a.start_row -ℤ c.y) * cursor_width + to_ℕ (pos a.start_col -ℤ c.x)

pub draw_area : Pixels → ℕ → Cursor → Area → Saved → Pixels × Saved
draw_area desktop width c a old =
    let (desktop', kept) =
      draw_rows (a.end_row - a.start_row) desktop old.buf c.buf (a.start_row * width + a.start_col)
        0 (mouse_start c a) width (a.end_col - a.start_col) in
    (
      desktop',
      record {
        valid = true;
        buf = kept;
        x1 = a.start_col;
        y1 = a.start_row;
        x2 = a.end_col;
        y2 = a.end_row;
      },
    )

unfoldable pub add_cursor : Pixels → ℕ → ℕ → Cursor → Saved → Pixels × Saved
add_cursor desktop width height c old =
    let a = clip c width height in
    if draws_nothing c a
    then (desktop, record old { valid = false })
    else draw_area desktop width c a old

unfoldable pub draw_cursor : Pixels → ℕ → ℕ → Cursor → Saved → Pixels × Saved
unfolding remove_cursor add_cursor
draw_cursor desktop width height c old =
    add_cursor (remove_cursor desktop width old) width height c old
