-- ===== src/Frame.antt =====
-- The frame that `usb_hal/usb_hal_thread.c` keeps: the desktop buffer, the shadow of what was
-- sent last, and the two rectangles of pixels still to be sent. A buffer is a function from the
-- index of a 32-bit pixel: each pointer of this code is a multiple of four bytes from its start.
pub mod Lines
pub mod Differences
pub mod Box
pub mod Rects
pub mod Yuv
pub mod Block
pub mod Cursor
pub mod Tracks
use lenovo_magicbay_hud_linu.Base.{
  ℕ, zero, suc, ◌+◌, ◌-◌, ◌*◌, Bool, true, false, Option, none, some, ltb, leb, ◌==◌, ◌&&◌, min,
  max, if◌then◌else◌, field,
}
use lenovo_magicbay_hud_linu.Base.Loop.{first_from, last_from}

abbrev pub Pixels : Type 0
Pixels = ℕ → ℕ

-- `struct usb_hal_change_rect`
pub record Rect : Type 0 where
  pub left : ℕ
  pub right : ℕ
  pub top : ℕ
  pub bottom : ℕ

-- The part of `struct usb_hal_dev` that the change detection works on.
pub record Screen : Type 0 where
  pub width : ℕ
  pub height : ℕ
  pub image : Pixels
  pub desktop : Pixels
  pub rect0 : Rect
  pub rect1 : Rect

-- `usb_hal_compare_line`, at index `at` of both buffers
unfoldable pub compare_line : Pixels → Pixels → ℕ → ℕ → ℕ → Bool
compare_line a b at step zero = false
compare_line a b at step (suc len) =
    if a at == b at then compare_line a b (at + step) step len else true

unfoldable pub row_changed : Screen → ℕ → Bool
row_changed s row = compare_line s.image s.desktop (row * s.width) 1 s.width

-- The column test of the searches for the left and right ends.
unfoldable pub col_changed : Screen → ℕ → ℕ → ℕ → Bool
col_changed s top bottom col =
    compare_line s.image s.desktop (top * s.width + col) s.width (bottom - top)

-- "check the bottom": from the last row up to the row below `top`
unfoldable pub find_bottom : Screen → ℕ → ℕ
find_bottom s top = elim (last_from (s.height - (top + 1)) (top + 1) (row_changed s)) [
  | none ↦ top + 1
  | some row ↦ row + 1
]

-- "check the left": `left` and the `right` that the search sets with it
unfoldable pub find_left : Screen → ℕ → ℕ → ℕ × ℕ
find_left s top bottom = elim (first_from s.width 0 (col_changed s top bottom)) [
  | none ↦ (s.width, 0)
  | some col ↦ (col, col + 1)
]

-- "check the right": from the last column down to `right`
unfoldable pub find_right : Screen → ℕ → ℕ → ℕ → ℕ
find_right s top bottom right =
    elim (last_from (s.width - right) right (col_changed s top bottom)) [
      | none ↦ right
      | some col ↦ col + 1
    ]

-- The four searches of `usb_hal_update_change_rects`; `none` is its early return.
unfoldable pub find_box : Screen → Option Rect
unfolding find_bottom find_left find_right
find_box s = elim (first_from s.height 0 (row_changed s)) [
  | none ↦ none
  | some top ↦
      let bottom = find_bottom s top in
      let (left, right) = find_left s top bottom in
      some
        (record { left = left; right = find_right s top bottom right; top = top; bottom = bottom })
]

-- `memcpy(dst + start, src + start, len)`
pub copy_line : Pixels → Pixels → ℕ → ℕ → Pixels
copy_line dst src start len i = if leb start i && ltb i (start + len) then src i else dst i

-- The loop of "update buffer", `n` rows of `len` pixels, each `stride` after the last.
pub copy_rows : ℕ → Pixels → Pixels → ℕ → ℕ → ℕ → Pixels
copy_rows zero dst src start stride len = dst
copy_rows (suc n) dst src start stride len =
    copy_rows n (copy_line dst src start len) src (start + stride) stride len

pub copy_box : Screen → Rect → Pixels
copy_box s b =
    if b.left == 0 && b.right == s.width
    then copy_line s.image s.desktop (b.top * s.width) ((b.bottom - b.top) * s.width)
    else copy_rows (b.bottom - b.top) s.image s.desktop (b.top * s.width + b.left) s.width
        (b.right - b.left)

-- One round of `usb_hal_combine_rects`: the union, made even and a multiple of four wide.
unfoldable pub combine_rect : Rect → Rect → Rect
combine_rect r b = record {
  left = field (min r.left b.left) 2 10;
  right = field (max r.right b.right + 3) 2 10;
  top = field (min r.top b.top) 1 11;
  bottom = field (max r.bottom b.bottom + 1) 1 11;
}

unfoldable pub combine_rects : Screen → Rect → Screen
unfolding combine_rect
combine_rects s b = record s { rect0 = combine_rect s.rect0 b; rect1 = combine_rect s.rect1 b }

unfoldable pub update_change_rects : Screen → Screen
update_change_rects s = elim (find_box s) [
  | none ↦ s
  | some b ↦ combine_rects (record s { image = copy_box s b }) b
]

unfoldable pub full_rect : Screen → Rect
full_rect s = record { left = 0; right = s.width; top = 0; bottom = s.height }

unfoldable pub full_rects : Screen → Screen
full_rects s = record s { rect0 = full_rect s; rect1 = full_rect s }

-- The rectangle that holds nothing.
unfoldable pub clear_rect_of : Screen → Rect
clear_rect_of s = record { left = s.width; right = 0; top = s.height; bottom = 0 }

-- `rect[index]`, for an index 0 or 1
unfoldable pub rect : Screen → ℕ → Rect
rect s index = if index == 0 then s.rect0 else s.rect1

unfoldable pub clear_rect : Screen → ℕ → Screen
clear_rect s index =
    if index == 0
    then record s { rect0 = clear_rect_of s }
    else record s { rect1 = clear_rect_of s }
