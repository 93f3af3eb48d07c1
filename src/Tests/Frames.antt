-- ===== src/Tests/Frames.antt =====
-- The frame at concrete inputs.
use lenovo_magicbay_hud_linu.Base.{
  leb, ℕ, ◌+◌, ◌%◌, ◌<◌, ◌≤◌, ◌≡◌, refl, true, false, [], ◌∷◌, length, get_or, arith, some, none,
  if◌then◌else◌, ◌==◌,
}
use lenovo_magicbay_hud_linu.Base.Int.{pos_part, negsuc, ◌+ℤ◌, shr_ℤ}
use lenovo_magicbay_hud_linu.Base.Loop.{first_from, last_from}
use lenovo_magicbay_hud_linu.Frame.{
  find_bottom, find_left, find_right, row_changed, col_changed, compare_line, Pixels, Rect, Screen,
  find_box, update_change_rects, combine_rect,
}
use lenovo_magicbay_hud_linu.Frame.Box.{IsBox, find_box-IsBox, find_box-none}
use lenovo_magicbay_hud_linu.Frame.Differences.{Differs, Agrees, Inside}
use lenovo_magicbay_hud_linu.Frame.Rects.{
  Contains, IsSmall, update_change_rects_covers, update_change_rects_synchronises,
  combine_rect_overhang,
}
use lenovo_magicbay_hud_linu.Frame.Yuv.{yuv_pair, payload, luma, chroma_u, chroma_v}
use lenovo_magicbay_hud_linu.Frame.Yuv.Range.{yuv_pair_range}
use lenovo_magicbay_hud_linu.Frame.Block.{make_block, trailer}
use lenovo_magicbay_hud_linu.Frame.Block.Layout.{parse_header, make_block_layout}
use lenovo_magicbay_hud_linu.Frame.Cursor.{Cursor, Saved, add_cursor, remove_cursor}
use lenovo_magicbay_hud_linu.Frame.Cursor.Undo.{remove_cursor-add_cursor}

abbrev pub empty_rect : Rect
empty_rect = record { left = 8; right = 0; top = 4; bottom = 0 }

-- A screen of 8 by 4 pixels on which one pixel, in row 2 and column 5, has changed.
abbrev pub one_pixel : Pixels
one_pixel i = if i == 21 then 0xFFFFFF else 0

abbrev small_screen : Screen
small_screen = record {
  width = 8;
  height = 4;
  image = λ i. 0;
  desktop = one_pixel;
  rect0 = empty_rect;
  rect1 = empty_rect;
}

small_screen-IsSmall : IsSmall small_screen
small_screen-IsSmall = record {
  width_fits = omega arith;
  height_fits = omega arith;
  fits0 = record {
    right_fits = omega arith;
    bottom_fits = omega arith;
    left_fits = omega arith;
    top_fits = omega arith;
  };
  fits1 = record {
    right_fits = omega arith;
    bottom_fits = omega arith;
    left_fits = omega arith;
    top_fits = omega arith;
  };
}

update_change_rects_covers_example :
    let s' = update_change_rects small_screen in
    ((row col : ℕ)
      → row < 4
      → col < 8
      → Differs small_screen row col
      → Inside s'.rect0 row col × Inside s'.rect1 row col)
    × Contains s'.rect0 empty_rect
    × Contains s'.rect1 empty_rect
    × IsSmall s'
update_change_rects_covers_example = update_change_rects_covers small_screen small_screen-IsSmall

update_change_rects_synchronises_example :
    Agrees (update_change_rects small_screen) 2 5
    × ((update_change_rects small_screen).desktop ≡ small_screen.desktop)
update_change_rects_synchronises_example =
    update_change_rects_synchronises small_screen 2 5 (omega arith) (omega arith)

small_box : find_box small_screen ≡ some (record { left = 5; right = 6; top = 2; bottom = 3 })
unfolding find_box find_bottom find_left find_right row_changed col_changed compare_line first_from
    last_from
small_box = refl

find_box-IsBox_example : IsBox small_screen (record { left = 5; right = 6; top = 2; bottom = 3 })
find_box-IsBox_example = find_box-IsBox small_screen small_box

abbrev still_screen : Screen
still_screen = record small_screen { desktop = λ i. 0 }

still_box : find_box still_screen ≡ none
unfolding find_box find_bottom find_left find_right row_changed col_changed compare_line first_from
    last_from
still_box = refl

find_box-none_example : Agrees still_screen 3 7
find_box-none_example = find_box-none still_screen still_box 3 7 (omega arith) (omega arith)

-- The right end of a screen of 1366 columns.
abbrev right_end : Rect
right_end = record { left = 1365; right = 1366; top = 3; bottom = 4 }

combine_rect_overhang_example :
    let u = combine_rect empty_rect right_end in
    (leb u.right 1366 ≡ false)
    × (u.right < 1370)
    × (u.left % 4 ≡ 0)
    × (u.right % 4 ≡ 0)
    × (u.top % 2 ≡ 0)
    × (u.bottom % 2 ≡ 0)
combine_rect_overhang_example = combine_rect_overhang empty_rect right_end 1366 refl (omega arith)

abbrev tile : Rect
tile = record { left = 4; right = 8; top = 2; bottom = 4 }

make_block_layout_example :
    let (m, len) = make_block (λ i. 0) one_pixel 8 tile in
    let pixels = payload one_pixel 8 tile in
    (parse_header m ≡ record { column = 4; row = 2; width = 4; height = 2 })
    × ((k : ℕ) → k < length pixels → m (8 + k) ≡ get_or pixels k 0)
    × ((k : ℕ) → k < 8 → m (8 + length pixels + k) ≡ get_or trailer k 0)
    × (len ≡ length pixels + 16)
make_block_layout_example =
    make_block_layout (λ i. 0) one_pixel 8 tile (omega arith) (omega arith) (omega arith)
      (omega arith) refl

yuv_pair_range_example :
    (u y0 v y1 : ℕ) × (yuv_pair 0xFF0000 0xFF ≡ u ∷ y0 ∷ v ∷ y1 ∷ [])
    × (u ≡ pos_part (shr_ℤ (chroma_u 0xFF0000 +ℤ chroma_u 0xFF) 2))
    × (v ≡ pos_part (shr_ℤ (chroma_v 0xFF0000 +ℤ chroma_v 0xFF) 2))
    × (y0 ≡ pos_part (luma 0xFF0000))
    × (y1 ≡ pos_part (luma 0xFF))
    × (15 ≤ u)
    × (u ≤ 240)
    × (15 ≤ v)
    × (v ≤ 240)
    × (16 ≤ y0)
    × (y0 ≤ 235)
    × (16 ≤ y1)
    × (y1 ≤ 235)
yuv_pair_range_example = yuv_pair_range 0xFF0000 0xFF

-- A pointer that hangs over the upper left corner.
abbrev pub corner_cursor : Cursor
corner_cursor = record {
  valid = true;
  buf = λ i. 0xFF0000FF;
  x = negsuc 1;
  y = negsuc 0;
  x1 = 0;
  y1 = 0;
  x2 = 4;
  y2 = 4;
}

abbrev pub no_saved : Saved
no_saved = record { valid = false; buf = λ i. 0; x1 = 0; y1 = 0; x2 = 0; y2 = 0 }

remove_cursor-add_cursor_example :
    let (drawn, saved) = add_cursor one_pixel 8 4 corner_cursor no_saved in
    remove_cursor drawn 8 saved 9 ≡ one_pixel 9
remove_cursor-add_cursor_example = remove_cursor-add_cursor one_pixel 8 4 corner_cursor no_saved 9
