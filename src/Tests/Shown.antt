-- ===== src/Tests/Shown.antt =====
-- A picture on its way to the chip at a concrete input.
use lenovo_magicbay_hud_linu.Base.{
  ℕ, ◌+◌, ◌*◌, ◌<◌, ◌≡◌, ◌∙◌, refl, sym, ap, false, arith, leb, ◌&&◌, Bool-cases, inl, inr,
}
use lenovo_magicbay_hud_linu.Base.Loop.{first_from, last_from}
use lenovo_magicbay_hud_linu.Base.Memory.{copy, copy-inside}
use lenovo_magicbay_hud_linu.Frame.{
  rect, update_change_rects, combine_rects, combine_rect, find_box, find_bottom, find_left,
  find_right, row_changed, col_changed, compare_line,
}
use lenovo_magicbay_hud_linu.Frame.Cursor.{
  draw_cursor, remove_cursor, add_cursor, clip, draws_nothing,
}
use lenovo_magicbay_hud_linu.Frame.Rects.{IsSmall}
use lenovo_magicbay_hud_linu.Hal.{screen_of}
use lenovo_magicbay_hud_linu.Hal.Machine.{World, draw, no_pixels, send_frame}
use lenovo_magicbay_hud_linu.Hal.Machine.Ready.{ready}
use lenovo_magicbay_hud_linu.Hal.Modes.{find_desc, find_format, support_formats, fourcc_xrgb8888}
use lenovo_magicbay_hud_linu.Hal.Update.{Picture, update_frame, copy_picture}
use lenovo_magicbay_hud_linu.Hal.Update.Shown.{Received, Shown, Sent, update_frame-Shown}
use lenovo_magicbay_hud_linu.Tests.Frames.{one_pixel}
use lenovo_magicbay_hud_linu.Tests.Displays.{tiny_hal, xrgb, xrgb_known}
use lenovo_magicbay_hud_linu.Tests.Thread.{tiny_world, tiny-IsSmall, good_urb, elsewhere}

-- A black display gets a picture with one pixel that is not.
abbrev black_world : World
black_world = record tiny_world { hal = record tiny_hal { desktop = λ i. 0 } }

abbrev dotted : Picture
dotted = record { pixels = one_pixel; bytes = λ i. 0; pitch = 32; len = 128 }

abbrev dotted_world : World
dotted_world = record black_world {
  hal = (update_frame false dotted fourcc_xrgb8888 black_world.hal).1;
}

dotted_pixels : no_pixels (ready dotted_world) ≡ false
unfolding draw draw_cursor remove_cursor add_cursor clip draws_nothing update_change_rects
    combine_rects combine_rect find_box find_bottom find_left find_right row_changed col_changed
    compare_line first_from last_from rect update_frame copy_picture find_desc find_format
    support_formats copy
dotted_pixels = refl

dotted_desktop :
    (row col : ℕ)
    → row < 4
    → col < 8
    → one_pixel (row * 8 + col) ≡ copy (λ i. 0) 0 one_pixel 0 32 (row * 8 + col)
dotted_desktop row col p q =
    ap one_pixel (omega arith)
    ∙ sym (copy-inside (λ i. 0) 0 one_pixel 0 32 (row * 8 + col) (omega arith) (omega arith))

dotted-Received : Received dotted_world (λ i. 0) one_pixel
unfolding draw draw_cursor remove_cursor add_cursor clip draws_nothing update_change_rects
    combine_rects combine_rect find_box find_bottom find_left find_right row_changed col_changed
    compare_line first_from last_from rect update_frame copy_picture find_desc find_format
    support_formats copy
dotted-Received = inr (
  refl,
  λ row col p q. elim (Bool-cases (leb 2 row && leb 4 col)) [
    | inl e ↦ inl ((ground arith, p, ground arith, q), dotted_desktop row col p q)
    | inr e ↦ inr ((λ i. absurd (ground (arith, i, e))), elsewhere row col p q e)
  ],
)

black-IsSmall : IsSmall (screen_of black_world.hal)
black-IsSmall = record {
  width_fits = tiny-IsSmall.width_fits;
  height_fits = tiny-IsSmall.height_fits;
  fits0 = tiny-IsSmall.fits0;
  fits1 = tiny-IsSmall.fits1;
}

update_frame-Shown_example :
    Shown black_world.hal one_pixel dotted.pixels 8
    × Sent dotted_world (send_frame good_urb 100 dotted_world).1
update_frame-Shown_example =
    update_frame-Shown good_urb 100 black_world dotted fourcc_xrgb8888 xrgb (λ i. 0) (λ i. 0)
      one_pixel refl (xrgb_known, refl) (refl, refl) refl black-IsSmall (λ row col p q. inl refl)
      (λ row col p q. inl refl) dotted-Received
