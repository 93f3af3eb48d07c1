-- ===== src/Hal/Update/Shown.antt =====
-- A picture on its way from the DRM side to the chip: usb_hal/usb_hal_interface.c hands it to
-- usb_hal/usb_hal_thread.c.
use mathlib.Core.Path.{subst}
use lenovo_magicbay_hud_linu.Base.{
  Option-cases, ℕ, ◌+◌, ◌*◌, ◌/◌, ◌%◌, ◌<◌, ◌≡◌, ◌∙◌, ◌⊎◌, refl, sym, ap, true, false, inl, inr,
  some, ◌==◌, ◌∷◌,
}
use lenovo_magicbay_hud_linu.Frame.{
  Pixels, Screen, rect, update_change_rects, combine_rects, find_box,
}
use lenovo_magicbay_hud_linu.Frame.Block.{make_block}
use lenovo_magicbay_hud_linu.Frame.Cursor.{
  clip, draws_nothing, Cursor, Saved, draw_cursor, remove_cursor, add_cursor,
}
use lenovo_magicbay_hud_linu.Frame.Rects.{IsSmall}
use lenovo_magicbay_hud_linu.Frame.Tracks.{Tracks, Delivered}
use lenovo_magicbay_hud_linu.Hal.{Hal, screen_of}
use lenovo_magicbay_hud_linu.Hal.Machine.{
  send_frame, World, Urb, draw, no_pixels, count_send, is_enabled,
}
use lenovo_magicbay_hud_linu.Hal.Machine.Send.{other_index, send_frame-Shows, send_frame_idle}
use lenovo_magicbay_hud_linu.Hal.Machine.Ready.{ready}
use lenovo_magicbay_hud_linu.Hal.Modes.{FormatDesc, find_desc, color_rgb}
use lenovo_magicbay_hud_linu.Hal.Update.{Picture, rgb_copy, update_frame, forget_cursor}
use lenovo_magicbay_hud_linu.Hal.Update.Rows.{copied, rgb_copy-pixel}

remove-gone :
    (desktop : Pixels) (width : ℕ) (old : Saved)
    → old.valid ≡ false
    → remove_cursor desktop width old ≡ desktop
unfolding remove_cursor
remove-gone desktop width old gone = rw (remove_cursor, gone) refl

add-hidden :
    (desktop : Pixels) (width height : ℕ) (c : Cursor) (old : Saved)
    → c.valid ≡ false
    → (add_cursor desktop width height c old).0 ≡ desktop
unfolding add_cursor draws_nothing
add-hidden desktop width height c old hidden =
    let n : draws_nothing c (clip c width height) ≡ true = rw (draws_nothing, hidden) refl in
    rw (add_cursor, n) refl

-- Without a pointer the desktop is not drawn on.
draw_cursor-hidden :
    (desktop : Pixels) (width height : ℕ) (c : Cursor) (old : Saved)
    → c.valid ≡ false
    → old.valid ≡ false
    → (draw_cursor desktop width height c old).0 ≡ desktop
unfolding draw_cursor
draw_cursor-hidden desktop width height c old hidden gone =
    add-hidden (remove_cursor desktop width old) width height c old hidden
    ∙ remove-gone desktop width old gone

detect-desktop : (s : Screen) → (update_change_rects s).desktop ≡ s.desktop
unfolding update_change_rects combine_rects
detect-desktop s = elim (Option-cases (find_box s)) [
  | inl e ↦ rw (update_change_rects, e) refl
  | inr (b, e) ↦ rw (update_change_rects, e) refl
]

ready-desktop :
    (w : World)
    → w.hal.cursor.valid ≡ false
    → w.hal.old_cursor.valid ≡ false
    → (ready w).desktop ≡ w.hal.desktop
unfolding draw
ready-desktop w hidden gone =
    let h = draw (count_send w.hal) in
    detect-desktop (screen_of h)
    ∙ draw_cursor-hidden w.hal.desktop w.hal.mode.width w.hal.mode.height w.hal.cursor
        w.hal.old_cursor hidden gone

-- The state of the display with the picture.
abbrev with_picture : Hal → Picture → Hal
with_picture h p = forget_cursor (record h { desktop = rgb_copy h p; desktop_len = 0 })

-- What the frame whose turn it is shows after the block, if there is one.
abbrev pub Received : World → Pixels → Pixels → Type 0
Received w shown shown' =
    ((no_pixels (ready w) ≡ true) × (shown' ≡ shown))
    ⊎ ((no_pixels (ready w) ≡ false)
        × Delivered (screen_of (ready w)) (rect (screen_of (ready w)) w.hal.frame_index) shown
            shown')

-- At most one block is sent, of the rectangle of the frame whose turn it is.
abbrev pub Sent : World → World → Type 0
Sent w w' =
    (w'.blocks ≡ w.blocks)
    ⊎ (let h = ready w in
        w'.blocks
        ≡ make_block h.usb_buf h.desktop h.mode.width (rect (screen_of h) h.frame_index) ∷ w.blocks)

-- The frame shows all of the pixels.
abbrev pub Shown : Hal → Pixels → Pixels → ℕ → Type 0
Shown h shown source stride =
    (row col : ℕ)
    → row < h.mode.height
    → col < h.mode.width
    → shown (row * h.mode.width + col) ≡ source (row * stride + col)

Received-Shown :
    (urb : Urb) (now : ℕ) (w : World) (shown other shown' : Pixels)
    → IsSmall (screen_of w.hal)
    → Tracks (screen_of w.hal) shown (rect (screen_of w.hal) w.hal.frame_index)
    → Tracks (screen_of w.hal) other (rect (screen_of w.hal) (other_index w.hal.frame_index))
    → w.hal.cursor.valid ≡ false
    → w.hal.old_cursor.valid ≡ false
    → Received w shown shown'
    → Shown w.hal shown' w.hal.desktop w.hal.mode.width × Sent w (send_frame urb now w).1
unfolding draw
Received-Shown urb now w shown other shown' small t t' hidden gone (inl (n, same)) =
    let (code, all, turn) = send_frame_idle urb now w shown small t n in
    (
      (λ row col lt lt'.
          ap (λ (m : Pixels). m (row * w.hal.mode.width + col)) same
          ∙ all row col lt lt'
          ∙ ap (λ (m : Pixels). m (row * w.hal.mode.width + col)) (ready-desktop w hidden gone)),
      inl (ap (λ r. r.1.blocks) code),
    )
Received-Shown urb now w shown other shown' small t t' hidden gone (inr (n, d)) =
    let (blocks, all, c, c', turn) = send_frame-Shows urb now w shown other shown' small t t' n d in
    (
      (λ row col lt lt'.
          all row col lt lt'
          ∙ ap (λ (m : Pixels). m (row * w.hal.mode.width + col)) (ready-desktop w hidden gone)),
      inr blocks,
    )

-- On a display that is on, without a pointer, whose size and rectangles fit the masks and whose
-- two frames in the chip show the shadow image but for pixels inside their rectangles, let an RGB
-- picture be handed over, with a pitch of whole pixels and the length of the display's rows. Then
-- the next call of `send_frame` sends no block or one, of the rectangle of the frame whose turn it
-- is, and this frame, once it has received the block if there is one, shows every pixel of the
-- picture in its place.
pub update_frame-Shown :
    (urb : Urb) (now : ℕ) (w : World) (p : Picture) (fourcc : ℕ) (desc : FormatDesc)
    (shown other shown' : Pixels)
    → is_enabled w.hal.state ≡ true
    → (find_desc fourcc ≡ some desc) × ((desc.color_fmt == color_rgb) ≡ true)
    → (p.pitch % 4 ≡ 0) × (p.len ≡ w.hal.mode.height * p.pitch)
    → w.hal.cursor.valid ≡ false
    → IsSmall (screen_of w.hal)
    → Tracks (screen_of w.hal) shown (rect (screen_of w.hal) w.hal.frame_index)
    → Tracks (screen_of w.hal) other (rect (screen_of w.hal) (other_index w.hal.frame_index))
    → let w1 : World = record w { hal = (update_frame false p fourcc w.hal).1 } in
      Received w1 shown shown'
      → Shown w.hal shown' p.pixels (p.pitch / 4) × Sent w1 (send_frame urb now w1).1
unfolding rect
update_frame-Shown urb now w p fourcc desc shown other shown' on (d, rgb) (al, len) hidden small t
      t' r =
    let e = ap (λ x. x.1) (copied false p fourcc w.hal desc on refl d rgb) in
    let at : Hal → World = λ h. record w { hal = h } in
    let v = at (with_picture w.hal p) in
    let small' : IsSmall (screen_of v.hal) = record {
      width_fits = small.width_fits;
      height_fits = small.height_fits;
      fits0 = small.fits0;
      fits1 = small.fits1;
    } in
    let (all, sent) =
      Received-Shown urb now v shown other shown' small' t t' hidden refl
        (subst (λ h. Received (at h) shown shown') e r) in
    (
      (λ row col lt lt'. all row col lt lt' ∙ rgb_copy-pixel w.hal p row col al len lt lt'),
      subst (λ h. Sent (at h) (send_frame urb now (at h)).1) (sym e) sent,
    )
