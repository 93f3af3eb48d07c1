-- ===== src/Hal/Machine/Ready.antt =====
-- What `send_frame` of `usb_hal/usb_hal_thread.c` does before it sends: the pointer is drawn and
-- the changes are detected.
use mathlib.Core.Path.{subst}
use lenovo_magicbay_hud_linu.Base.{ℕ, ◌+◌, ◌*◌, ◌<◌, ◌≡◌, sym}
use lenovo_magicbay_hud_linu.Frame.{Pixels, Screen, update_change_rects, rect}
use lenovo_magicbay_hud_linu.Frame.Rects.{Contains, IsSmall, update_change_rects_synchronises}
use lenovo_magicbay_hud_linu.Frame.Tracks.{
  update_change_rects-Contains, update_change_rects-rebuild, Tracks, update_change_rects-Tracks,
}
use lenovo_magicbay_hud_linu.Hal.{Hal, screen_of}
use lenovo_magicbay_hud_linu.Hal.Machine.{World, draw, detect, count_send}

-- The state after the pointer is drawn and the changes are detected.
abbrev pub ready : World → Hal
ready w = detect (draw (count_send w.hal))

draw-IsSmall : (h : Hal) → IsSmall (screen_of h) → IsSmall (screen_of (draw h))
unfolding draw
draw-IsSmall h s = record {
  width_fits = s.width_fits;
  height_fits = s.height_fits;
  fits0 = s.fits0;
  fits1 = s.fits1;
}

draw-Tracks :
    (h : Hal) (shown : Pixels) (i : ℕ)
    → Tracks (screen_of h) shown (rect (screen_of h) i)
    → Tracks (screen_of (draw h)) shown (rect (screen_of (draw h)) i)
unfolding draw rect
draw-Tracks h shown i t = t

detect-screen : (h : Hal) → screen_of (detect h) ≡ update_change_rects (screen_of h)
detect-screen h = update_change_rects-rebuild (screen_of h)

pub ready-Tracks :
    (w : World) (shown : Pixels) (i : ℕ)
    → IsSmall (screen_of w.hal)
    → Tracks (screen_of w.hal) shown (rect (screen_of w.hal) i)
    → Tracks (screen_of (ready w)) shown (rect (screen_of (ready w)) i)
ready-Tracks w shown i small t =
    let h = draw (count_send w.hal) in
    subst (λ (s : Screen). Tracks s shown (rect s i)) (sym (detect-screen h))
      (update_change_rects-Tracks (screen_of h) shown i (draw-IsSmall (count_send w.hal) small)
        (draw-Tracks (count_send w.hal) shown i t))

-- The shadow agrees with the desktop once the changes are detected.
pub ready-Agrees :
    (w : World) (row col : ℕ)
    → let h = ready w in
      row < h.mode.height
      → col < h.mode.width
      → h.image (row * h.mode.width + col) ≡ h.desktop (row * h.mode.width + col)
ready-Agrees w row col p q =
    let s = screen_of (draw (count_send w.hal)) in
    subst (λ (s' : Screen). s'.image (row * s'.width + col) ≡ s'.desktop (row * s'.width + col))
      (sym (detect-screen (draw (count_send w.hal))))
      (update_change_rects_synchronises s row col p q).0

-- The rectangle that is sent holds the one that was there before.
pub ready-Contains :
    (w : World) (i : ℕ)
    → IsSmall (screen_of w.hal)
    → Contains (rect (screen_of (ready w)) i) (rect (screen_of w.hal) i)
unfolding draw rect
ready-Contains w i small =
    let h = draw (count_send w.hal) in
    subst (λ (s : Screen). Contains (rect s i) (rect (screen_of w.hal) i)) (sym (detect-screen h))
      (update_change_rects-Contains (screen_of h) i (draw-IsSmall (count_send w.hal) small))
