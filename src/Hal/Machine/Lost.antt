-- ===== src/Hal/Machine/Lost.antt =====
-- What is left of a block whose transfer fails.
use mathlib.Core.Path.{subst}
use lenovo_magicbay_hud_linu.Base.{
  ℕ, ◌≡◌, ◌∙◌, ◌*◌, ◌+◌, ◌<◌, ◌==◌, refl, sym, ap, inl, inr, Bool-cases, Errno, Outcome, fail,
  false,
}
use lenovo_magicbay_hud_linu.Base.{ap, ◌+◌, false, ◌*◌, ◌==◌, fail, ◌<◌, Errno, Bool-cases, ◌≡◌}
use lenovo_magicbay_hud_linu.Frame.{Pixels, Screen, rect, clear_rect, clear_rect_of}
use lenovo_magicbay_hud_linu.Hal.{Hal, ℕ, screen_of}
use lenovo_magicbay_hud_linu.Hal.Machine.{
  count_success, draw, World, Urb, no_pixels, start_wait_urb, count_success, send_frame, send_block,
}
use lenovo_magicbay_hud_linu.Hal.Machine.Send.{
  other_index, send_frame-block, sent-screen, sent_state, index_flips,
}
use lenovo_magicbay_hud_linu.Hal.Machine.Ready.{ready, ready-Agrees}

rect-clear_rect : (s : Screen) (i : ℕ) → rect (clear_rect s i) i ≡ clear_rect_of s
unfolding rect clear_rect
rect-clear_rect s i = elim (Bool-cases (i == 0)) [
  | inl e ↦ rw (rect, clear_rect, e)
  | inr e ↦ rw (rect, clear_rect, e)
]

image-clear_rect : (s : Screen) (i : ℕ) → (clear_rect s i).image ≡ s.image
unfolding clear_rect
image-clear_rect s i = elim (Bool-cases (i == 0)) [
  | inl e ↦ rw (clear_rect, e)
  | inr e ↦ rw (clear_rect, e)
]

-- What the state after a failed transfer is like.
abbrev pub IsForgotten : World → World → Type 0
IsForgotten w w' =
    let h = ready w in
    (rect (screen_of w'.hal) h.frame_index ≡ clear_rect_of (screen_of h))
    × (w'.hal.frame_index ≡ other_index h.frame_index)
    × (w'.hal.stat.send_success ≡ w.hal.stat.send_success)
    × ((row col : ℕ)
        → row < h.mode.height
        → col < h.mode.width
        → w'.hal.image (row * h.mode.width + col) ≡ h.desktop (row * h.mode.width + col))

sent-success :
    (urb : Urb) (now : ℕ) (h : Hal) (e : Errno)
    → start_wait_urb urb ≡ fail e
    → (sent_state urb now h).stat.send_success ≡ h.stat.send_success
unfolding send_block
sent-success urb now h e failed_with = ap (λ o. (count_success o h.stat).send_success) failed_with

sent-code : (urb : Urb) (now : ℕ) (h : Hal) → (send_block urb now h).0 ≡ start_wait_urb urb
unfolding send_block
sent-code urb now h = refl

-- If there are pixels to send and the transfer of the block fails, its code is returned, but the
-- rectangle of the frame is cleared, it is the other frame's turn, no success is counted, and the
-- shadow image is the desktop, as if the block had arrived.
pub send_frame_forgets :
    (urb : Urb) (now : ℕ) (w : World) (e : Errno)
    → start_wait_urb urb ≡ fail e
    → no_pixels (ready w) ≡ false
    → let (sent, w') = send_frame urb now w in (sent ≡ fail e) × IsForgotten w w'
unfolding draw
send_frame_forgets urb now w e failed_with some_pixels =
    let h = ready w in
    let i = h.frame_index in
    let screen = sent-screen urb now h in
    subst (λ (r : Outcome (Unit {0}) × World). (r.0 ≡ fail e) × IsForgotten w r.1)
      (sym (send_frame-block urb now w some_pixels))
      (
        sent-code urb now h ∙ failed_with,
        (
          ap (λ s. rect s i) screen ∙ rect-clear_rect (screen_of h) i,
          index_flips urb now h,
          sent-success urb now h e failed_with,
          (λ row col p q.
              ap (λ (s : Screen). s.image (row * h.mode.width + col)) (screen ∙ refl)
              ∙ ap (λ (f : Pixels). f (row * h.mode.width + col)) (image-clear_rect (screen_of h) i)
              ∙ ready-Agrees w row col p q),
        ),
      )
