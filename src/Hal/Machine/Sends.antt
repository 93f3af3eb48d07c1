-- ===== src/Hal/Machine/Sends.antt =====
-- How many blocks an update sends: `do_update` and `send_frame` of `usb_hal/usb_hal_thread.c`.
use mathlib.Core.Path.{subst}
use lenovo_magicbay_hud_linu.Base.{
  ◌+◌, leb, ℕ, ◌≡◌, ◌∙◌, refl, sym, ap, ◌⊎◌, inl, inr, Bool, true, false, ◌∷◌, ◌==◌, Bool-cases, ok,
  fail, Outcome, if◌then◌else◌,
}
use lenovo_magicbay_hud_linu.Base.Memory.{Memory}
use lenovo_magicbay_hud_linu.Hal.{Hal}
use lenovo_magicbay_hud_linu.Hal.Machine.{
  update_if, video_after, World, Urb, Tick, draw, no_pixels, count_update, send_block, send_frame,
  start_video, do_update, check_idle,
}
use lenovo_magicbay_hud_linu.Hal.Machine.Send.{send_frame-empty, send_frame-block}
use lenovo_magicbay_hud_linu.Hal.Machine.Ready.{ready}

-- Nothing that sends a block changes the state, and at most one block is sent.
abbrev pub Sends : World → World → Type 0
Sends w w' =
    (w'.hal.state ≡ w.hal.state)
    × ((w'.blocks ≡ w.blocks) ⊎ ((block : Memory × ℕ) × (w'.blocks ≡ block ∷ w.blocks)))

send_block-state : (urb : Urb) (now : ℕ) (h : Hal) → (send_block urb now h).1.0.state ≡ h.state
unfolding send_block
send_block-state urb now h = refl

send_frame-Sends : (urb : Urb) (now : ℕ) (w : World) → Sends w (send_frame urb now w).1
unfolding draw
send_frame-Sends urb now w = elim (Bool-cases (no_pixels (ready w))) [
  | inl e ↦ subst (Sends w) (sym (ap (λ r. r.1) (send_frame-empty urb now w e))) (refl, inl refl)
  | inr e ↦
      subst (Sends w) (sym (ap (λ r. r.1) (send_frame-block urb now w e)))
        (send_block-state urb now (ready w), inr (_, refl))
]

start_video-if : (b : Bool) (w w' : World) → Sends w w' → Sends w (if b then start_video w' else w')
unfolding start_video
start_video-if true w w' s = s
start_video-if false w w' s = s

video_after-Sends :
    (o : Outcome (Unit {0})) (w w' : World) → Sends w w' → Sends w (video_after o w')
unfolding video_after
video_after-Sends (fail e) w w' s = s
video_after-Sends (ok t) w w' s = start_video-if (w'.hal.first_buf_send == 0) w w' s

do_update-Sends : (urb : Urb) (now : ℕ) (w : World) → Sends w (do_update urb now w)
unfolding do_update
do_update-Sends urb now w =
    video_after-Sends (send_frame urb now (count_update w)).0 w
      (send_frame urb now (count_update w)).1 (send_frame-Sends urb now (count_update w))

-- The same of the rest of a call, where `b` says that the display is on.
abbrev pub Quiet : World → World × Bool → Type 0
Quiet w r = (r.0.hal.state ≡ w.hal.state) × (r.0.blocks ≡ w.blocks)

pub check_idle-Quiet : (now : ℕ) (w : World) → Quiet w (check_idle now w)
unfolding check_idle
check_idle-Quiet now w = elim (Bool-cases w.hal.mouse_moving) [
  | inl e ↦ rw (check_idle, e) (refl, refl)
  | inr e ↦ elim (Bool-cases (leb (w.hal.update_time + 2500) now)) [
    | inl f ↦ rw (check_idle, e, f) (refl, refl)
    | inr f ↦ rw (check_idle, e, f) (refl, refl)
  ]
]

pub update_if-Sends :
    (t : Tick) (w : World) (r : World × Bool) → Quiet w r → Sends w (update_if t r)
update_if-Sends t w (w', true) (p, q) =
    let (p', o) = do_update-Sends t.urb t.after w' in
    (
      p' ∙ p,
      elim o [ inl e ↦ inl (e ∙ q) | inr (block, e) ↦ inr (block, e ∙ ap (λ l. block ∷ l) q) ],
    )
update_if-Sends t w (w', false) (p, q) = (p, inl q)
