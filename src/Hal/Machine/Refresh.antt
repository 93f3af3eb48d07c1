-- ===== src/Hal/Machine/Refresh.antt =====
-- The full picture that is sent when nothing was sent for a while.
use mathlib.Core.Path.{subst}
use lenovo_magicbay_hud_linu.Base.{
  ℕ, ◌+◌, ◌<◌, ◌≤◌, ◌≡◌, ◌∙◌, refl, ap, Bool, true, false, [], ◌∷◌, ◌==◌, Bool-cases, inl, inr,
  arith, leb, Outcome, ok, fail, if◌then◌else◌,
}
use lenovo_magicbay_hud_linu.Frame.{Rect, Screen, full_rects, full_rect, rect}
use lenovo_magicbay_hud_linu.Frame.Block.{make_block}
use lenovo_magicbay_hud_linu.Frame.Rects.{Contains, Fits, IsSmall}
use lenovo_magicbay_hud_linu.Hal.{screen_of, with_screen}
use lenovo_magicbay_hud_linu.Hal.Machine.{
  draw, World, Urb, Tick, send_frame, count_update, video_after, start_video, do_update, check_idle,
  idle_ms, finish, update_if, proc_events, state_machine, is_enabled,
}
use lenovo_magicbay_hud_linu.Hal.Machine.Send.{send_frame-sent}
use lenovo_magicbay_hud_linu.Hal.Machine.Ready.{ready, ready-Contains}
use lenovo_magicbay_hud_linu.Hal.Machine.States.{taken, finish-on, state_machine-awake}

-- The state with both rectangles full.
abbrev pub refreshed : World → World
refreshed w = record w { hal = with_screen w.hal (full_rects (screen_of w.hal)) }

video_after-blocks : (o : Outcome (Unit {0})) (w : World) → (video_after o w).blocks ≡ w.blocks
unfolding video_after start_video
video_after-blocks (fail e) w = refl
video_after-blocks (ok t) w = elim (Bool-cases (w.hal.first_buf_send == 0)) [
  | inl e ↦ rw (video_after, e)
  | inr e ↦ rw (video_after, e)
]

check_idle-late :
    (now : ℕ) (w : World)
    → w.hal.mouse_moving ≡ false
    → w.hal.update_time + idle_ms ≤ now
    → check_idle now w ≡ (refreshed w, true)
unfolding check_idle
check_idle-late now w still late =
    let l : leb (w.hal.update_time + idle_ms) now ≡ true = ground arith in
    ap
      (λ (b : Bool).
        if b
        then (record w { hal = record w.hal { mouse_moving = false } }, true)
        else if leb (w.hal.update_time + idle_ms) now
        then (refreshed w, true)
        else (w, false))
      still
    ∙ ap (λ (b : Bool). if b then (refreshed w, true) else (w, false)) l

-- The same state once `usb_hal_dev_do_update` has counted the update.
abbrev counted : World → World
counted w = count_update (refreshed w)

refreshed-IsSmall : (w : World) → IsSmall (screen_of w.hal) → IsSmall (screen_of (counted w).hal)
unfolding full_rects full_rect
refreshed-IsSmall w s =
    let f : Fits (full_rect (screen_of w.hal)) = record {
      right_fits = s.width_fits;
      bottom_fits = s.height_fits;
      left_fits = omega arith;
      top_fits = omega arith;
    } in
    record { width_fits = s.width_fits; height_fits = s.height_fits; fits0 = f; fits1 = f }

refreshed-rect :
    (w : World) (i : ℕ) → rect (screen_of (counted w).hal) i ≡ full_rect (screen_of w.hal)
unfolding rect full_rects
refreshed-rect w i = elim (Bool-cases (i == 0)) [ inl e ↦ rw (rect, e) | inr e ↦ rw (rect, e) ]

refreshed-Contains :
    (w : World)
    → IsSmall (screen_of w.hal)
    → Contains
        (rect (screen_of (ready (counted w))) (ready (counted w)).frame_index)
        (full_rect (screen_of w.hal))
unfolding draw
refreshed-Contains w small =
    subst (Contains (rect (screen_of (ready (counted w))) w.hal.frame_index))
      (refreshed-rect w w.hal.frame_index)
      (ready-Contains (counted w) w.hal.frame_index (refreshed-IsSmall w small))

not_empty :
    (r : Rect) (s : Screen) → Contains r (full_rect s) → 0 < s.width → leb r.right r.left ≡ false
unfolding full_rect
not_empty r s c lt = let a = c.left_le in let b = c.right_le in ground arith

state_machine-late :
    (t : Tick) (w : World)
    → w.hal.suspended ≡ false
    → taken t ≡ []
    → is_enabled w.hal.state ≡ true
    → w.hal.mouse_moving ≡ false
    → w.hal.update_time + idle_ms ≤ t.now
    → state_machine t w ≡ do_update t.urb t.after (refreshed w)
unfolding proc_events
state_machine-late t w awake none_taken on still late =
    state_machine-awake t w awake
    ∙ ap (λ es. finish t (proc_events es (w, false))) none_taken
    ∙ finish-on t w false on
    ∙ ap (update_if t) (check_idle-late t.now w still late)

do_update-blocks :
    (urb : Urb) (now : ℕ) (w : World)
    → (do_update urb now w).blocks ≡ (send_frame urb now (count_update w)).1.blocks
unfolding do_update
do_update-blocks urb now w =
    video_after-blocks (send_frame urb now (count_update w)).0
      (send_frame urb now (count_update w)).1

-- If the bus is not suspended, the display is on, at least one pixel wide and small enough for the
-- masks, no event is taken, the pointer has not moved and the last block is 2.5 seconds old or
-- older, then one block is sent, of a rectangle that holds the whole screen.
pub state_machine_refreshes :
    (t : Tick) (w : World)
    → w.hal.suspended ≡ false
    → taken t ≡ []
    → is_enabled w.hal.state ≡ true
    → w.hal.mouse_moving ≡ false
    → w.hal.update_time + idle_ms ≤ t.now
    → IsSmall (screen_of w.hal)
    → 0 < w.hal.mode.width
    → (r : Rect) × Contains r (full_rect (screen_of w.hal))
      × ((state_machine t w).blocks
          ≡ (let h = ready (count_update (refreshed w)) in
              make_block h.usb_buf h.desktop h.mode.width r)
            ∷ w.blocks)
state_machine_refreshes t w awake none_taken on still late small lt =
    let h = ready (counted w) in
    let c = refreshed-Contains w small in
    (
      rect (screen_of h) h.frame_index,
      c,
      ap (λ v. v.blocks) (state_machine-late t w awake none_taken on still late)
          ∙ do_update-blocks t.urb t.after (refreshed w)
          ∙ send_frame-sent t.urb t.after (counted w)
              (not_empty (rect (screen_of h) h.frame_index) (screen_of w.hal) c lt),
    )
