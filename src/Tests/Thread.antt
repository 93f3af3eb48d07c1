-- ===== src/Tests/Thread.antt =====
-- The thread at concrete inputs.
use lenovo_magicbay_hud_linu.Frame.Block.{make_block}
use lenovo_magicbay_hud_linu.Base.{
  enoent, etimedout, some, ℕ, ◌+◌, ◌*◌, ◌<◌, ◌≡◌, ◌⊎◌, refl, true, false, [], ◌∷◌, arith, fail,
  failed, inl, inr, none, leb, ◌&&◌, Bool-cases,
}
use lenovo_magicbay_hud_linu.Base.Loop.{first_from, last_from}
use lenovo_magicbay_hud_linu.Base.Memory.{Memory}
use lenovo_magicbay_hud_linu.Frame.{
  full_rect, Rect, rect, update_change_rects, combine_rects, combine_rect, find_box, find_bottom,
  find_left, find_right, row_changed, col_changed, compare_line,
}
use lenovo_magicbay_hud_linu.Frame.Cursor.{
  draw_cursor, remove_cursor, add_cursor, clip, draws_nothing,
}
use lenovo_magicbay_hud_linu.Frame.Rects.{Contains, IsSmall, Fits}
use lenovo_magicbay_hud_linu.Frame.Tracks.{Delivered}
use lenovo_magicbay_hud_linu.Device.Events.{update, disable}
use lenovo_magicbay_hud_linu.Hal.{screen_of, disabled}
use lenovo_magicbay_hud_linu.Hal.Machine.{
  start_wait_urb, count_update, World, Urb, Tick, draw, no_pixels, send_frame, do_update,
  proc_events, state_machine, is_enabled,
}
use lenovo_magicbay_hud_linu.Hal.Machine.Send.{Shows, send_frame-Shows, send_frame_idle}
use lenovo_magicbay_hud_linu.Hal.Machine.Ready.{ready}
use lenovo_magicbay_hud_linu.Hal.Machine.States.{
  taken, state_machine_refines, state_machine_updates,
}
use lenovo_magicbay_hud_linu.Hal.Machine.Refresh.{refreshed, state_machine_refreshes}
use lenovo_magicbay_hud_linu.Hal.Machine.Lost.{send_frame_forgets, IsForgotten}
use lenovo_magicbay_hud_linu.Tests.Frames.{one_pixel}
use lenovo_magicbay_hud_linu.Tests.Displays.{tiny_hal}
use lenovo_magicbay_hud_linu.Tests.Chip.{parity_usb}

abbrev pub tiny_world : World
tiny_world = record { hal = tiny_hal; usb = parity_usb; blocks = [] }

abbrev pub good_urb : Urb
good_urb = record { submit = none; completes = true; status = none }

tiny-Fits : Fits (record { left = 8; right = 0; top = 4; bottom = 0 })
tiny-Fits = record {
  right_fits = omega arith;
  bottom_fits = omega arith;
  left_fits = omega arith;
  top_fits = omega arith;
}

pub tiny-IsSmall : IsSmall (screen_of tiny_hal)
tiny-IsSmall = record {
  width_fits = omega arith;
  height_fits = omega arith;
  fits0 = tiny-Fits;
  fits1 = tiny-Fits;
}

tiny_pixels : no_pixels (ready tiny_world) ≡ false
unfolding draw draw_cursor remove_cursor add_cursor clip draws_nothing update_change_rects
    combine_rects combine_rect find_box find_bottom find_left find_right row_changed col_changed
    compare_line first_from last_from rect
tiny_pixels = refl

pub elsewhere :
    (row col : ℕ)
    → row < 4
    → col < 8
    → (leb 2 row && leb 4 col) ≡ false
    → one_pixel (row * 8 + col) ≡ 0
elsewhere row col p q e = ground arith

tiny-Delivered :
    Delivered
      (screen_of (ready tiny_world))
      (rect (screen_of (ready tiny_world)) 0)
      (λ i. 0)
      one_pixel
unfolding draw draw_cursor remove_cursor add_cursor clip draws_nothing update_change_rects
    combine_rects combine_rect find_box find_bottom find_left find_right row_changed col_changed
    compare_line first_from last_from rect
tiny-Delivered row col p q = elim (Bool-cases (leb 2 row && leb 4 col)) [
  | inl e ↦ inl ((ground arith, p, ground arith, q), refl)
  | inr e ↦ inr ((λ i. absurd (ground (arith, i, e))), elsewhere row col p q e)
]

send_frame-Shows_example :
    Shows tiny_world (ready tiny_world) (send_frame good_urb 100 tiny_world).1 one_pixel (λ i. 0)
send_frame-Shows_example =
    send_frame-Shows good_urb 100 tiny_world (λ i. 0) (λ i. 0) one_pixel tiny-IsSmall
      (λ row col p q. inl refl) (λ row col p q. inl refl) tiny_pixels tiny-Delivered

-- Nothing has changed.
abbrev still_world : World
still_world = record tiny_world { hal = record tiny_hal { desktop = λ i. 0 } }

still_pixels : no_pixels (ready still_world) ≡ true
unfolding draw draw_cursor remove_cursor add_cursor clip draws_nothing update_change_rects
    combine_rects combine_rect find_box find_bottom find_left find_right row_changed col_changed
    compare_line first_from last_from rect
still_pixels = refl

still-IsSmall : IsSmall (screen_of still_world.hal)
still-IsSmall = record {
  width_fits = omega arith;
  height_fits = omega arith;
  fits0 = tiny-Fits;
  fits1 = tiny-Fits;
}

send_frame_idle_example :
    let h = ready still_world in
    (send_frame good_urb 100 still_world ≡ (fail failed, record still_world { hal = h }))
    × ((row col : ℕ)
        → row < h.mode.height
        → col < h.mode.width
        → 0 ≡ h.desktop (row * h.mode.width + col))
    × (h.frame_index ≡ 0)
send_frame_idle_example =
    send_frame_idle good_urb 100 still_world (λ i. 0) still-IsSmall (λ row col p q. inl refl)
      still_pixels

-- Two updates, and two updates with the display switched off after the first.
abbrev busy_tick : Tick
busy_tick = record {
  woken = true;
  events = update 0 ∷ update 0 ∷ [];
  now = 50;
  after = 60;
  urb = good_urb;
}

abbrev off_tick : Tick
off_tick = record busy_tick { events = update 0 ∷ disable ∷ update 0 ∷ [] }

state_machine_refines_example :
    let w' = state_machine off_tick tiny_world in
    (false ≡ true → w' ≡ tiny_world)
    × (false ≡ false
        → (w'.hal.state ≡ disabled)
          × ((w'.blocks ≡ []) ⊎ ((block : Memory × ℕ) × (w'.blocks ≡ block ∷ [])))
          × (is_enabled w'.hal.state ≡ false → w'.blocks ≡ []))
state_machine_refines_example = state_machine_refines off_tick tiny_world

state_machine_updates_example :
    let w' = (proc_events (taken busy_tick) (tiny_world, false)).0 in
    (state_machine busy_tick tiny_world ≡ do_update good_urb 60 w') × (w'.blocks ≡ [])
state_machine_updates_example = state_machine_updates busy_tick tiny_world refl refl refl

-- The thread wakes up 2.5 seconds after the last block.
abbrev late_tick : Tick
late_tick = record { woken = false; events = []; now = 2500; after = 2510; urb = good_urb }

state_machine_refreshes_example :
    (r : Rect) × Contains r (full_rect (screen_of tiny_hal))
    × ((state_machine late_tick tiny_world).blocks
        ≡ (let h = ready (count_update (refreshed tiny_world)) in
            make_block h.usb_buf h.desktop h.mode.width r)
          ∷ [])
state_machine_refreshes_example =
    state_machine_refreshes late_tick tiny_world refl refl refl refl (omega arith) tiny-IsSmall
      (omega arith)

-- A transfer that does not complete in time.
abbrev slow_urb : Urb
slow_urb = record { submit = none; completes = false; status = some enoent }

slow-etimedout : start_wait_urb slow_urb ≡ fail etimedout
unfolding start_wait_urb
slow-etimedout = refl

send_frame_forgets_example :
    let (sent, w') = send_frame slow_urb 100 tiny_world in
    (sent ≡ fail etimedout) × IsForgotten tiny_world w'
send_frame_forgets_example =
    send_frame_forgets slow_urb 100 tiny_world etimedout slow-etimedout tiny_pixels
