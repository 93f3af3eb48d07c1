-- ===== src/Hal/Machine.antt =====
-- The thread of `usb_hal/usb_hal_thread.c`: it takes the events out of the FIFO, switches the chip
-- on and off, and sends the blocks of changed pixels.
pub mod Ready
pub mod Send
pub mod Sends
pub mod States
pub mod Refresh
pub mod Lost
use lenovo_magicbay_hud_linu.Base.{
  ℕ, suc, zero, ◌+◌, Bool, true, false, List, [], ◌∷◌, Option, none, some, ◌==◌, leb, Errno, enoent,
  etimedout, failed, enomem, Outcome, ok, fail, if◌then◌else◌,
}
use lenovo_magicbay_hud_linu.Base.Memory.{Memory}
use lenovo_magicbay_hud_linu.Frame.{update_change_rects, rect, clear_rect, full_rects}
use lenovo_magicbay_hud_linu.Frame.Block.{make_block}
use lenovo_magicbay_hud_linu.Frame.Cursor.{draw_cursor}
use lenovo_magicbay_hud_linu.Device.{Usb, M}
use lenovo_magicbay_hud_linu.Device.Video.{set_video_enable}
use lenovo_magicbay_hud_linu.Device.Chip.{current_frame_index, set_screen_enable}
use lenovo_magicbay_hud_linu.Device.Events.{Event, enable, disable, update, event_proc}
use lenovo_magicbay_hud_linu.Hal.{
  Hal, DevState, unknown, enabled, disabled, count_up, screen_of, with_screen, Stat,
}

-- How a bulk transfer goes: the code of `usb_submit_urb`, whether it completes in time, and
-- `ctx.status`, each `none` for 0.
pub record Urb : Type 0 where
  pub submit : Option Errno
  pub completes : Bool
  pub status : Option Errno

abbrev pub code : Option Errno → Outcome (Unit {0})
code none = ok tt
code (some e) = fail e

-- `ctx.status == -ENOENT ? -ETIMEDOUT : ctx.status`
abbrev timeout_code : Option Errno → Outcome (Unit {0})
timeout_code none = ok tt
timeout_code (some enoent) = fail etimedout
timeout_code (some e) = fail e

unfoldable pub start_wait_urb : Urb → Outcome (Unit {0})
start_wait_urb u = elim u.submit [
  | some e ↦ fail e
  | none ↦ if u.completes then code u.status else timeout_code u.status
]

-- The device, its control transfers, and the buffers with their lengths that went to the bulk
-- endpoint, latest first.
pub record World : Type 0 where
  pub hal : Hal
  pub usb : Usb
  pub blocks : List (Memory × ℕ)

-- The pointer is drawn into the desktop buffer.
unfoldable pub draw : Hal → Hal
draw h =
    let (desktop, kept) = draw_cursor h.desktop h.mode.width h.mode.height h.cursor h.old_cursor in
    record h { desktop = desktop; old_cursor = kept }

abbrev pub detect : Hal → Hal
detect h = with_screen h (update_change_rects (screen_of h))

abbrev pub no_pixels : Hal → Bool
no_pixels h = let r = rect (screen_of h) h.frame_index in leb r.right r.left

abbrev pub count_send : Hal → Hal
count_send h = record h { stat = record h.stat { send_total = count_up h.stat.send_total } }

abbrev pub count_success : Outcome (Unit {0}) → Stat → Stat
count_success (ok t) s = record s { send_success = count_up s.send_success }
count_success (fail e) s = s

-- The block of the current rectangle goes out; `now` is the time after it.
unfoldable pub send_block : Urb → ℕ → Hal → Outcome (Unit {0}) × (Hal × (Memory × ℕ))
unfolding start_wait_urb
send_block urb now h =
    let block = make_block h.usb_buf h.desktop h.mode.width (rect (screen_of h) h.frame_index) in
    let h' = with_screen h (clear_rect (screen_of h) h.frame_index) in
    let sent = start_wait_urb urb in
    (
      sent,
      (
        record h' {
          usb_buf = block.0;
          usb_len = block.1;
          stat = count_success sent h.stat;
          frame_index = (if h.frame_index == 0 then 1 else 0);
          update_time = now;
        },
        block,
      ),
    )

-- `usb_hal_dev_send_frame`; a failed empty message after the block is only logged.
unfoldable pub send_frame : Urb → ℕ → World → Outcome (Unit {0}) × World
unfolding draw send_block
send_frame urb now w =
    let h = detect (draw (count_send w.hal)) in
    if no_pixels h
    then (fail failed, record w { hal = h })
    else let (sent, (h', block)) = send_block urb now h in
      (sent, record w { hal = h'; blocks = block ∷ w.blocks })

abbrev index_or_0 : Outcome ℕ → ℕ
index_or_0 (ok i) = i
index_or_0 (fail e) = 0

-- `usb_hal_dev_do_enable`: what fails is only logged.
unfoldable pub do_enable : Event → World → World
unfolding event_proc current_frame_index
do_enable event w =
    let u = (event_proc event w.hal.chip_id w.hal.port_type w.usb).1 in
    let (index, u') = current_frame_index u in
    record w {
      hal = record w.hal { frame_index = index_or_0 index; state = enabled; first_buf_send = 0 };
      usb = u';
    }

unfoldable pub do_disable : Event → World → World
unfolding event_proc
do_disable event w = record w {
  hal = record w.hal { state = disabled };
  usb = (event_proc event w.hal.chip_id w.hal.port_type w.usb).1;
}

-- The first block after switching on: pictures and screen go on, and everything is to be sent.
unfoldable pub start_video : World → World
unfolding set_video_enable set_screen_enable
start_video w =
    let u = (set_video_enable 1 w.usb).1 in
    let u' = (set_screen_enable 1 w.hal.chip_id w.hal.port_type u).1 in
    let h = record w.hal { first_buf_send = 1 } in
    record w { hal = with_screen h (full_rects (screen_of h)); usb = u' }

abbrev pub count_update : World → World
count_update w = record w {
  hal = record w.hal {
    stat = record w.hal.stat { update_event = count_up w.hal.stat.update_event };
    wait_send_cnt = 0;
  };
}

-- `if (ret) goto out;`, and the start of the pictures after the first block.
unfoldable pub video_after : Outcome (Unit {0}) → World → World
unfolding start_video
video_after (fail e) w = w
video_after (ok t) w = if w.hal.first_buf_send == 0 then start_video w else w

unfoldable pub do_update : Urb → ℕ → World → World
unfolding send_frame video_after
do_update urb now w = let (sent, w') = send_frame urb now (count_update w) in video_after sent w'

-- "in unknown state, only process enable event"
unfoldable pub state_unknown : Event → World → World
unfolding do_enable
state_unknown (enable info) w = do_enable (enable info) w
state_unknown disable w = w
state_unknown (update len) w = w

-- The switch on the state, with `bupdate`.
unfoldable pub proc_in : DevState → Event → World → Bool → World × Bool
unfolding state_unknown do_disable
proc_in unknown event w bupdate = (state_unknown event w, bupdate)
proc_in disabled event w bupdate = (state_unknown event w, bupdate)
proc_in enabled (enable info) w bupdate = (w, bupdate)
proc_in enabled disable w bupdate = (do_disable disable w, bupdate)
proc_in enabled (update len) w bupdate = (w, true)

-- The body of the loop over the FIFO.
unfoldable pub proc_event : Event → World × Bool → World × Bool
unfolding proc_in
proc_event event (w, bupdate) = proc_in w.hal.state event w bupdate

unfoldable pub proc_events : List Event → World × Bool → World × Bool
unfolding proc_event
proc_events [] s = s
proc_events (event ∷ events) s = proc_events events (proc_event event s)

-- One call of `usb_hal_state_machine`: whether `down_timeout` got the semaphore, what the FIFO
-- gives until it is empty, the times before and after, and how the bulk transfer would go.
pub record Tick : Type 0 where
  pub woken : Bool
  pub events : List Event
  pub now : ℕ
  pub after : ℕ
  pub urb : Urb

abbrev pub idle_ms : ℕ
idle_ms = 2500

-- Without an update event: the pointer moved, or nothing was sent for 2.5 seconds.
unfoldable pub check_idle : ℕ → World → World × Bool
check_idle now w =
    if w.hal.mouse_moving
    then (record w { hal = record w.hal { mouse_moving = false } }, true)
    else if leb (w.hal.update_time + idle_ms) now
    then (record w { hal = with_screen w.hal (full_rects (screen_of w.hal)) }, true)
    else (w, false)

abbrev pub is_enabled : DevState → Bool
is_enabled unknown = false
is_enabled enabled = true
is_enabled disabled = false

abbrev pub update_if : Tick → World × Bool → World
update_if t (w, bupdate) = if bupdate then do_update t.urb t.after w else w

-- What follows the loop.
unfoldable pub finish : Tick → World × Bool → World
unfolding check_idle do_update
finish t (w, bupdate) =
    if is_enabled w.hal.state
    then update_if t (if bupdate then (w, true) else check_idle t.now w)
    else w

unfoldable pub state_machine : Tick → World → World
unfolding proc_events finish
state_machine t w =
    if w.hal.suspended
    then w
    else finish t (if t.woken then proc_events t.events (w, false) else (w, false))

unfoldable run_ticks : List Tick → World → World
unfolding state_machine
run_ticks [] w = w
run_ticks (t ∷ ts) w = run_ticks ts (state_machine t w)

-- `usb_hal_state_machine_entry`: the calls until `thread_run_flag` is cleared, once its two
-- buffers are allocated.
unfoldable state_machine_entry : Bool → Bool → List Tick → World → Outcome World
unfolding run_ticks
state_machine_entry has_msg has_urb ticks w =
    if has_msg then (if has_urb then ok (run_ticks ticks w) else fail enomem) else fail enomem
