-- ===== src/Hal.antt =====
-- The state of `struct usb_hal` and `struct usb_hal_dev` (usb_hal/usb_hal_interface.h and
-- usb_hal/usb_hal_dev.h) that the calls of the DRM side and the thread share.
pub mod Modes
pub mod Pointer
pub mod Planes
pub mod Update
pub mod Machine
pub mod Setup
pub mod Buffers
pub mod Bringup
use lenovo_magicbay_hud_linu.Base.{ℕ, ◌+◌, ◌%◌, ◌^◌, Bool, List, [], ◌∷◌, Outcome, ok, fail}
use lenovo_magicbay_hud_linu.Base.Memory.{Memory}
use lenovo_magicbay_hud_linu.Frame.{Pixels, Rect, Screen}
use lenovo_magicbay_hud_linu.Frame.Cursor.{Cursor, Saved}
use lenovo_magicbay_hud_linu.Device.Events.{Event}

-- `struct usb_hal_video_mode`
pub record Mode : Type 0 where
  pub width : ℕ
  pub height : ℕ
  pub rate : ℕ
  pub vic : ℕ

-- `USB_HAL_DEV_STATE_…`
pub data DevState : Type 0 where
  unknown : DevState
  enabled : DevState
  disabled : DevState

-- `struct usb_hal_dev_frame_stat`
pub record Stat : Type 0 where
  pub send_total : ℕ
  pub send_success : ℕ
  pub update_event : ℕ
  pub period_send : ℕ
  pub state_error : ℕ
  pub try_lock_fail : ℕ

-- `custom_mode` with `custom_mode_cnt` is the list of the modes that are set. Times are in
-- milliseconds.
pub record Hal : Type 0 where
  pub chip_id : ℕ
  pub port_type : ℕ
  pub sdram_type : ℕ
  pub mode : Mode
  pub custom_mode : List Mode
  pub vpack_in : ℕ
  pub vpack_out : ℕ
  pub color_out : ℕ
  pub trans_mode : ℕ
  pub usb_buf : Memory
  pub usb_len : ℕ
  pub desktop_len : ℕ
  pub image : Pixels
  pub desktop : Pixels
  pub rect0 : Rect
  pub rect1 : Rect
  pub cursor : Cursor
  pub old_cursor : Saved
  pub stat : Stat
  pub mouse_moving : Bool
  pub update_time : ℕ
  pub mouse_updatetime : ℕ
  pub state : DevState
  pub suspended : Bool
  pub first_buf_send : ℕ
  pub wait_send_cnt : ℕ
  pub frame_index : ℕ

-- `u64` counters
abbrev pub count_up : ℕ → ℕ
count_up n = (n + 1) % 2 ^ 64

-- What the change detection of the thread reads and writes.
abbrev pub screen_of : Hal → Screen
screen_of h = record {
  width = h.mode.width;
  height = h.mode.height;
  image = h.image;
  desktop = h.desktop;
  rect0 = h.rect0;
  rect1 = h.rect1;
}

abbrev pub with_screen : Hal → Screen → Hal
with_screen h s = record h {
  image = s.image;
  desktop = s.desktop;
  rect0 = s.rect0;
  rect1 = s.rect1;
}

-- A call of the DRM side: its return code, the state afterwards, and what it put into the FIFO,
-- in order. `fail einval` for a NULL `hal` is not part of it: the state is there.
abbrev pub Call {ℓ} : Type ℓ → Type ℓ
Call A = Outcome A × Hal × List Event
