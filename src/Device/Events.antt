-- ===== src/Device/Events.antt =====
-- `ms9132_event_proc` of usb_hal/usb_device.c: what the chip is told when the display is switched on
-- and off. The pauses (`msleep`) and the log are left out.
pub mod Enabling
pub mod Order
use lenovo_magicbay_hud_linu.Base.{ℕ, none, Errno, failed, ok, fail}
use lenovo_magicbay_hud_linu.Device.{Usb, M, pure, throw, ignore, ◌>>=◌, ◌>>◌}
use lenovo_magicbay_hud_linu.Device.Video.{
  set_trans_enable, set_video_enable, set_power_enable, set_trans_mode, set_video_in_info,
  set_video_out_info,
}
use lenovo_magicbay_hud_linu.Device.Chip.{set_screen_enable}

-- `event->para.enable`, usb_hal/usb_hal_event.h
pub record EnableInfo : Type 0 where
  pub color_in : ℕ
  pub color_out : ℕ
  pub vic : ℕ
  pub trans_mode : ℕ
  pub width : ℕ
  pub height : ℕ

-- `struct usb_hal_event`, by `base.type`
pub data Event : Type 0 where
  enable : EnableInfo → Event
  disable : Event
  update : ℕ → Event

-- `if (rtn) return -1;`
abbrev pub or_failed {ℓ} : {A : Type ℓ} → M A → M A
or_failed m u = elim (m u).0 [ ok a ↦ (ok a, (m u).1) | fail e ↦ (fail failed, (m u).1) ]

-- The result of `ms9132_set_power_enable` is not stored, so that the test after it looks at the
-- result of `ms9132_set_screen_enable` again, which is 0 there.
unfoldable pub event_enable : EnableInfo → ℕ → ℕ → M (Unit {0})
event_enable info chip_id port_type = do
  or_failed (set_trans_enable 0)
  or_failed (set_video_enable 0)
  or_failed (set_screen_enable 0 chip_id port_type)
  ignore (set_power_enable 1)
  or_failed (set_trans_mode info.trans_mode none)
  or_failed (set_video_in_info info.width info.height info.color_in 0)
  or_failed (set_video_out_info info.vic info.color_out info.width info.height)
  or_failed (set_trans_enable 1)
  or_failed (set_video_enable 0)
  or_failed (set_screen_enable 0 chip_id port_type)

unfoldable pub event_disable : ℕ → ℕ → M (Unit {0})
event_disable chip_id port_type = do
  ignore (set_trans_enable 0)
  ignore (set_video_enable 0)
  ignore (set_screen_enable 0 chip_id port_type)
  ignore (set_power_enable 0)

unfoldable pub event_proc : Event → ℕ → ℕ → M (Unit {0})
event_proc (enable info) chip_id port_type = event_enable info chip_id port_type
event_proc disable chip_id port_type = event_disable chip_id port_type
event_proc (update len) chip_id port_type = throw failed
