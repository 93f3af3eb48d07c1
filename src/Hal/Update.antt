-- ===== src/Hal/Update.antt =====
-- `usb_hal_update_frame` of usb_hal/usb_hal_interface.c: a picture of the DRM side is copied and
-- the thread is told. The picture is given as its 32-bit pixels and as its bytes.
pub mod Rows
pub mod Bounds
pub mod Reach
pub mod Shown
use lenovo_magicbay_hud_linu.Base.{
  ℕ, zero, suc, ◌+◌, ◌*◌, ◌/◌, Bool, true, false, List, [], ◌∷◌, Option, none, some, ◌==◌, Outcome,
  ok, fail, eperm, ebusy, fault, Errno, if◌then◌else◌,
}
use lenovo_magicbay_hud_linu.Base.Memory.{Memory, copy}
use lenovo_magicbay_hud_linu.Frame.{Pixels}
use lenovo_magicbay_hud_linu.Device.Events.{Event, update}
use lenovo_magicbay_hud_linu.Hal.{Hal, Call, count_up}
use lenovo_magicbay_hud_linu.Hal.Machine.{is_enabled}
use lenovo_magicbay_hud_linu.Hal.Modes.{FormatDesc, find_desc, color_rgb}
use lenovo_magicbay_hud_linu.Hal.Planes.{yuv_copy}
use lenovo_magicbay_hud_linu.Hal.Pointer.{refuse}

-- `buf`, `pitch` and `len`; both are multiples of the four bytes of a pixel for the RGB copies.
pub record Picture : Type 0 where
  pub pixels : Pixels
  pub bytes : Memory
  pub pitch : ℕ
  pub len : ℕ

-- The loop over the rows of a picture whose pitch is not the width, counted in pixels.
pub copy_pitched : ℕ → Pixels → Pixels → ℕ → ℕ → ℕ → ℕ → Pixels
copy_pitched zero dst src d s width pitch = dst
copy_pitched (suc rows) dst src d s width pitch =
    copy_pitched rows (copy dst d src s width) src (d + width) (s + pitch) width pitch

pub rgb_copy : Hal → Picture → Pixels
unfolding copy_pitched
rgb_copy h p =
    if p.pitch == h.mode.width * 4
    then copy h.desktop 0 p.pixels 0 (p.len / 4)
    else copy_pitched h.mode.height h.desktop p.pixels 0 0 h.mode.width (p.pitch / 4)

-- `desktop_buf.len`; nothing reads what a copy without a length leaves there.
abbrev len_or_0 : Outcome ℕ → ℕ
len_or_0 (ok n) = n
len_or_0 (fail e) = 0

-- The old pointer is gone with the old picture.
abbrev pub forget_cursor : Hal → Hal
forget_cursor h = record h { old_cursor = record h.old_cursor { valid = false } }

unfoldable pub copy_picture : FormatDesc → Hal → Picture → Hal
unfolding rgb_copy yuv_copy
copy_picture desc h p =
    if desc.color_fmt == color_rgb
    then record h { desktop = rgb_copy h p; desktop_len = 0 }
    else (let (usb, len) = yuv_copy desc h.usb_buf p.bytes h.mode p.len in
        record h { usb_buf = usb; desktop_len = len_or_0 len })

abbrev count_try_lock : Hal → Hal
count_try_lock h = record h {
  stat = record h.stat { try_lock_fail = count_up h.stat.try_lock_fail };
}

-- `lock_fails`: `try_lock` is asked for and the mutex is taken. An unknown format is looked up as
-- NULL and read from, which is `fault`.
unfoldable pub update_frame : Bool → Picture → ℕ → Hal → Call (Unit {0})
unfolding copy_picture find_desc
update_frame lock_fails p fourcc h =
    if is_enabled h.state
    then (if lock_fails then (fail ebusy, count_try_lock h, []) else elim (find_desc fourcc) [
      | none ↦ (fail fault, h, [])
      | some desc ↦
          let h' = forget_cursor (copy_picture desc h p) in (ok tt, h', update h'.desktop_len ∷ [])
    ])
    else (fail eperm, refuse h, [])
