-- ===== src/Device/Video.antt =====
-- The video commands, `struct ms9132_hid_video` reports of usb_hal/usb_device.c.
use lenovo_magicbay_hud_linu.Base.{
  ℕ, List, [], ◌∷◌, Option, none, some, true, failed, fault, ◌==◌, ◌||◌, if◌then◌else◌,
}
use lenovo_magicbay_hud_linu.Device.{M, pure, throw, ◌>>=◌, hid_report}
use lenovo_magicbay_hud_linu.Device.Xdata.{addr_hi, addr_lo}

-- A video report: operation 0xA6, the sub-operation and six bytes.
abbrev pub video_report : ℕ → ℕ → ℕ → ℕ → ℕ → ℕ → ℕ → List ℕ
video_report sub_op a b c d e f = 0xA6 ∷ sub_op ∷ a ∷ b ∷ c ∷ d ∷ e ∷ f ∷ []

abbrev pub send : List ℕ → M (Unit {0})
send report = do _ ← hid_report true report; pure tt

unfoldable pub set_video_in_info : ℕ → ℕ → ℕ → ℕ → M (Unit {0})
unfolding hid_report
set_video_in_info width height color byte_sel = send (
    video_report 0x01 (addr_hi width) (addr_lo width) (addr_hi height) (addr_lo height) color
      byte_sel)

unfoldable pub set_video_out_info : ℕ → ℕ → ℕ → ℕ → M (Unit {0})
unfolding hid_report
set_video_out_info index color width height = send (
    video_report 0x02 index color (addr_hi width) (addr_lo width) (addr_hi height) (addr_lo height))

unfoldable trigger_frame : ℕ → ℕ → M (Unit {0})
unfolding hid_report
trigger_frame index delay = send (video_report 0x00 index delay 0 0 0 0)

-- `param` is read only in the two fixed-block modes; `none` is NULL, which these read through.
unfoldable pub set_trans_mode : ℕ → Option (ℕ → ℕ) → M (Unit {0})
unfolding hid_report
set_trans_mode mode param =
    if mode == 0 || (mode == 3 || (mode == 4 || mode == 5))
    then send (video_report 0x03 mode 0 0 0 0 0)
    else if mode == 1
    then elim param [
      | none ↦ throw fault
      | some p ↦ send (video_report 0x03 mode (p 0) (p 1) 0 0 0)
    ]
    else if mode == 2
    then elim param [
      | none ↦ throw fault
      | some p ↦ send (video_report 0x03 mode (p 0) (p 1) (p 2) (p 3) 0)
    ]
    else throw failed

unfoldable pub set_trans_enable : ℕ → M (Unit {0})
unfolding hid_report
set_trans_enable enable = send (video_report 0x04 enable 0 0 0 0 0)

unfoldable pub set_video_enable : ℕ → M (Unit {0})
unfolding hid_report
set_video_enable enable = send (video_report 0x05 enable 0 0 0 0 0)

unfoldable pub set_power_enable : ℕ → M (Unit {0})
unfolding hid_report
set_power_enable enable = send (video_report 0x07 enable 2 0 0 0 0)
