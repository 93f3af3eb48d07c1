-- ===== src/Drm/Display.antt =====
-- The functions of a display, drm/ms9132_hal.c.
pub mod Switching
use lenovo_magicbay_hud_linu.Base.{
  ℕ, Bool, true, false, List, [], ◌∷◌, u8, u16, ltb, ◌==◌, Outcome, ok, fail, einval, erange,
  if◌then◌else◌,
}
use lenovo_magicbay_hud_linu.Hal.{Hal, Mode, Call}
use lenovo_magicbay_hud_linu.Hal.Modes.{
  video_mode_valid, is_support_fourcc, get_vic, hal_enable, hal_disable,
}

-- The mode of the `int` arguments, cut to the fields.
abbrev pub mode_of : ℕ → ℕ → ℕ → ℕ → Mode
mode_of width height rate vic = record {
  width = u16 width;
  height = u16 height;
  rate = u16 rate;
  vic = vic;
}

-- `true` is `MODE_OK`.
unfoldable pub display_mode_valid : Hal → ℕ → ℕ → ℕ → Bool
display_mode_valid h width height rate = elim (video_mode_valid h (mode_of width height rate 0)) [
  | ok t ↦ true
  | fail e ↦ false
]

unfoldable pub display_enable : ℕ → ℕ → ℕ → ℕ → Hal → Call (Unit {0})
unfolding hal_enable
display_enable width height rate fourcc h =
    elim (video_mode_valid h (mode_of width height rate 0)) [
      | fail e ↦ (fail e, h, [])
      | ok t ↦
          if is_support_fourcc fourcc
          then elim (get_vic h (u16 width) (u16 height) (u8 rate)) [
            | fail e ↦ (fail e, h, [])
            | ok vic ↦ hal_enable (mode_of width height rate vic) fourcc h
          ]
          else (fail einval, h, [])
    ]

unfoldable display_disable : Hal → Call (Unit {0})
unfolding hal_disable
display_disable h = hal_disable h

-- `_VFMT_CEA_02_720x480P_60HZ` and `_VFMT_CEA_17_720x576P_50HZ`; the test of the size asks for one
-- place only.
unfoldable pub get_custom_cea_vic : Hal → ℕ → Outcome (List ℕ)
get_custom_cea_vic h size =
    if h.port_type == 4 then (if ltb size 1 then fail erange else ok (2 ∷ 17 ∷ [])) else ok []
