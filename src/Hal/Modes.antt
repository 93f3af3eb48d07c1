-- ===== src/Hal/Modes.antt =====
-- The modes and formats that `usb_hal/usb_hal_interface.c` accepts, and switching the display on
-- and off.
pub mod Accept
pub mod Enable
use lenovo_magicbay_hud_linu.Base.{
  ℕ, suc, ◌+◌, ◌*◌, ◌^◌, ◌%◌, Bool, true, false, List, [], ◌∷◌, ◌++◌, length, Option, none, some,
  ◌==◌, ◌&&◌, ltb, leb, u8, u16, u32, shl, bit_or, Outcome, ok, fail, einval, erange, Errno,
  if◌then◌else◌,
}
use lenovo_magicbay_hud_linu.Device.Events.{Event, EnableInfo, enable, disable}
use lenovo_magicbay_hud_linu.Device.Modes.{get_mode_vic}
use lenovo_magicbay_hud_linu.Hal.{Hal, Mode, DevState, unknown, enabled, disabled, Call}

abbrev pub same_mode : Mode → ℕ → ℕ → ℕ → Bool
same_mode m width height rate = m.width == width && (m.height == height && m.rate == rate)

-- The loop of `usb_hal_check_mode_for_custom_mode` and of `usb_hal_get_vic_for_cunstom_mode`.
unfoldable pub find_custom : List Mode → ℕ → ℕ → ℕ → Option Mode
find_custom [] width height rate = none
find_custom (m ∷ ms) width height rate =
    if same_mode m width height rate then some m else find_custom ms width height rate

-- `0` of the code is `true`.
unfoldable pub check_mode_for_custom_mode : Hal → Mode → Bool
unfolding find_custom
check_mode_for_custom_mode h mode =
    elim (find_custom h.custom_mode mode.width mode.height mode.rate) [
      | none ↦ false
      | some m ↦ true
    ]

-- `SDRAM_TYPE_TO_SIZE`
abbrev sdram_size : ℕ → ℕ
sdram_size sdram_type = shl (2 * 1024 * 1024) sdram_type

-- The product is of two `u16`, which C takes as `int`, and the shift is of a `u32`.
unfoldable pub min_sram_size : Mode → ℕ
min_sram_size mode = u32 (shl (u32 (mode.width * mode.height)) 2)

unfoldable pub video_mode_valid : Hal → Mode → Outcome (Unit {0})
unfolding check_mode_for_custom_mode min_sram_size get_mode_vic
video_mode_valid h mode =
    if check_mode_for_custom_mode h mode
    then ok tt
    else elim (get_mode_vic (u16 mode.width) (u16 mode.height) (u8 mode.rate)) [
      | fail e ↦ fail e
      | ok vic ↦
          if ltb (u32 (sdram_size h.sdram_type)) (min_sram_size mode) then fail einval else ok tt
    ]

pub get_vic : Hal → ℕ → ℕ → ℕ → Outcome ℕ
unfolding find_custom get_mode_vic
get_vic h width height rate = elim (find_custom h.custom_mode width height rate) [
  | some m ↦ ok m.vic
  | none ↦ get_mode_vic width height rate
]

-- `struct fourcc_format_desc`
pub record FormatDesc : Type 0 where
  pub fourcc : ℕ
  pub color_fmt : ℕ
  pub bpp : ℕ
  pub vpack_in : ℕ

abbrev pub color_rgb : ℕ
color_rgb = 0

abbrev color_yuv : ℕ
color_yuv = 1

abbrev format_rgb565 : ℕ
format_rgb565 = 0

abbrev pub format_rgb888 : ℕ
format_rgb888 = 1

abbrev format_yuv422 : ℕ
format_yuv422 = 2

-- `fourcc_code` of the DRM headers
abbrev fourcc_code : ℕ → ℕ → ℕ → ℕ → ℕ
fourcc_code a b c d = a + b * 2 ^ 8 + c * 2 ^ 16 + d * 2 ^ 24

abbrev fourcc_rgb565 : ℕ
fourcc_rgb565 = fourcc_code 0x52 0x47 0x31 0x36

abbrev fourcc_rgb888 : ℕ
fourcc_rgb888 = fourcc_code 0x52 0x47 0x32 0x34

abbrev fourcc_bgr888 : ℕ
fourcc_bgr888 = fourcc_code 0x42 0x47 0x32 0x34

abbrev pub fourcc_xrgb8888 : ℕ
fourcc_xrgb8888 = fourcc_code 0x58 0x52 0x32 0x34

abbrev fourcc_xbgr8888 : ℕ
fourcc_xbgr8888 = fourcc_code 0x58 0x42 0x32 0x34

abbrev fourcc_argb8888 : ℕ
fourcc_argb8888 = fourcc_code 0x41 0x52 0x32 0x34

abbrev fourcc_abgr8888 : ℕ
fourcc_abgr8888 = fourcc_code 0x41 0x42 0x32 0x34

abbrev pub fourcc_nv12 : ℕ
fourcc_nv12 = fourcc_code 0x4E 0x56 0x31 0x32

abbrev pub fourcc_nv16 : ℕ
fourcc_nv16 = fourcc_code 0x4E 0x56 0x31 0x36

abbrev pub fourcc_yuv420 : ℕ
fourcc_yuv420 = fourcc_code 0x59 0x55 0x31 0x32

abbrev rgb_desc : ℕ → ℕ → ℕ → FormatDesc
rgb_desc fourcc bpp vpack_in = record {
  fourcc = fourcc;
  color_fmt = color_rgb;
  bpp = bpp;
  vpack_in = vpack_in;
}

abbrev yuv_desc : ℕ → FormatDesc
yuv_desc fourcc = record {
  fourcc = fourcc;
  color_fmt = color_yuv;
  bpp = 12;
  vpack_in = format_yuv422;
}

-- `g_support_arr`
unfoldable pub support_formats : List FormatDesc
support_formats =
    rgb_desc fourcc_rgb565 16 format_rgb565
    ∷ rgb_desc fourcc_rgb888 24 format_rgb888
    ∷ rgb_desc fourcc_bgr888 24 format_rgb888
    ∷ rgb_desc fourcc_xrgb8888 32 format_rgb888
    ∷ rgb_desc fourcc_xbgr8888 32 format_rgb888
    ∷ rgb_desc fourcc_argb8888 32 format_rgb888
    ∷ rgb_desc fourcc_abgr8888 32 format_rgb888
    ∷ yuv_desc fourcc_nv12
    ∷ yuv_desc fourcc_yuv420
    ∷ []

unfoldable pub find_format : List FormatDesc → ℕ → Option FormatDesc
find_format [] fourcc = none
find_format (d ∷ ds) fourcc = if d.fourcc == fourcc then some d else find_format ds fourcc

unfoldable pub find_desc : ℕ → Option FormatDesc
unfolding find_format support_formats
find_desc fourcc = find_format support_formats fourcc

unfoldable get_bpp_by_fourcc : ℕ → ℕ
unfolding find_desc
get_bpp_by_fourcc fourcc = elim (find_desc fourcc) [ none ↦ 0 | some d ↦ d.bpp ]

unfoldable pub is_support_fourcc : ℕ → Bool
unfolding find_desc
is_support_fourcc fourcc = elim (find_desc fourcc) [ none ↦ false | some d ↦ true ]

-- The event that `usb_hal_enable` puts into the FIFO.
abbrev pub enable_info : Hal → Mode → EnableInfo
enable_info h mode = record {
  color_in = u8 (bit_or (shl h.vpack_out 4) h.vpack_in);
  color_out = h.color_out;
  vic = mode.vic;
  trans_mode = h.trans_mode;
  width = mode.width;
  height = mode.height;
}

abbrev pub set_format : Hal → Mode → FormatDesc → Hal
set_format h mode desc = record h {
  mode = mode;
  color_out = (if ltb 16 desc.bpp then format_rgb888 else format_rgb565);
  vpack_in = format_yuv422;
}

unfoldable pub hal_enable : Mode → ℕ → Hal → Call (Unit {0})
unfolding video_mode_valid find_desc
hal_enable mode fourcc h = elim (video_mode_valid h mode) [
  | fail e ↦ (fail einval, h, [])
  | ok valid ↦ elim (find_desc fourcc) [
    | none ↦ (fail einval, h, [])
    | some desc ↦ let h' = set_format h mode desc in (ok tt, h', enable (enable_info h' mode) ∷ [])
  ]
]

unfoldable pub hal_disable : Hal → Call (Unit {0})
hal_disable h = (ok tt, h, disable ∷ [])

-- Before the first `enable` the display is unknown, not disabled.
unfoldable is_disabled : Hal → Bool
is_disabled h = elim h.state [ unknown ↦ false | enabled ↦ false | disabled ↦ true ]

abbrev pub max_custom_mode : ℕ
max_custom_mode = 16

-- The arguments are `int`; the fields of the entry are narrower.
unfoldable pub add_custom_mode : ℕ → ℕ → ℕ → ℕ → Hal → Outcome (Unit {0}) × Hal
add_custom_mode width height rate vic h =
    if leb max_custom_mode (length h.custom_mode) then (fail erange, h) else (
      ok tt,
      record h {
        custom_mode =
            h.custom_mode
            ++ (record { width = u16 width; height = u16 height; rate = u16 rate; vic = u8 vic }
                ∷ []);
      },
    )
