-- ===== src/Tests/Displays.antt =====
-- The calls of the DRM side at concrete inputs.
use lenovo_magicbay_hud_linu.Base.{
  ℕ, ◌≡◌, ◌≢◌, ◌⊎◌, List, refl, true, false, [], ◌∷◌, arith, ok, fail, einval, some, none,
  if◌then◌else◌, ◌==◌, replicate,
}
use lenovo_magicbay_hud_linu.Frame.{Pixels}
use lenovo_magicbay_hud_linu.Device.Modes.{get_mode_vic, find_vic, support_mode}
use lenovo_magicbay_hud_linu.Hal.{Hal, Mode, enabled, Stat}
use lenovo_magicbay_hud_linu.Hal.Modes.{
  FormatDesc, video_mode_valid, check_mode_for_custom_mode, min_sram_size, get_vic, find_desc,
  find_format, support_formats, is_support_fourcc, fourcc_xrgb8888, hal_enable, color_rgb,
  format_rgb888, find_custom,
}
use lenovo_magicbay_hud_linu.Hal.Modes.Accept.{InRange}
use lenovo_magicbay_hud_linu.Hal.Modes.Enable.{IsOn, Heard, hal_enable_atomic}
use lenovo_magicbay_hud_linu.Device.{Request}
use lenovo_magicbay_hud_linu.Device.Events.Enabling.{AnswersBytes}
use lenovo_magicbay_hud_linu.Hal.Pointer.{cursor_set}
use lenovo_magicbay_hud_linu.Hal.Pointer.Area.{Holds, cursor_set_covers}
use lenovo_magicbay_hud_linu.Hal.Update.{Picture, update_frame}
use lenovo_magicbay_hud_linu.Hal.Update.Bounds.{Written, update_frame-Written}
use lenovo_magicbay_hud_linu.Drm.{Pipeline, Card, get_pipeline_global_id, card_index}
use lenovo_magicbay_hud_linu.Drm.Display.{display_mode_valid, display_enable}
use lenovo_magicbay_hud_linu.Drm.Display.Switching.{display_enable_total}
use lenovo_magicbay_hud_linu.Tests.Frames.{corner_cursor, no_saved, empty_rect, one_pixel}

abbrev no_stat : Stat
no_stat = record {
  send_total = 0;
  send_success = 0;
  update_event = 0;
  period_send = 0;
  state_error = 0;
  try_lock_fail = 0;
}

-- A display of 8 by 4 pixels that is on, with a custom mode and 16 MB of memory.
abbrev tiny_mode : Mode
tiny_mode = record { width = 8; height = 4; rate = 60; vic = 200 }

abbrev pub tiny_hal : Hal
tiny_hal = record {
  chip_id = 0;
  port_type = 5;
  sdram_type = 3;
  mode = tiny_mode;
  custom_mode = tiny_mode ∷ [];
  vpack_in = 2;
  vpack_out = 2;
  color_out = 1;
  trans_mode = 3;
  usb_buf = λ i. 0;
  usb_len = 0;
  desktop_len = 0;
  image = λ i. 0;
  desktop = one_pixel;
  rect0 = empty_rect;
  rect1 = empty_rect;
  cursor = record corner_cursor { valid = false };
  old_cursor = no_saved;
  stat = no_stat;
  mouse_moving = false;
  update_time = 0;
  mouse_updatetime = 0;
  state = enabled;
  suspended = false;
  first_buf_send = 1;
  wait_send_cnt = 0;
  frame_index = 0;
}

abbrev full_hd : Mode
full_hd = record { width = 1920; height = 1080; rate = 60; vic = 129 }

full_hd-InRange : InRange full_hd
full_hd-InRange = record { width_lt = omega arith; height_lt = omega arith; rate_lt = omega arith }

full_hd_valid : video_mode_valid tiny_hal full_hd ≡ ok tt
unfolding video_mode_valid check_mode_for_custom_mode min_sram_size get_mode_vic find_custom
    find_vic support_mode
full_hd_valid = refl

-- A chip that answers each report with zeros.
abbrev zeros_of : ℕ → List Request → Request → List ℕ
zeros_of n h r = replicate 8 0

zeros_of-AnswersBytes : AnswersBytes zeros_of
zeros_of-AnswersBytes n h r = omega arith

hal_enable_atomic_example :
    let r = hal_enable full_hd fourcc_xrgb8888 tiny_hal in
    (((video_mode_valid tiny_hal full_hd ≢ ok tt) ⊎ (find_desc fourcc_xrgb8888 ≡ none))
      × (r ≡ (fail einval, tiny_hal, [])))
    ⊎ ((video_mode_valid tiny_hal full_hd ≡ ok tt)
        × ((d : FormatDesc) × ((find_desc fourcc_xrgb8888 ≡ some d)
              × IsOn full_hd d tiny_hal r
              × Heard full_hd d tiny_hal zeros_of 0 5 r.2)))
hal_enable_atomic_example =
    hal_enable_atomic full_hd fourcc_xrgb8888 tiny_hal zeros_of 0 5 refl zeros_of-AnswersBytes

abbrev crowded_hal : Hal
crowded_hal = record tiny_hal { custom_mode = replicate 16 tiny_mode }

-- A pointer with one opaque pixel, in row 1 and column 2.
abbrev dot : Pixels
dot i = if i == 66 then 0xFF000000 else 0

cursor_set_covers_example : Holds (cursor_set (some dot) tiny_hal) 1 2
cursor_set_covers_example = cursor_set_covers dot tiny_hal 1 2 refl (omega arith) (omega arith) refl

-- A picture whose rows are two pixels longer than the display.
abbrev wide_picture : Picture
wide_picture = record { pixels = λ i. i; bytes = λ i. 0; pitch = 40; len = 160 }

abbrev pub xrgb : FormatDesc
xrgb = record {
  fourcc = fourcc_xrgb8888;
  color_fmt = color_rgb;
  bpp = 32;
  vpack_in = format_rgb888;
}

pub xrgb_known : find_desc fourcc_xrgb8888 ≡ some xrgb
unfolding find_desc find_format support_formats
xrgb_known = refl

-- A picture of 1920x1600 for a display of full HD.
abbrev tall_picture : Picture
tall_picture = record { pixels = λ i. i; bytes = λ i. 0; pitch = 7680; len = 12288000 }

abbrev full_hd_hal : Hal
full_hd_hal = record tiny_hal { mode = full_hd }

update_frame-Written_example :
    Written full_hd_hal tall_picture
      (update_frame false tall_picture fourcc_xrgb8888 full_hd_hal).1.desktop
update_frame-Written_example =
    update_frame-Written tall_picture fourcc_xrgb8888 full_hd_hal xrgb refl xrgb_known refl

xrgb_supported : is_support_fourcc fourcc_xrgb8888 ≡ true
unfolding is_support_fourcc find_desc find_format support_formats
xrgb_supported = refl

full_hd_ok : display_mode_valid tiny_hal 1920 1080 60 ≡ true
unfolding display_mode_valid video_mode_valid check_mode_for_custom_mode min_sram_size get_mode_vic
    find_custom find_vic support_mode
full_hd_ok = refl

display_enable_total_example :
    (vic : ℕ) × (get_vic tiny_hal 1920 1080 60 ≡ ok vic)
    × ((d : FormatDesc) × (find_desc fourcc_xrgb8888 ≡ some d)
        × (let m : Mode = record { width = 1920; height = 1080; rate = 60; vic = vic } in
            IsOn m d tiny_hal (display_enable 1920 1080 60 fourcc_xrgb8888 tiny_hal)))
display_enable_total_example =
    display_enable_total 1920 1080 60 fourcc_xrgb8888 tiny_hal (omega arith) (omega arith)
      (omega arith) full_hd_ok xrgb_supported

abbrev free_pipeline : Pipeline
free_pipeline = record {
  usb_hal = none;
  reg_flag = false;
  is_on = true;
  drm_width = 1920;
  drm_height = 1080;
  drm_rate = 60;
  drm_fb_format = fourcc_xrgb8888;
}

abbrev card_of : ℕ → Card
card_of address = record {
  address = address;
  pipeline_cnt = 2;
  pipeline = replicate 3 free_pipeline;
}

second_id : get_pipeline_global_id (none ∷ some (card_of 100) ∷ []) 100 1 ≡ some 4
unfolding get_pipeline_global_id card_index
second_id = refl
