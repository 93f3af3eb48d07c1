-- ===== src/Device/Modes.antt =====
-- The mode table `g_support_mode` and its search, usb_hal/usb_device.c.
pub mod Table
use lenovo_magicbay_hud_linu.Base.{
  ℕ, List, [], ◌∷◌, ◌==◌, ◌&&◌, failed, Outcome, ok, fail, if◌then◌else◌,
}

-- `struct video_mode`
pub record VideoMode : Type 0 where
  pub vic : ℕ
  pub refresh_rate : ℕ
  pub width : ℕ
  pub height : ℕ

abbrev mode60 : ℕ → ℕ → ℕ → VideoMode
mode60 vic width height = record { vic = vic; refresh_rate = 60; width = width; height = height }

unfoldable pub support_mode : List VideoMode
support_mode =
    mode60 129 1920 1080
    ∷ mode60 120 1680 1050
    ∷ mode60 107 1440 900
    ∷ mode60 103 1400 1050
    ∷ mode60 102 1366 768
    ∷ mode60 100 1360 768
    ∷ mode60 96 1280 1024
    ∷ mode60 91 1280 960
    ∷ mode60 87 1280 800
    ∷ mode60 84 1280 768
    ∷ mode60 79 1280 720
    ∷ mode60 78 1280 600
    ∷ mode60 76 1152 864
    ∷ mode60 71 1024 768
    ∷ mode60 66 800 600
    ∷ mode60 64 640 480
    ∷ []

-- The loop of `ms9132_get_mode_vic` over the rest of the table.
unfoldable pub find_vic : List VideoMode → ℕ → ℕ → ℕ → Outcome ℕ
find_vic [] width height rate = fail failed
find_vic (m ∷ ms) width height rate =
    if width == m.width && (height == m.height && rate == m.refresh_rate)
    then ok m.vic
    else find_vic ms width height rate

unfoldable pub get_mode_vic : ℕ → ℕ → ℕ → Outcome ℕ
unfolding find_vic support_mode
get_mode_vic width height rate = find_vic support_mode width height rate
