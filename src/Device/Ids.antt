-- ===== src/Device/Ids.antt =====
-- The supported devices: usb_hal/hal_adaptor.c and the end of drm/ms9132_hal.c.
use lenovo_magicbay_hud_linu.Base.{
  ◌⊎◌, ℕ, List, [], ◌∷◌, Bool, true, false, Option, none, some, ◌==◌, ◌&&◌, ◌||◌, ◌≡◌, arith,
  if◌then◌else◌,
}

-- `struct msdisp_hal_id`
pub record HalId : Type 0 where
  pub vendor : ℕ
  pub product : ℕ

abbrev ms9132_id : HalId
ms9132_id = record { vendor = 0x345f; product = 0x9132 }

abbrev ms9133_id : HalId
ms9133_id = record { vendor = 0x345f; product = 0x9133 }

abbrev ms9135_id : HalId
ms9135_id = record { vendor = 0x345f; product = 0x9135 }

abbrev pub lenovo_hud_id : HalId
lenovo_hud_id = record { vendor = 0x17ef; product = 0x1117 }

abbrev matches : HalId → HalId → Bool
matches id dev = id.vendor == dev.vendor && id.product == dev.product

-- the array `hal_dev`
abbrev hal_dev : List HalId
hal_dev = ms9132_id ∷ ms9133_id ∷ ms9135_id ∷ lenovo_hud_id ∷ []

-- The loop of `msdisp_hal_find_dev`.
unfoldable find_in : List HalId → HalId → Option HalId
find_in [] id = none
find_in (dev ∷ devs) id = if matches id dev then some dev else find_in devs id

unfoldable pub find_dev : HalId → Option HalId
unfolding find_in
find_dev id = find_in hal_dev id

-- `msdisp_usb_find_usb_hal`: whether there are functions for the device.
unfoldable pub find_usb_hal : HalId → Bool
find_usb_hal id =
    matches id ms9132_id
    || (matches id ms9133_id || (matches id ms9135_id || matches id lenovo_hud_id))

-- The two lists of devices agree: either the USB side finds its functions and the HAL finds the
-- device of that identifier, or neither finds anything.
find_dev-find_usb_hal :
    (id : HalId)
    → ((find_usb_hal id ≡ true) × (find_dev id ≡ some id))
      ⊎ ((find_usb_hal id ≡ false) × (find_dev id ≡ none))
unfolding find_dev find_usb_hal
find_dev-find_usb_hal id = ground arith
