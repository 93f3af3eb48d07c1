-- ===== src/Drm.antt =====
-- The DRM side of the driver, drm/: the pipelines of the virtual graphics cards, which displays
-- take and give back (drm/msdisp_drm_interface.c). The modules below have the rest of the cards, from
-- the platform devices to the calls of a display's functions.
pub mod Display
pub mod Registry
pub mod Gem
pub mod Crtc
pub mod Slots
pub mod Cea
pub mod Device
pub mod Connector
pub mod Plane
pub mod Fb
pub mod Usb
pub mod Dump
use lenovo_magicbay_hud_linu.Base.{
  ℕ, zero, suc, ◌+◌, ◌*◌, Bool, true, false, List, [], ◌∷◌, get_elem?, set, Option, none, some,
  take, leb, ltb, ◌==◌, Outcome, ok, fail, einval, ebusy, failed, fault, if◌then◌else◌,
}

-- `struct msdisp_drm_pipeline`: what is registered and what is to be shown. A display is the
-- number of its `struct msdisp_usb_hal`.
pub record Pipeline : Type 0 where
  pub usb_hal : Option ℕ
  pub reg_flag : Bool
  pub is_on : Bool
  pub drm_width : ℕ
  pub drm_height : ℕ
  pub drm_rate : ℕ
  pub drm_fb_format : ℕ

-- `struct msdisp_drm_device`, with the address of its `drm` as a number.
pub record Card : Type 0 where
  pub address : ℕ
  pub pipeline_cnt : ℕ
  pub pipeline : List Pipeline

abbrev pub max_pipeline_cnt : ℕ
max_pipeline_cnt = 3

-- The loop over the pipelines from `i`.
unfoldable pub find_free : List Pipeline → ℕ → Option ℕ
find_free [] i = none
find_free (p ∷ ps) i = if p.reg_flag then find_free ps (i + 1) else some i

-- `none` is the index -1.
unfoldable pub get_free_pipeline_index : Card → Option ℕ
unfolding find_free
get_free_pipeline_index c = find_free (take c.pipeline_cnt c.pipeline) 0

unfoldable pub has_free : List Pipeline → Bool
has_free [] = false
has_free (p ∷ ps) = if p.reg_flag then has_free ps else true

unfoldable pub has_free_pipeline : Card → Bool
unfolding has_free
has_free_pipeline c = has_free (take c.pipeline_cnt c.pipeline)

-- The platform devices by their number; `none` has no device or no card yet.
unfoldable pub get_free_device : List (Option Card) → Option Card
unfolding has_free_pipeline
get_free_device [] = none
get_free_device (none ∷ cs) = get_free_device cs
get_free_device (some c ∷ cs) = if has_free_pipeline c then some c else get_free_device cs

-- The loop of `msdisp_drm_get_drm_device_index` from the number `i`.
unfoldable pub card_index : List (Option Card) → ℕ → ℕ → Option ℕ
card_index [] address i = none
card_index (none ∷ cs) address i = card_index cs address (i + 1)
card_index (some c ∷ cs) address i =
    if c.address == address then some i else card_index cs address (i + 1)

-- `none` is the identifier -1.
unfoldable pub get_pipeline_global_id : List (Option Card) → ℕ → ℕ → Option ℕ
unfolding card_index
get_pipeline_global_id cards address index =
    if leb max_pipeline_cnt index then none else elim (card_index cards address 0) [
      | none ↦ none
      | some i ↦ some (i * max_pipeline_cnt + index)
    ]

-- The call of `enable` that the registration makes for a pipeline that is on.
pub record EnableCall : Type 0 where
  pub usb_hal : ℕ
  pub width : ℕ
  pub height : ℕ
  pub rate : ℕ
  pub format : ℕ

abbrev pub enable_calls : Pipeline → ℕ → List EnableCall
enable_calls p usb_hal =
    if p.is_on
    then record {
      usb_hal = usb_hal;
      width = p.drm_width;
      height = p.drm_height;
      rate = p.drm_rate;
      format = p.drm_fb_format;
    }
      ∷ []
    else []

abbrev pub with_pipeline : Card → ℕ → Pipeline → Card
with_pipeline c i p = record c { pipeline = set c.pipeline i p }

-- The array has `max_pipeline_cnt` entries; the return code of `enable` is not looked at.
unfoldable pub register_usb_hal : ℕ → ℕ → Card → Outcome (Unit {0}) × Card × List EnableCall
register_usb_hal index usb_hal c =
    if leb max_pipeline_cnt index then (fail einval, c, []) else elim (get_elem? c.pipeline index) [
      | none ↦ (fail fault, c, [])
      | some p ↦ if p.reg_flag then (fail ebusy, c, []) else (
        ok tt,
        with_pipeline c index (record p { usb_hal = some usb_hal; reg_flag = true }),
        enable_calls p usb_hal,
      )
    ]

unfoldable pub unregister_usb_hal : ℕ → Card → Outcome (Unit {0}) × Card
unregister_usb_hal index c =
    if leb max_pipeline_cnt index then (fail einval, c) else elim (get_elem? c.pipeline index) [
      | none ↦ (fail fault, c)
      | some p ↦ (ok tt, with_pipeline c index (record p { usb_hal = none; reg_flag = false }))
    ]
