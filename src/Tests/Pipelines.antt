-- ===== src/Tests/Pipelines.antt =====
-- Switching the pipelines, their connectors and the devices at concrete inputs.
use lenovo_magicbay_hud_linu.Base.{
  ℕ, ◌+◌, ◌<◌, ◌≤◌, ◌≡◌, ◌⊎◌, refl, true, false, [], ◌∷◌, ◌++◌, List, arith, ok, fail, einval, some,
  none, get_elem?,
}
use lenovo_magicbay_hud_linu.Drm.{Pipeline, Card, register_usb_hal, with_pipeline}
use lenovo_magicbay_hud_linu.Drm.Crtc.{
  handle_page_flip, vblank_start, update_event, Crtc, DisplayMode, atomic_enable, atomic_disable,
  atomic_flush, vblank_timer_func, calls_of,
}
use lenovo_magicbay_hud_linu.Drm.Crtc.Events.{Run, Step, Run-AllSent}
use lenovo_magicbay_hud_linu.Drm.Crtc.Kept.{AllSent}
use lenovo_magicbay_hud_linu.Drm.Crtc.Attach.{attach_either_way}
use lenovo_magicbay_hud_linu.Drm.Slots.{Slots, no_devices, add_devices, device_count_max}
use lenovo_magicbay_hud_linu.Drm.Slots.Filling.{IsFilled, no_devices-IsFilled, add_devices-exact}
use lenovo_magicbay_hud_linu.Drm.Connector.{fresh, detect}
use lenovo_magicbay_hud_linu.Drm.Connector.Detection.{IsDetected, fresh-HasEdid, detect-IsDetected}
use lenovo_magicbay_hud_linu.Drm.Cea.{cea_mode_for_vic}
use lenovo_magicbay_hud_linu.Drm.Cea.Row.{CeaMode}
use lenovo_magicbay_hud_linu.Drm.Cea.Lookup.{IsCeaVic, IsTiming, cea_mode_for_vic_iff}
use lenovo_magicbay_hud_linu.Drm.Device.{Making, Created, device_create, device_remove}
use lenovo_magicbay_hud_linu.Drm.Device.Leftover.{Made, below, device_create-Made}

abbrev pub off_pipeline : Pipeline
off_pipeline = record {
  usb_hal = none;
  reg_flag = false;
  is_on = false;
  drm_width = 0;
  drm_height = 0;
  drm_rate = 0;
  drm_fb_format = 0;
}

abbrev off_crtc : Crtc
off_crtc = record {
  pipeline = off_pipeline;
  event = none;
  state_event = none;
  vblank_on = false;
  vblank_timer = none;
  vblank_count = 0;
  sent = [];
}

abbrev full_hd : DisplayMode
full_hd = record { hdisplay = 1920; vdisplay = 1080; vrefresh = 60 }

-- The first commit switches the pipeline on; the second waits for a vertical blank.
abbrev committed : Crtc
committed = record off_crtc { state_event = some 1 }

abbrev on_crtc : Crtc
on_crtc = (atomic_enable full_hd 5 committed).0

abbrev blanked : Crtc
blanked = vblank_timer_func on_crtc

abbrev waiting : Crtc
waiting = record blanked { state_event = some 2 }

on-Run : Run (off_crtc, []) (waiting, 2 ∷ 1 ∷ [])
unfolding atomic_enable update_event vblank_start vblank_timer_func handle_page_flip
on-Run =
    Run.later
      (Run.later
        (Run.later (Run.later Run.start (Step.commit off_crtc [] 1 refl))
          (Step.enable committed (1 ∷ []) full_hd 5))
        (Step.vblank on_crtc (1 ∷ []) 16666666 refl))
      (Step.commit blanked (1 ∷ []) 2 refl)

Run-AllSent_example :
    AllSent (atomic_disable waiting).0 (2 ∷ 1 ∷ [])
    × AllSent (vblank_timer_func (atomic_flush true true waiting)) (2 ∷ 1 ∷ [])
Run-AllSent_example = Run-AllSent off_crtc waiting (2 ∷ 1 ∷ []) (refl, refl) on-Run

abbrev pub two_pipelines : Card
two_pipelines = record {
  address = 64;
  pipeline_cnt = 2;
  pipeline = off_pipeline ∷ off_pipeline ∷ off_pipeline ∷ [];
}

attach_either_way_example :
    let on = atomic_enable full_hd 5 off_crtc in
    let late = register_usb_hal 1 7 (with_pipeline two_pipelines 1 on.0.pipeline) in
    let early = register_usb_hal 1 7 two_pipelines in
    let taken : Pipeline = record off_pipeline { usb_hal = some 7; reg_flag = true } in
    let then_on = atomic_enable full_hd 5 (record off_crtc { pipeline = taken }) in
    (get_elem? early.1.pipeline 1 ≡ some taken)
    × (on.1 ++ late.2 ≡ early.2 ++ then_on.1)
    × (early.2 ++ then_on.1 ≡ calls_of (some 7) full_hd 5)
    × (get_elem? late.1.pipeline 1 ≡ some then_on.0.pipeline)
attach_either_way_example =
    attach_either_way two_pipelines 1 7 off_crtc full_hd 5 (omega arith) refl refl refl refl

add_devices-exact_example :
    ((t : Slots) × (add_devices 2 (λ k. some k) no_devices ≡ (ok tt, t))
      × IsFilled t
      × (t.dev_count ≡ no_devices.dev_count + 2)
      × (no_devices.dev_count + 2 ≤ device_count_max))
    ⊎ ((add_devices 2 (λ k. some k) no_devices ≡ (fail einval, no_devices))
        × (device_count_max < no_devices.dev_count + 2))
add_devices-exact_example =
    add_devices-exact 2 (λ k. some k) no_devices (λ k. (k, refl)) no_devices-IsFilled

-- A display is there, but its EDID cannot be read.
detect-IsDetected_example :
    IsDetected (some (ok true)) none fresh (detect (some (ok true)) none fresh)
detect-IsDetected_example = detect-IsDetected (some (ok true)) none fresh fresh-HasEdid

cea_mode_for_vic_iff_example :
    (IsCeaVic 16 × ((m : CeaMode) × (cea_mode_for_vic 16 ≡ some m) × IsTiming m))
    ⊎ ((IsCeaVic 16 → ⊥) × (cea_mode_for_vic 16 ≡ none))
cea_mode_for_vic_iff_example = cea_mode_for_vic_iff 16

-- The registration of a card with three pipelines fails.
abbrev unregistered : Making
unregistered = record { card = true; fifo = λ i. true; init = none; register = some einval }

device_create-Made_example :
    ((r : Created × List ℕ) × (device_create unregistered 3 ≡ ok r) × Made unregistered 3 r)
    × (device_remove true 3 (below 3) ≡ (ok tt, []))
device_create-Made_example = device_create-Made unregistered 3 (omega arith) refl
