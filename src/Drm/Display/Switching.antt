-- ===== src/Drm/Display/Switching.antt =====
-- Switching a display on from the DRM side.
use mathlib.Core.Path.{subst}
use lenovo_magicbay_hud_linu.Base.{
  ℕ, ◌<◌, ◌^◌, ◌≡◌, ◌∙◌, refl, sym, ap, Bool, true, false, some, u8, u16, Outcome, ok, fail, arith,
}
use lenovo_magicbay_hud_linu.Hal.{Hal, Mode}
use lenovo_magicbay_hud_linu.Hal.Modes.{
  FormatDesc, video_mode_valid, is_support_fourcc, get_vic, find_desc, hal_enable,
}
use lenovo_magicbay_hud_linu.Hal.Modes.Accept.{
  video_mode_valid-get_vic, valid-vic, support-find_desc,
}
use lenovo_magicbay_hud_linu.Hal.Modes.Enable.{IsOn, hal_enable-IsOn}
use lenovo_magicbay_hud_linu.Drm.Display.{mode_of, display_mode_valid, display_enable}

Valid-cases :
    (o : Outcome (Unit {0}))
    → (elim o as (λ x. Bool) [ ok t ↦ true | fail e ↦ false ]) ≡ true
    → o ≡ ok tt
Valid-cases (ok t) e = refl
Valid-cases (fail x) e = ground (arith, e)

mode_valid-valid :
    (h : Hal) (width height rate : ℕ)
    → display_mode_valid h width height rate ≡ true
    → video_mode_valid h (mode_of width height rate 0) ≡ ok tt
unfolding display_mode_valid
mode_valid-valid h width height rate v =
    Valid-cases (video_mode_valid h (mode_of width height rate 0)) v

mode_of-fits :
    (width height rate vic : ℕ)
    → width < 2 ^ 16
    → height < 2 ^ 16
    → rate < 2 ^ 8
    → mode_of width height rate vic
      ≡ record { width = width; height = height; rate = rate; vic = vic }
mode_of-fits width height rate vic lw lh lr =
    let w : u16 width ≡ width = omega arith in
    let g : u16 height ≡ height = omega arith in
    let q : u16 rate ≡ rate = omega arith in rw (w, g, q)

get_vic-same :
    (h : Hal) (w w' g g' r r' : ℕ) → w' ≡ w → g' ≡ g → r' ≡ r → get_vic h w' g' r' ≡ get_vic h w g r
get_vic-same h w w' g g' r r' e f q = rw (e, f, q)

display_enable-step :
    (width height rate fourcc vic : ℕ) (h : Hal)
    → video_mode_valid h (mode_of width height rate 0) ≡ ok tt
    → is_support_fourcc fourcc ≡ true
    → get_vic h (u16 width) (u16 height) (u8 rate) ≡ ok vic
    → display_enable width height rate fourcc h
      ≡ hal_enable (mode_of width height rate vic) fourcc h
unfolding display_enable
display_enable-step width height rate fourcc vic h v s x = rw (display_enable, v, s, x)

-- A mode that `ms9132_hal_mode_valid` accepts, whose fields are not cut off, with a format that is
-- supported, can always be switched on: it has a VIC, the call returns 0, the mode with its VIC
-- and the colours of the format are recorded, nothing else is changed, and the thread gets one
-- event with the width, the height, the VIC and the colours.
pub display_enable_total :
    (width height rate fourcc : ℕ) (h : Hal)
    → width < 2 ^ 16
    → height < 2 ^ 16
    → rate < 2 ^ 8
    → display_mode_valid h width height rate ≡ true
    → is_support_fourcc fourcc ≡ true
    → (vic : ℕ) × (get_vic h width height rate ≡ ok vic)
      × ((d : FormatDesc) × (find_desc fourcc ≡ some d)
          × (let m : Mode = record { width = width; height = height; rate = rate; vic = vic } in
              IsOn m d h (display_enable width height rate fourcc h)))
display_enable_total width height rate fourcc h lw lh lr valid support =
    let v = mode_valid-valid h width height rate valid in
    let m : Mode = record { width = width; height = height; rate = rate; vic = 0 } in
    let v' = ap (video_mode_valid h) (sym (mode_of-fits width height rate 0 lw lh lr)) ∙ v in
    let (vic, x) =
      video_mode_valid-get_vic h m (record { width_lt = lw; height_lt = lh; rate_lt = lr }) v' in
    let (d, y) = support-find_desc fourcc support in
    let x' =
      get_vic-same h width (u16 width) height (u16 height) rate (u8 rate) (omega arith)
        (omega arith) (omega arith)
      ∙ x in
    let step =
      display_enable-step width height rate fourcc vic h v support x'
      ∙ ap (λ n. hal_enable n fourcc h) (mode_of-fits width height rate vic lw lh lr) in
    let on = hal_enable-IsOn (record m { vic = vic }) fourcc h d (valid-vic h m vic ∙ v') y in
    (vic, x, (d, y, subst (IsOn (record m { vic = vic }) d h) (sym step) on))
