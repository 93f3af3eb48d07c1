-- ===== src/Drm/Crtc/Attach.antt =====
-- A display may come before or after its pipeline is switched on.
use lenovo_magicbay_hud_linu.Base.{
  ℕ, ◌<◌, ◌≡◌, ◌∙◌, sym, ap, ap₂, refl, true, false, [], ◌++◌, none, some, Option-cases, arith, inl,
  inr, leb, get_elem?, set,
}
use lenovo_magicbay_hud_linu.Drm.{
  Pipeline, Card, max_pipeline_cnt, register_usb_hal, with_pipeline, enable_calls,
}
use lenovo_magicbay_hud_linu.Drm.Registry.{register-free, get-set}
use lenovo_magicbay_hud_linu.Drm.Crtc.{
  Crtc, DisplayMode, atomic_enable, update_event, vblank_start, shown, calls_of,
}

update-pipeline : (c : Crtc) → (update_event c).pipeline ≡ c.pipeline
unfolding update_event
update-pipeline c = elim (Option-cases c.state_event) [
  | inl s ↦ rw (update_event, s) refl
  | inr (e, s) ↦ rw (update_event, s) refl
]

enable-pipeline :
    (m : DisplayMode) (format : ℕ) (c : Crtc)
    → (atomic_enable m format c).0.pipeline ≡ shown m format c.pipeline
unfolding atomic_enable vblank_start
enable-pipeline m format c = ap (shown m format) (update-pipeline (record c { vblank_on = true }))

enable-calls :
    (m : DisplayMode) (format : ℕ) (c : Crtc)
    → (atomic_enable m format c).1 ≡ calls_of c.pipeline.usb_hal m format
unfolding atomic_enable
enable-calls m format c =
    ap (λ (p : Pipeline). calls_of p.usb_hal m format)
      (update-pipeline (record c { vblank_on = true }))

enable_calls-off : (p : Pipeline) (u : ℕ) → p.is_on ≡ false → enable_calls p u ≡ []
enable_calls-off p u off = rw off refl

-- Let a pipeline of a card be off, free and without a display. Then whether it is switched on
-- before a display is registered or after, the display gets one call of `enable`, with the same
-- size, rate and format, and the pipeline ends in the same state.
pub attach_either_way :
    (card : Card) (index usb_hal : ℕ) (c : Crtc) (m : DisplayMode) (format : ℕ)
    → index < max_pipeline_cnt
    → get_elem? card.pipeline index ≡ some c.pipeline
    → c.pipeline.reg_flag ≡ false
    → c.pipeline.usb_hal ≡ none
    → c.pipeline.is_on ≡ false
    → let on = atomic_enable m format c in
      let late = register_usb_hal index usb_hal (with_pipeline card index on.0.pipeline) in
      let early = register_usb_hal index usb_hal card in
      let taken : Pipeline = record c.pipeline { usb_hal = some usb_hal; reg_flag = true } in
      let then_on = atomic_enable m format (record c { pipeline = taken }) in
      (get_elem? early.1.pipeline index ≡ some taken)
      × (on.1 ++ late.2 ≡ early.2 ++ then_on.1)
      × (early.2 ++ then_on.1 ≡ calls_of (some usb_hal) m format)
      × (get_elem? late.1.pipeline index ≡ some then_on.0.pipeline)
attach_either_way card index usb_hal c m format lt e free none_yet off =
    let p = c.pipeline in
    let q = shown m format p in
    let taken : Pipeline = record p { usb_hal = some usb_hal; reg_flag = true } in
    let l : leb max_pipeline_cnt index ≡ false = ground arith in
    let early = register-free index usb_hal card p l e free in
    let no_call = ap (λ r. r.2) early ∙ enable_calls-off p usb_hal off in
    let then_call = enable-calls m format (record c { pipeline = taken }) in
    let shown_on = enable-pipeline m format c in
    let there = get-set card.pipeline index p q e in
    let late =
      ap (λ x. register_usb_hal index usb_hal (with_pipeline card index x)) shown_on
      ∙ register-free index usb_hal (with_pipeline card index q) q l there free in
    (
      ap (λ r. get_elem? r.1.pipeline index) early ∙ get-set card.pipeline index p taken e,
      ap₂ ◌++◌ (enable-calls m format c ∙ ap (λ u. calls_of u m format) none_yet)
            (ap (λ r. r.2) late)
          ∙ sym (ap₂ ◌++◌ no_call then_call),
      ap₂ ◌++◌ no_call then_call,
      ap (λ r. get_elem? r.1.pipeline index) late
          ∙ get-set (set card.pipeline index q) index q
              (record q { usb_hal = some usb_hal; reg_flag = true }) there
          ∙ ap some (sym (enable-pipeline m format (record c { pipeline = taken }))),
    )
