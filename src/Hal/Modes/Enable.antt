-- ===== src/Hal/Modes/Enable.antt =====
-- What `usb_hal_enable` leaves behind, and what the chip hears of it.
use mathlib.Core.Path.{subst}
use lenovo_magicbay_hud_linu.Base.{
  Errno, ℕ, ◌*◌, ◌^◌, ◌%◌, ◌≡◌, ◌≢◌, ◌∙◌, refl, sym, List, [], ◌∷◌, none, some, Option-cases, ◌⊎◌,
  inl, inr, ltb, bit_or, ok, fail, einval, if◌then◌else◌, arith,
}
use lenovo_magicbay_hud_linu.Device.{Request}
use lenovo_magicbay_hud_linu.Device.Events.{Event, EnableInfo, enable, event_proc}
use lenovo_magicbay_hud_linu.Device.Events.Enabling.{
  AnswersBytes, IsDark, obliging, told, switched_on, event_enable_order,
}
use lenovo_magicbay_hud_linu.Hal.{Hal, Mode, Call}
use lenovo_magicbay_hud_linu.Hal.Modes.{
  video_mode_valid, find_desc, FormatDesc, set_format, enable_info, hal_enable,
}
use lenovo_magicbay_hud_linu.Hal.Modes.Accept.{Outcome-cases}

-- The colours of the output by the bits of a pixel: RGB888 is 1, RGB565 is 0.
abbrev out_color : ℕ → ℕ
out_color bpp = if ltb 16 bpp then 1 else 0

-- The event of a mode: the colours of the input have the packing of the output in the upper four
-- bits and YUV422, which is 2, in the lower ones.
abbrev event_of : Mode → FormatDesc → Hal → EnableInfo
event_of m d h = record {
  color_in = bit_or (h.vpack_out * 2 ^ 4) 2 % 2 ^ 8;
  color_out = out_color d.bpp;
  vic = m.vic;
  trans_mode = h.trans_mode;
  width = m.width;
  height = m.height;
}

-- The mode `m` with the format `d` is switched on: both are recorded, the rest of the state is as
-- before, and the mode is in the one event that is queued.
pub record IsOn (m : Mode) (d : FormatDesc) (h : Hal) (r : Call (Unit {0})) : Type 0 where
  pub code : r.0 ≡ ok tt
  pub mode : r.1.mode ≡ m
  pub color_out : r.1.color_out ≡ out_color d.bpp
  pub vpack_in : r.1.vpack_in ≡ 2
  pub rest : record r.1 { mode = h.mode; color_out = h.color_out; vpack_in = h.vpack_in } ≡ h
  pub queued : r.2 ≡ enable (event_of m d h) ∷ []

hal_enable-accepts :
    (m : Mode) (fourcc : ℕ) (h : Hal) (d : FormatDesc)
    → video_mode_valid h m ≡ ok tt
    → find_desc fourcc ≡ some d
    → hal_enable m fourcc h
      ≡ (ok tt, set_format h m d, enable (enable_info (set_format h m d) m) ∷ [])
unfolding hal_enable
hal_enable-accepts m fourcc h d v e = rw (hal_enable, v, e)

pub hal_enable-IsOn :
    (m : Mode) (fourcc : ℕ) (h : Hal) (d : FormatDesc)
    → video_mode_valid h m ≡ ok tt
    → find_desc fourcc ≡ some d
    → IsOn m d h (hal_enable m fourcc h)
hal_enable-IsOn m fourcc h d v e =
    subst (IsOn m d h) (sym (hal_enable-accepts m fourcc h d v e)) (record {
      code = refl;
      mode = refl;
      color_out = refl;
      vpack_in = refl;
      rest = refl;
      queued = refl;
    })

hal_enable-invalid :
    (m : Mode) (fourcc : ℕ) (h : Hal)
    → ((video_mode_valid h m ≢ ok tt) ⊎ (find_desc fourcc ≡ none))
    → hal_enable m fourcc h ≡ (fail einval, h, [])
unfolding hal_enable
hal_enable-invalid m fourcc h c = elim (Outcome-cases (video_mode_valid h m)) [
  | inr (x, e) ↦ rw (hal_enable, e)
  | inl (t, e) ↦ elim c [ inl bad ↦ absurd (bad e) | inr n ↦ rw (hal_enable, e, n) ]
]

ok_not_fail : {A : Type 0} (a : A) {e : Errno} → fail e ≢ ok a
ok_not_fail a p = ground (arith, p)

-- The queued events, handed to the chip.
abbrev pub Heard :
    Mode → FormatDesc → Hal → (ℕ → List Request → Request → List ℕ) → ℕ → ℕ → List Event → Type 0
Heard m d h bytes chip_id port_type [] = ⊥
Heard m d h bytes chip_id port_type (e ∷ es) =
    let heard = event_proc e chip_id port_type (obliging bytes) in
    (heard.0 ≡ ok tt)
    × ((first : ℕ) × (last : ℕ) × IsDark chip_id port_type first
        × IsDark chip_id port_type last
        × (told (heard.1.sent) ≡ switched_on (event_of m d h) chip_id port_type first last))

-- If the mode is not valid or the format is unknown, `usb_hal_enable` returns -EINVAL, changes
-- nothing and queues nothing. Otherwise it returns 0, records the mode and the colours of the
-- format, changes nothing else and queues one event with that mode; on a display in the block
-- mode, a chip whose bus fails no transfer and answers with bytes gets, for this event, the
-- reports that darken the screen, switch the power on and set the width, the height, the VIC and
-- the colours of that mode and format.
pub hal_enable_atomic :
    (m : Mode) (fourcc : ℕ) (h : Hal) (bytes : ℕ → List Request → Request → List ℕ)
    (chip_id port_type : ℕ)
    → h.trans_mode ≡ 3
    → AnswersBytes bytes
    → let r = hal_enable m fourcc h in
      (((video_mode_valid h m ≢ ok tt) ⊎ (find_desc fourcc ≡ none)) × (r ≡ (fail einval, h, [])))
      ⊎ ((video_mode_valid h m ≡ ok tt)
          × ((d : FormatDesc) × ((find_desc fourcc ≡ some d)
                × IsOn m d h r
                × Heard m d h bytes chip_id port_type r.2)))
hal_enable_atomic m fourcc h bytes chip_id port_type block answers =
    elim (Outcome-cases (video_mode_valid h m)) [
      | inr (x, e) ↦
          let bad : video_mode_valid h m ≢ ok tt = λ v. ok_not_fail tt (sym e ∙ v) in
          inl (inl bad, hal_enable-invalid m fourcc h (inl bad))
      | inl (t, e) ↦ elim (Option-cases (find_desc fourcc)) [
        | inl n ↦ inl (inr n, hal_enable-invalid m fourcc h (inr n))
        | inr (d, n) ↦
            let on = hal_enable-IsOn m fourcc h d e n in
            inr (
              e,
              (
                d,
                (
                  n,
                  on,
                  subst (Heard m d h bytes chip_id port_type) (sym on.queued)
                      (event_enable_order bytes (event_of m d h) chip_id port_type answers block),
                ),
              ),
            )
      ]
    ]
