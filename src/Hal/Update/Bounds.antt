-- ===== src/Hal/Update/Bounds.antt =====
-- Where `usb_hal_update_frame` writes into the desktop buffer, usb_hal/usb_hal_interface.c.
use mathlib.Core.Path.{subst}
use native.Mathlib.Decide.{dec_lt}
use lenovo_magicbay_hud_linu.Base.{
  ℕ, zero, suc, ◌+◌, ◌-◌, ◌*◌, ◌/◌, ◌≤◌, ◌<◌, ◌≡◌, ◌∙◌, ◌⊎◌, refl, sym, ap, arith, true, false,
  some, Bool-cases, inl, inr, ◌==◌, if◌then◌else◌,
}
use lenovo_magicbay_hud_linu.Base.Memory.{copy-inside, copy-after, copy}
use lenovo_magicbay_hud_linu.Frame.{Pixels}
use lenovo_magicbay_hud_linu.Hal.{Hal}
use lenovo_magicbay_hud_linu.Hal.Buffers.{buf_size}
use lenovo_magicbay_hud_linu.Hal.Machine.{is_enabled}
use lenovo_magicbay_hud_linu.Hal.Modes.{FormatDesc, find_desc, color_rgb}
use lenovo_magicbay_hud_linu.Hal.Update.{Picture, copy_pitched, rgb_copy, update_frame}
use lenovo_magicbay_hud_linu.Hal.Update.Rows.{copied, copy_pitched-before}

copy_pitched-after :
    (rows : ℕ) (dst src : Pixels) (d s width pitch i : ℕ)
    → d + rows * width ≤ i
    → copy_pitched rows dst src d s width pitch i ≡ dst i
unfolding copy_pitched
copy_pitched-after zero dst src d s width pitch i le = refl
copy_pitched-after (suc rows) dst src d s width pitch i le =
    copy_pitched-after rows _ src (d + width) (s + pitch) width pitch i (grind arith)
    ∙ copy-after dst d src s width i (grind arith)

-- Between its ends the copy writes pixels of the picture.
copy_pitched-within :
    (rows : ℕ) (dst src : Pixels) (d s width pitch i : ℕ)
    → d ≤ i
    → i < d + rows * width
    → (k : ℕ) × (copy_pitched rows dst src d s width pitch i ≡ src k)
unfolding copy_pitched
copy_pitched-within zero dst src d s width pitch i le lt = absurd (omega arith)
copy_pitched-within (suc rows) dst src d s width pitch i le lt = elim (dec_lt i (d + width)) [
  | yes here ↦ (
    s + (i - d),
    copy_pitched-before rows _ src (d + width) (s + pitch) width pitch i here
        ∙ copy-inside dst d src s width i le here,
  )
  | no past ↦
      copy_pitched-within rows _ src (d + width) (s + pitch) width pitch i (omega arith)
        (grind arith)
]

-- The pixels that the copy of an RGB picture takes.
abbrev pub taken : Hal → Picture → ℕ
taken h p = if p.pitch == h.mode.width * 4 then p.len / 4 else h.mode.height * h.mode.width

-- The pixels that the buffer has.
abbrev pub room : ℕ
room = buf_size / 4

-- What is past the pixels is left alone, and the last place of the buffer or the one after it tells
-- whether they fit.
abbrev pub Written : Hal → Picture → Pixels → Type 0
Written h p desktop =
    ((i : ℕ) → taken h p ≤ i → desktop i ≡ h.desktop i)
    × ((taken h p ≤ room) ⊎ ((room < taken h p) × ((k : ℕ) × (desktop room ≡ p.pixels k))))

fits_or :
    (h : Hal) (p : Picture) (desktop : Pixels) (n : ℕ)
    → n ≡ taken h p
    → ((i : ℕ) → n ≤ i → desktop i ≡ h.desktop i)
    → (room < n → (k : ℕ) × (desktop room ≡ p.pixels k))
    → Written h p desktop
fits_or h p desktop n e after within = (
  (λ i le. after i (omega (arith, e, le))),
  elim (dec_lt room n) [
    | yes lt ↦ inr (omega (arith, e), within lt)
    | no le ↦ inl (omega (arith, e))
  ],
)

rgb_copy-Written : (h : Hal) (p : Picture) → Written h p (rgb_copy h p)
unfolding rgb_copy
rgb_copy-Written h p = elim (Bool-cases (p.pitch == h.mode.width * 4)) [
  | inl e ↦
      let t : p.len / 4 ≡ taken h p = rw e refl in
      let r : rgb_copy h p ≡ copy h.desktop 0 p.pixels 0 (p.len / 4) = rw (rgb_copy, e) refl in
      fits_or h p (rgb_copy h p) (p.len / 4) t
        (λ i le.
          ap (λ (m : Pixels). m i) r
          ∙ copy-after h.desktop 0 p.pixels 0 (p.len / 4) i (omega arith))
        (λ lt. (
          room,
          ap (λ (m : Pixels). m room) r
              ∙ copy-inside h.desktop 0 p.pixels 0 (p.len / 4) room (omega arith) (omega arith),
        ))
  | inr e ↦
      let n = h.mode.height * h.mode.width in
      let t : n ≡ taken h p = rw e refl in
      let c = copy_pitched h.mode.height h.desktop p.pixels 0 0 h.mode.width (p.pitch / 4) in
      let r : rgb_copy h p ≡ c = rw (rgb_copy, e) refl in
      fits_or h p (rgb_copy h p) n t
        (λ i le.
          ap (λ (m : Pixels). m i) r
          ∙ copy_pitched-after h.mode.height h.desktop p.pixels 0 0 h.mode.width (p.pitch / 4) i
              (omega arith))
        (λ lt.
          let (k, q) =
            copy_pitched-within h.mode.height h.desktop p.pixels 0 0 h.mode.width (p.pitch / 4) room
              (omega arith) (omega arith) in
          (k, ap (λ (m : Pixels). m room) r ∙ q))
]

-- On a display that is on, with the buffer free, let the copy of an RGB picture take `len` bytes
-- if its pitch is that of the display, and the display's rows if not. Then no pixel past these is
-- changed, and either they fit into the 8 MB of the desktop buffer, or the pixel after its end is
-- overwritten by one of the picture.
pub update_frame-Written :
    (p : Picture) (fourcc : ℕ) (h : Hal) (desc : FormatDesc)
    → is_enabled h.state ≡ true
    → find_desc fourcc ≡ some desc
    → (desc.color_fmt == color_rgb) ≡ true
    → Written h p (update_frame false p fourcc h).1.desktop
update_frame-Written p fourcc h desc on d rgb =
    subst (λ (m : Pixels). Written h p m)
      (sym (ap (λ r. r.1.desktop) (copied false p fourcc h desc on refl d rgb)))
      (rgb_copy-Written h p)
