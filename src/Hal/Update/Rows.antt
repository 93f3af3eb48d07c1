-- ===== src/Hal/Update/Rows.antt =====
-- The picture that `usb_hal_update_frame` leaves in the desktop buffer.
use lenovo_magicbay_hud_linu.Base.{
  ℕ, zero, suc, ◌+◌, ◌-◌, ◌*◌, ◌/◌, ◌%◌, ◌<◌, ◌≡◌, ◌∙◌, refl, sym, ap, arith, Bool, true, false, [],
  ◌∷◌, some, Bool-cases, inl, inr, ◌==◌, ==_iff, ok,
}
use lenovo_magicbay_hud_linu.Base.Memory.{copy-inside, copy}
use lenovo_magicbay_hud_linu.Frame.{Pixels}
use lenovo_magicbay_hud_linu.Device.Events.{update}
use lenovo_magicbay_hud_linu.Hal.{Hal}
use lenovo_magicbay_hud_linu.Hal.Machine.{is_enabled}
use lenovo_magicbay_hud_linu.Hal.Modes.{FormatDesc, find_desc, color_rgb}
use lenovo_magicbay_hud_linu.Hal.Update.{
  Picture, copy_pitched, rgb_copy, copy_picture, update_frame, forget_cursor,
}

pub copy_pitched-before :
    (rows : ℕ) (dst src : Pixels) (d s width pitch i : ℕ)
    → i < d
    → copy_pitched rows dst src d s width pitch i ≡ dst i
unfolding copy_pitched copy
copy_pitched-before zero dst src d s width pitch i lt = refl
copy_pitched-before (suc rows) dst src d s width pitch i lt =
    copy_pitched-before rows _ src (d + width) (s + pitch) width pitch i (omega arith)
    ∙ ground arith

copy_pitched-row :
    (rows : ℕ) (dst src : Pixels) (d s width pitch row col : ℕ)
    → row < rows
    → col < width
    → copy_pitched rows dst src d s width pitch (d + row * width + col)
      ≡ src (s + row * pitch + col)
unfolding copy_pitched copy
copy_pitched-row zero dst src d s width pitch row col lt lt' = absurd (omega arith)
copy_pitched-row (suc rows) dst src d s width pitch zero col lt lt' =
    copy_pitched-before rows _ src (d + width) (s + pitch) width pitch (d + 0 * width + col)
      (omega arith)
    ∙ (let e : d + (d + 0 * width + col - d) ≡ d + col = omega arith in
        let f : s + (d + 0 * width + col - d) ≡ s + 0 * pitch + col = omega arith in
        copy-inside dst d src s width (d + 0 * width + col) (omega arith) (omega arith) ∙ ap src f)
copy_pitched-row (suc rows) dst src d s width pitch (suc row) col lt lt' =
    let e : d + suc row * width + col ≡ d + width + row * width + col = grind arith in
    let f : s + suc row * pitch + col ≡ s + pitch + row * pitch + col = grind arith in
    rw (e, f)
      (copy_pitched-row rows _ src (d + width) (s + pitch) width pitch row col (omega arith) lt')

index_below :
    (width bottom row col : ℕ) → row < bottom → col < width → row * width + col < bottom * width
index_below width bottom row col h k = grind arith

-- Each pixel of the picture gets to its place, pitch or not.
pub rgb_copy-pixel :
    (h : Hal) (p : Picture) (row col : ℕ)
    → p.pitch % 4 ≡ 0
    → p.len ≡ h.mode.height * p.pitch
    → row < h.mode.height
    → col < h.mode.width
    → rgb_copy h p (row * h.mode.width + col) ≡ p.pixels (row * (p.pitch / 4) + col)
unfolding rgb_copy copy
rgb_copy-pixel h p row col al len lt lt' = elim (Bool-cases (p.pitch == h.mode.width * 4)) [
  | inl e ↦
      let q : p.pitch ≡ h.mode.width * 4 = (==_iff _ _).0 e in
      let q4 : p.pitch / 4 ≡ h.mode.width = omega arith in
      let l : p.len / 4 ≡ h.mode.height * h.mode.width =
        (let a : p.len ≡ h.mode.height * h.mode.width * 4 =
            len ∙ ap (λ k. h.mode.height * k) q ∙ grind arith in
          omega arith) in
      rw (rgb_copy, e)
        (copy-inside h.desktop 0 p.pixels 0 (p.len / 4) (row * h.mode.width + col) (omega arith)
            (omega (arith, l, index_below h.mode.width h.mode.height row col lt lt'))
          ∙ ap p.pixels (
              let z : 0 + (row * h.mode.width + col - 0) ≡ row * h.mode.width + col = omega arith in
              z ∙ ap (λ k. row * k + col) (sym q4)))
  | inr e ↦
      rw (rgb_copy, e)
        (ap (copy_pitched h.mode.height h.desktop p.pixels 0 0 h.mode.width (p.pitch / 4))
            (let z : row * h.mode.width + col ≡ 0 + row * h.mode.width + col = omega arith in z)
          ∙ copy_pitched-row h.mode.height h.desktop p.pixels 0 0 h.mode.width (p.pitch / 4) row col
              lt lt'
          ∙ ap p.pixels (
              let z : 0 + row * (p.pitch / 4) + col ≡ row * (p.pitch / 4) + col = omega arith in z))
]

pub copied :
    (lock_fails : Bool) (p : Picture) (fourcc : ℕ) (h : Hal) (desc : FormatDesc)
    → is_enabled h.state ≡ true
    → lock_fails ≡ false
    → find_desc fourcc ≡ some desc
    → (desc.color_fmt == color_rgb) ≡ true
    → update_frame lock_fails p fourcc h
      ≡ (ok tt, forget_cursor (record h { desktop = rgb_copy h p; desktop_len = 0 }), update 0 ∷ [])
unfolding update_frame copy_picture
copied lock_fails p fourcc h desc on free d rgb = rw (update_frame, on, free, d, copy_picture, rgb)

-- On a display that is on, with the buffer free, an RGB picture whose pitch is a whole number of
-- pixels and whose length is that of its rows is in the desktop buffer pixel for pixel; the kept
-- pixels of the old pointer are given up, and one update is queued.
update_frame_stores :
    (p : Picture) (fourcc : ℕ) (h : Hal) (desc : FormatDesc)
    → is_enabled h.state ≡ true
    → find_desc fourcc ≡ some desc
    → (desc.color_fmt == color_rgb) ≡ true
    → p.pitch % 4 ≡ 0
    → p.len ≡ h.mode.height * p.pitch
    → let r = update_frame false p fourcc h in
      (r.0 ≡ ok tt)
      × ((row col : ℕ)
          → row < h.mode.height
          → col < h.mode.width
          → r.1.desktop (row * h.mode.width + col) ≡ p.pixels (row * (p.pitch / 4) + col))
      × (r.1.old_cursor.valid ≡ false)
      × (r.2 ≡ update 0 ∷ [])
update_frame_stores p fourcc h desc on d rgb al len =
    let e = copied false p fourcc h desc on refl d rgb in
    (
      ap (λ r. r.0) e,
      (λ row col lt lt'.
          ap (λ r. r.1.desktop (row * h.mode.width + col)) e
          ∙ rgb_copy-pixel h p row col al len lt lt'),
      ap (λ r. r.1.old_cursor.valid) e,
      ap (λ r. r.2) e,
    )
