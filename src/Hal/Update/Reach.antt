-- ===== src/Hal/Update/Reach.antt =====
-- Which pixels of a picture `usb_hal_update_frame` reads, usb_hal/usb_hal_interface.c: what the
-- copy leaves does not depend on any other.
use native.Mathlib.Decide.{dec_lt}
use lenovo_magicbay_hud_linu.Base.{
  ℕ, zero, suc, ◌+◌, ◌-◌, ◌*◌, ◌/◌, ◌≤◌, ◌<◌, ◌≡◌, ◌∙◌, refl, sym, ap, fun_ext, arith, Bool, true,
  false, some, Bool-cases, inl, inr, ◌==◌, ok, [], ◌∷◌,
}
use lenovo_magicbay_hud_linu.Base.Memory.{Memory, copy, copy-inside, copy-before, copy-after}
use lenovo_magicbay_hud_linu.Frame.{Pixels}
use lenovo_magicbay_hud_linu.Device.Events.{update}
use lenovo_magicbay_hud_linu.Hal.{Hal}
use lenovo_magicbay_hud_linu.Hal.Machine.{is_enabled}
use lenovo_magicbay_hud_linu.Hal.Modes.{FormatDesc, find_desc, color_rgb}
use lenovo_magicbay_hud_linu.Hal.Update.{
  Picture, copy_pitched, rgb_copy, update_frame, forget_cursor,
}
use lenovo_magicbay_hud_linu.Hal.Update.Rows.{copied}

copy_same :
    (dst src src' : Memory) (to from len : ℕ)
    → ((k : ℕ) → k < len → src (from + k) ≡ src' (from + k))
    → copy dst to src from len ≡ copy dst to src' from len
copy_same dst src src' to from len same = fun_ext (λ i. elim (dec_lt i to) [
  | yes before ↦
      copy-before dst to src from len i before ∙ sym (copy-before dst to src' from len i before)
  | no from_here ↦ elim (dec_lt i (to + len)) [
    | yes within ↦
        copy-inside dst to src from len i (omega arith) within
        ∙ same (i - to) (omega arith)
        ∙ sym (copy-inside dst to src' from len i (omega arith) within)
    | no past ↦
        copy-after dst to src from len i (omega arith)
        ∙ sym (copy-after dst to src' from len i (omega arith))
  ]
])

copy_pitched_same :
    (rows : ℕ) (dst src src' : Pixels) (d s width pitch : ℕ)
    → ((row col : ℕ)
        → row < rows
        → col < width
        → src (s + row * pitch + col) ≡ src' (s + row * pitch + col))
    → copy_pitched rows dst src d s width pitch ≡ copy_pitched rows dst src' d s width pitch
unfolding copy_pitched
copy_pitched_same zero dst src src' d s width pitch same = refl
copy_pitched_same (suc rows) dst src src' d s width pitch same =
    let first : (k : ℕ) → k < width → src (s + k) ≡ src' (s + k) = λ k lt.
      let e : s + 0 * pitch + k ≡ s + k = omega arith in
      ap src (sym e) ∙ same 0 k (omega arith) lt ∙ ap src' e in
    let rest : (row col : ℕ)
        → row < rows
        → col < width
        → src (s + pitch + row * pitch + col) ≡ src' (s + pitch + row * pitch + col) =
      λ row col lt lt'.
        let e : s + suc row * pitch + col ≡ s + pitch + row * pitch + col = grind arith in
        ap src (sym e) ∙ same (suc row) col (omega arith) lt' ∙ ap src' e in
    copy_pitched_same rows (copy dst d src s width) src src' (d + width) (s + pitch) width pitch
      rest
    ∙ ap (λ m. copy_pitched rows m src' (d + width) (s + pitch) width pitch)
        (copy_same dst src src' d s width first)

-- The last pixel of a row of the screen lies before the end of that row in the picture.
row_end :
    (rows pitch width row col : ℕ)
    → row < rows
    → col < width
    → width ≤ pitch
    → 0 + row * pitch + col < rows * pitch
row_end rows pitch width row col lt lt' le = grind arith

-- Two pictures of the same pitch and length whose first `n` pixels are the same.
pub record Alike (n : ℕ) (p q : Picture) : Type 0 where
  pub pitch : q.pitch ≡ p.pitch
  pub len : q.len ≡ p.len
  pub pixels : (i : ℕ) → i < n → p.pixels i ≡ q.pixels i

rgb_copy_same :
    (h : Hal) (p q : Picture) (rows n : ℕ)
    → Alike n p q
    → h.mode.height ≤ rows
    → h.mode.width ≤ p.pitch / 4
    → rows * (p.pitch / 4) ≤ n
    → p.len / 4 ≤ n
    → rgb_copy h p ≡ rgb_copy h q
unfolding rgb_copy
rgb_copy_same h p q rows n alike high wide fits len =
    let pixels = alike.pixels in
    let len_same = alike.len in
    let pitch_same = alike.pitch in
    elim (Bool-cases (p.pitch == h.mode.width * 4)) [
      | inl e ↦
          let e' : (q.pitch == h.mode.width * 4) ≡ true =
            ap (λ (k : ℕ). k == h.mode.width * 4) pitch_same ∙ e in
          let r : rgb_copy h p ≡ copy h.desktop 0 p.pixels 0 (p.len / 4) = rw (rgb_copy, e) refl in
          let t : rgb_copy h q ≡ copy h.desktop 0 q.pixels 0 (q.len / 4) = rw (rgb_copy, e') refl in
          r
          ∙ copy_same h.desktop p.pixels q.pixels 0 0 (p.len / 4)
              (λ k lt. pixels (0 + k) (omega arith))
          ∙ ap (λ (k : ℕ). copy h.desktop 0 q.pixels 0 (k / 4)) (sym len_same)
          ∙ sym t
      | inr e ↦
          let e' : (q.pitch == h.mode.width * 4) ≡ false =
            ap (λ (k : ℕ). k == h.mode.width * 4) pitch_same ∙ e in
          let by : Pixels → ℕ → Pixels =
            λ m k. copy_pitched h.mode.height h.desktop m 0 0 h.mode.width (k / 4) in
          let r : rgb_copy h p ≡ by p.pixels p.pitch = rw (rgb_copy, e) refl in
          let t : rgb_copy h q ≡ by q.pixels q.pitch = rw (rgb_copy, e') refl in
          r
          ∙ copy_pitched_same h.mode.height h.desktop p.pixels q.pixels 0 0 h.mode.width
              (p.pitch / 4)
              (λ row col lt lt'. pixels (0 + row * (p.pitch / 4) + col) (
                omega
                  (arith, row_end rows (p.pitch / 4) h.mode.width row col (omega arith) lt' wide)))
          ∙ ap (by q.pixels) (sym pitch_same)
          ∙ sym t
    ]

-- Let the display's mode have at most `rows` rows, each at most as long as the pitch, and the
-- first `n` pixels hold as many rows of the pitch, and the length. Then the call on an RGB picture
-- does the same with any picture that has these pixels.
pub update_frame_same :
    (lock_fails : Bool) (fourcc : ℕ) (h : Hal) (d : FormatDesc) (p q : Picture) (rows n : ℕ)
    → find_desc fourcc ≡ some d
    → (d.color_fmt == color_rgb) ≡ true
    → Alike n p q
    → h.mode.height ≤ rows
    → h.mode.width ≤ p.pitch / 4
    → rows * (p.pitch / 4) ≤ n
    → p.len / 4 ≤ n
    → update_frame lock_fails p fourcc h ≡ update_frame lock_fails q fourcc h
unfolding update_frame
update_frame_same lock_fails fourcc h d p q rows n known rgb alike high wide fits len =
    elim (Bool-cases (is_enabled h.state)) [
      | inr off ↦ rw (update_frame, off) refl
      | inl on ↦ elim (Bool-cases lock_fails) [
        | inl busy ↦ rw (update_frame, on, busy) refl
        | inr free ↦
            copied lock_fails p fourcc h d on free known rgb
            ∙ ap
                (λ (m : Pixels).
                  (ok tt, forget_cursor (record h { desktop = m; desktop_len = 0 }), update 0 ∷ []))
                (rgb_copy_same h p q rows n alike high wide fits len)
            ∙ sym (copied lock_fails q fourcc h d on free known rgb)
      ]
    ]
