-- ===== src/Hal/Pointer/Area.antt =====
-- The hot area that `usb_hal_cursor_set` finds.
use mathlib.Core.Path.{subst}
use lenovo_magicbay_hud_linu.Base.{
  ℕ, zero, suc, ◌+◌, ◌-◌, ◌*◌, ◌≤◌, ◌<◌, ◌≡◌, ◌∙◌, refl, sym, ap, Bool, true, false, [], ◌∷◌, some,
  Option-cases, Bool-cases, inl, inr, leb, ok, arith,
}
use lenovo_magicbay_hud_linu.Base.Loop.{
  first_from, last_from, first_from-none, first_from-some, last_from-none, last_from-some,
}
use lenovo_magicbay_hud_linu.Frame.{Pixels}
use lenovo_magicbay_hud_linu.Device.Events.{update}
use lenovo_magicbay_hud_linu.Hal.{Hal, Call}
use lenovo_magicbay_hud_linu.Hal.Machine.{is_enabled}
use lenovo_magicbay_hud_linu.Hal.Pointer.{
  is_opaque, find_valid_pixman, cursor_size, col_valid, row_valid, low_end, high_end, show,
  set_image, cursor_set,
}

find_valid_pixman-hit :
    (buf : Pixels) (at stride len k : ℕ)
    → k < len
    → is_opaque (buf (at + k * stride)) ≡ true
    → find_valid_pixman buf at stride len ≡ true
unfolding find_valid_pixman
find_valid_pixman-hit buf at stride zero k lt h = absurd (omega arith)
find_valid_pixman-hit buf at stride (suc len) zero lt h =
    let e : at + 0 * stride ≡ at = omega arith in
    let h' = sym (ap (λ i. is_opaque (buf i)) e) ∙ h in rw h'
find_valid_pixman-hit buf at stride (suc len) (suc k) lt h =
    let e : at + suc k * stride ≡ at + stride + k * stride = grind arith in
    let r =
      find_valid_pixman-hit buf (at + stride) stride len k (omega arith)
        (sym (ap (λ i. is_opaque (buf i)) e) ∙ h) in
    (elim (Bool-cases (is_opaque (buf at))) [ inl o ↦ rw o | inr o ↦ rw (o, r) ])

-- Each index that passes lies between the ends.
low_end-le :
    (valid : ℕ → Bool) (k : ℕ)
    → k < cursor_size
    → valid k ≡ true
    → (low_end valid ≤ k) × (valid (low_end valid) ≡ true)
unfolding low_end
low_end-le valid k lt h = elim (Option-cases (first_from cursor_size 0 valid)) [
  | inl e ↦
      absurd
        (ground (arith, first_from-none cursor_size 0 valid e k (omega arith) (omega arith), h))
  | inr (lo, e) ↦
      let f = first_from-some cursor_size 0 valid {j = lo} e in
      rw (low_end, e)
        (
          elim (Bool-cases (leb lo k)) [
            | inl b ↦ ground arith
            | inr b ↦ absurd (ground (arith, f.earlier k (omega arith) (ground arith), h))
          ],
          f.passes,
        )
]

high_end-gt :
    (valid : ℕ → Bool) (lo k : ℕ)
    → lo ≤ k
    → k < cursor_size
    → valid k ≡ true
    → (k < high_end valid lo) × (high_end valid lo ≤ 65)
unfolding high_end
high_end-gt valid lo k le lt h = elim (Option-cases (last_from (cursor_size - lo) lo valid)) [
  | inl e ↦
      absurd (ground (arith, last_from-none (cursor_size - lo) lo valid e k le (omega arith), h))
  | inr (hi, e) ↦
      let f = last_from-some (cursor_size - lo) lo valid {j = hi} e in
      rw (high_end, e)
        (
          elim (Bool-cases (leb k hi)) [
            | inl b ↦ ground arith
            | inr b ↦ absurd (ground (arith, f.later k (ground arith) (omega arith), h))
          ],
          let p = f.below in omega arith,
        )
]

set_image-shows :
    (buf : Pixels) (h : Hal)
    → let x1 = low_end (col_valid buf) in
      let x2 = high_end (col_valid buf) x1 in
      let y1 = low_end (row_valid buf x1 x2) in
      let y2 = high_end (row_valid buf x1 x2) y1 in
      leb x2 x1 ≡ false
      → leb y2 y1 ≡ false
      → set_image buf h ≡ (ok tt, show buf x1 y1 x2 y2 h, update 0 ∷ [])
unfolding set_image
set_image-shows buf h e e' = rw (set_image, e, e')

cursor_set-enabled :
    (buf : Pixels) (h : Hal)
    → is_enabled h.state ≡ true
    → cursor_set (some buf) h ≡ set_image buf (record h { cursor = record h.cursor { buf = buf } })
unfolding cursor_set
cursor_set-enabled buf h e = rw (cursor_set, e)

-- What the pointer's hot area is for one of its pixels.
abbrev pub Holds : Call (Unit {0}) → ℕ → ℕ → Type 0
Holds r row col =
    let c = r.1.cursor in
    (r.0 ≡ ok tt)
    × (c.valid ≡ true)
    × ((c.x1 ≤ col) × (col < c.x2) × (c.x2 ≤ 65))
    × ((c.y1 ≤ row) × (row < c.y2) × (c.y2 ≤ 65))
    × (r.2 ≡ update 0 ∷ [])

-- On a display that is on, once an image with an opaque pixel is set, the pointer is shown, its
-- hot area holds that pixel, ends at 65 or before in both directions, and one update is queued.
pub cursor_set_covers :
    (buf : Pixels) (h : Hal) (row col : ℕ)
    → is_enabled h.state ≡ true
    → row < cursor_size
    → col < cursor_size
    → is_opaque (buf (row * cursor_size + col)) ≡ true
    → Holds (cursor_set (some buf) h) row col
cursor_set_covers buf h row col on lt lt' o =
    let cv = find_valid_pixman-hit buf col cursor_size cursor_size row lt (
      sym (
        ap (λ i. is_opaque (buf i))
          (let q : col + row * cursor_size ≡ row * cursor_size + col = omega arith in sym q))
      ∙ o) in
    let x1 = low_end (col_valid buf) in
    let x2 = high_end (col_valid buf) x1 in
    let (l, t) = low_end-le (col_valid buf) col lt' cv in
    let (g, b) = high_end-gt (col_valid buf) x1 col l lt' cv in
    let k : x1 + (col - x1) ≡ col = omega arith in
    let i : row * cursor_size + x1 + (col - x1) * 1 ≡ row * cursor_size + col = omega arith in
    let rv =
      find_valid_pixman-hit buf (row * cursor_size + x1) 1 (x2 - x1) (col - x1) (omega arith)
        (ap (λ i. is_opaque (buf i)) i ∙ o) in
    let y1 = low_end (row_valid buf x1 x2) in
    let y2 = high_end (row_valid buf x1 x2) y1 in
    let (l', t') = low_end-le (row_valid buf x1 x2) row lt rv in
    let (g', b') = high_end-gt (row_valid buf x1 x2) y1 row l' lt rv in
    let e =
      cursor_set-enabled buf h on
      ∙ set_image-shows buf (record h { cursor = record h.cursor { buf = buf } }) (ground arith)
          (ground arith) in
    subst (λ (r : Call (Unit {0})). Holds r row col) (sym e)
      (refl, refl, (l, g, b), (l', g', b'), refl)
