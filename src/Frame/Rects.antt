-- ===== src/Frame/Rects.antt =====
-- `usb_hal_update_change_rects` as a whole: the shadow follows the desktop, and the rectangles
-- that are still to be sent hold each pixel that has changed.
use lenovo_magicbay_hud_linu.Base.{
  leb, max, ℕ, ◌+◌, ◌-◌, ◌*◌, ◌%◌, ◌≤◌, ◌<◌, ◌≡◌, refl, ap, none, some, arith, Option-cases,
  Bool-cases, inl, inr, ◌==◌, ◌&&◌,
}
use native.Mathlib.Decide.{ℕ_discrete}
use lenovo_magicbay_hud_linu.Frame.{
  Rect, Screen, find_box, copy_rows, copy_box, combine_rect, combine_rects, update_change_rects,
}
use lenovo_magicbay_hud_linu.Frame.Lines.{
  copy_line-inside, copy_line-same, copy_rows-same, copy_rows-inside,
}
use lenovo_magicbay_hud_linu.Frame.Box.{IsBox, find_box-IsBox, find_box-none}
use lenovo_magicbay_hud_linu.Frame.Differences.{Differs, Agrees, Inside}

-- A pixel that agreed before the copy agrees after it.
copy_box-same :
    (s : Screen) (b : Rect) (i : ℕ) → s.image i ≡ s.desktop i → copy_box s b i ≡ s.desktop i
unfolding copy_box
copy_box-same s b i h = elim (Bool-cases (b.left == 0 && b.right == s.width)) [
  | inl e ↦ rw e (copy_line-same s.image s.desktop _ _ i h)
  | inr e ↦ rw e (copy_rows-same (b.bottom - b.top) s.image s.desktop _ s.width _ i h)
]

-- The row loop copies each pixel of the box.
Inside-rows :
    (s : Screen) (b : Rect) (row col : ℕ)
    → Inside b row col
    → copy_rows
        (b.bottom - b.top)
        s.image
        s.desktop
        (b.top * s.width + b.left)
        s.width
        (b.right - b.left)
        (row * s.width + col)
      ≡ s.desktop (row * s.width + col)
Inside-rows s b row col i =
    let d : row ≡ b.top + (row - b.top) = omega arith in
    let e : row * s.width ≡ b.top * s.width + (row - b.top) * s.width =
      omega (arith, ap (λ (t : ℕ). t * s.width) d) in
    copy_rows-inside (b.bottom - b.top) s.image s.desktop (b.top * s.width + b.left) s.width
      (b.right - b.left) (row * s.width + col) (row - b.top) (omega arith) (omega arith)
      (omega arith)

index_above : (width top row col : ℕ) → top ≤ row → top * width ≤ row * width + col
index_above width top row col h = grind arith

index_below :
    (width bottom row col : ℕ) → row < bottom → col < width → row * width + col < bottom * width
index_below width bottom row col h k = grind arith

-- A pixel of the box agrees after the copy.
copy_box-Inside :
    (s : Screen) (b : Rect) (row col : ℕ)
    → b.right ≤ s.width
    → Inside b row col
    → copy_box s b (row * s.width + col) ≡ s.desktop (row * s.width + col)
unfolding copy_box
copy_box-Inside s b row col fits i = elim (Bool-cases (b.left == 0 && b.right == s.width)) [
  | inl e ↦
      let d : b.bottom ≡ b.top + (b.bottom - b.top) = omega arith in
      let end : b.bottom * s.width ≡ b.top * s.width + (b.bottom - b.top) * s.width =
        omega (arith, ap (λ (t : ℕ). t * s.width) d) in
      rw e (
        copy_line-inside s.image s.desktop (b.top * s.width) _ _
          (index_above s.width b.top row col i.0)
          (omega (arith, end, index_below s.width b.bottom row col i.1 (omega arith))))
  | inr e ↦ rw e (Inside-rows s b row col i)
]

-- A rectangle contains another.
pub record Contains (r b : Rect) : Type 0 where
  pub left_le : r.left ≤ b.left
  pub right_le : b.right ≤ r.right
  pub top_le : r.top ≤ b.top
  pub bottom_le : b.bottom ≤ r.bottom

-- The limits inside which the masks 0xFFC and 0xFFE cut nothing off.
pub record Fits (r : Rect) : Type 0 where
  pub right_fits : r.right ≤ 4092
  pub bottom_fits : r.bottom ≤ 4094
  pub left_fits : r.left ≤ 4092
  pub top_fits : r.top ≤ 4094

combine_rect-Contains :
    (r b : Rect)
    → Fits r
    → Fits b
    → Contains (combine_rect r b) r × Contains (combine_rect r b) b × Fits (combine_rect r b)
unfolding combine_rect
combine_rect-Contains r b f g = ground arith

-- If one of two rectangles reaches the last column of a screen of at most 4092 columns and neither
-- goes further, the united rectangle stays within the screen if and only if the screen's width is
-- a multiple of four; it goes fewer than four columns beyond it, and its ends are at columns that
-- are multiples of four and at rows that are even.
pub combine_rect_overhang :
    (r b : Rect) (width : ℕ)
    → max r.right b.right ≡ width
    → width ≤ 4092
    → let u = combine_rect r b in
      (leb u.right width ≡ (width % 4 == 0))
      × (u.right < width + 4)
      × (u.left % 4 ≡ 0)
      × (u.right % 4 ≡ 0)
      × (u.top % 2 ≡ 0)
      × (u.bottom % 2 ≡ 0)
unfolding combine_rect
combine_rect_overhang r b width e le =
    (ground arith, omega arith, omega arith, omega arith, omega arith, omega arith)

update_change_rects-none : (s : Screen) → find_box s ≡ none → update_change_rects s ≡ s
unfolding update_change_rects
update_change_rects-none s e = rw (e, update_change_rects)

update_change_rects-some :
    (s : Screen) {b : Rect}
    → find_box s ≡ some b
    → update_change_rects s ≡ combine_rects (record s { image = copy_box s b }) b
unfolding update_change_rects
update_change_rects-some s e = rw (e, update_change_rects)

-- After the change detection the shadow agrees with the desktop at each pixel of the screen; the
-- desktop itself is left alone.
pub update_change_rects_synchronises :
    (s : Screen) (row col : ℕ)
    → row < s.height
    → col < s.width
    → Agrees (update_change_rects s) row col × ((update_change_rects s).desktop ≡ s.desktop)
unfolding combine_rects
update_change_rects_synchronises s row col lt lt' = elim (Option-cases (find_box s)) [
  | inl e ↦ rw (update_change_rects-none s e) (find_box-none s e row col lt lt', refl)
  | inr (b, e) ↦ rw (update_change_rects-some s e) (agrees b (find_box-IsBox s e), refl)
]
  where
    agrees :
        (b : Rect)
        → IsBox s b
        → copy_box s b (row * s.width + col) ≡ s.desktop (row * s.width + col)
    agrees b box =
        elim (ℕ_discrete (s.image (row * s.width + col)) (s.desktop (row * s.width + col))) [
          | yes same ↦ copy_box-same s b (row * s.width + col) same
          | no ne ↦ copy_box-Inside s b row col box.in_width (box.covers row col lt lt' ne)
        ]

-- The screen is small enough for the masks, and so are the rectangles.
pub record IsSmall (s : Screen) : Type 0 where
  pub width_fits : s.width ≤ 4092
  pub height_fits : s.height ≤ 4094
  pub fits0 : Fits s.rect0
  pub fits1 : Fits s.rect1

Contains-Inside : {r b : Rect} {row col : ℕ} → Contains r b → Inside b row col → Inside r row col
Contains-Inside c i = omega arith

-- On a screen whose size and rectangles fit the masks, each pixel of the desktop that differs from
-- the shadow is inside both rectangles after the change detection, neither rectangle has lost a
-- pixel that it held before, and the screen still fits.
pub update_change_rects_covers :
    (s : Screen)
    → IsSmall s
    → let s' = update_change_rects s in
      ((row col : ℕ)
        → row < s.height
        → col < s.width
        → Differs s row col
        → Inside s'.rect0 row col × Inside s'.rect1 row col)
      × Contains s'.rect0 s.rect0
      × Contains s'.rect1 s.rect1
      × IsSmall s'
unfolding combine_rects
update_change_rects_covers s small = elim (Option-cases (find_box s)) [
  | inl e ↦ rw (update_change_rects-none s e) (
    (λ row col lt lt' d. absurd (d (find_box-none s e row col lt lt'))),
    omega arith,
    omega arith,
    small,
  )
  | inr (b, e) ↦
      let box = find_box-IsBox s e in
      let u0 = combine_rect-Contains s.rect0 b small.fits0 (box_fits b box) in
      let u1 = combine_rect-Contains s.rect1 b small.fits1 (box_fits b box) in
      rw (update_change_rects-some s e) (
        (λ row col lt lt' d. (
          Contains-Inside u0.1 (box.covers row col lt lt' d),
          Contains-Inside u1.1 (box.covers row col lt lt' d),
        )),
        u0.0,
        u1.0,
        record {
          width_fits = small.width_fits;
          height_fits = small.height_fits;
          fits0 = u0.2;
          fits1 = u1.2;
        },
      )
]
  where
    box_fits : (b : Rect) → IsBox s b → Fits b
    box_fits b box = omega (
      arith, box.wide, box.high, box.in_width, box.in_height, small.width_fits, small.height_fits,
    )
