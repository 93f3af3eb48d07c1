-- ===== src/Frame/Cursor/Undo.antt =====
-- Removing the cursor brings back the desktop that was there before it was drawn.
use lenovo_magicbay_hud_linu.Base.{
  inl, inr, Bool-cases, ap, ℕ, zero, suc, ◌+◌, ◌-◌, ◌*◌, ◌≤◌, ◌<◌, ◌≡◌, refl, true, false, arith,
  ◌∙◌,
}
use lenovo_magicbay_hud_linu.Base.Memory.{copy, put, copy-inside, copy-before, copy-after}
use native.Mathlib.Decide.{dec_lt}
use lenovo_magicbay_hud_linu.Frame.{Pixels}
use lenovo_magicbay_hud_linu.Frame.Cursor.{
  Cursor, Saved, Area, clip, draws_nothing, mouse_start, draw_area, restore_rows, blend_line, blend,
  draw_rows, remove_cursor, add_cursor, cursor_width,
}

blend_line-before :
    (n : ℕ) (d c : Pixels) (at mouse i : ℕ) → i < at → blend_line n d c at mouse i ≡ d i
unfolding blend_line
blend_line-before zero d c at mouse i h = refl
blend_line-before (suc n) d c at mouse i h =
    ground (arith, blend_line-before n (put d at (blend (c mouse) (d at))) c (at + 1) (mouse + 1) i)

blend_line-after :
    (n : ℕ) (d c : Pixels) (at mouse i : ℕ) → at + n ≤ i → blend_line n d c at mouse i ≡ d i
unfolding blend_line
blend_line-after zero d c at mouse i h = refl
blend_line-after (suc n) d c at mouse i h =
    ground (arith, blend_line-after n (put d at (blend (c mouse) (d at))) c (at + 1) (mouse + 1) i)

module _ (c : Pixels) (stride len : ℕ) (fits : len ≤ stride) where
  draw_rows-before :
      (n : ℕ) (d kept : Pixels) (at from mouse i : ℕ)
      → i < at
      → (draw_rows n d kept c at from mouse stride len).0 i ≡ d i
  unfolding draw_rows
  draw_rows-before zero d kept at from mouse i h = refl
  draw_rows-before (suc n) d kept at from mouse i h =
      draw_rows-before n (blend_line len d c at mouse) (copy kept from d at len) (at + stride)
        (from + len) (mouse + cursor_width) i (omega arith)
      ∙ blend_line-before len d c at mouse i h

  draw_rows-kept :
      (n : ℕ) (d kept : Pixels) (at from mouse j : ℕ)
      → j < from
      → (draw_rows n d kept c at from mouse stride len).1 j ≡ kept j
  unfolding draw_rows
  draw_rows-kept zero d kept at from mouse j h = refl
  draw_rows-kept (suc n) d kept at from mouse j h =
      draw_rows-kept n (blend_line len d c at mouse) (copy kept from d at len) (at + stride)
        (from + len) (mouse + cursor_width) j (omega arith)
      ∙ copy-before kept from d at len j h

  -- One row, put back from the kept pixels, is what it was; beyond it nothing had been drawn.
  row_restored :
      (n : ℕ) (d kept x : Pixels) (at from mouse i : ℕ)
      → let (drawn, saved) = draw_rows (suc n) d kept c at from mouse stride len in
        (at ≤ i → x i ≡ drawn i) → at ≤ i → i < at + stride → copy x at saved from len i ≡ d i
  unfolding draw_rows
  row_restored n d kept x at from mouse i h above below =
      let d1 = blend_line len d c at mouse in
      let k1 = copy kept from d at len in
      let next = draw_rows n d1 k1 c (at + stride) (from + len) (mouse + cursor_width) stride len in
      elim (dec_lt i (at + len)) [
        | yes row ↦
            let e : at + (from + (i - at) - from) ≡ i = omega arith in
            copy-inside x at next.1 from len i above row
            ∙ draw_rows-kept n d1 k1 (at + stride) (from + len) (mouse + cursor_width)
                (from + (i - at)) (omega arith)
            ∙ copy-inside kept from d at len (from + (i - at)) (omega arith) (omega arith)
            ∙ ap d e
        | no gap ↦
            copy-after x at next.1 from len i (omega arith)
            ∙ h above
            ∙ draw_rows-before n d1 k1 (at + stride) (from + len) (mouse + cursor_width) i below
            ∙ blend_line-after len d c at mouse i (omega arith)
      ]

  -- Restoring a desktop that shows what was drawn brings back, from `at` on, what was there.
  restore-draw :
      (n : ℕ) (d kept x : Pixels) (at from mouse : ℕ)
      → let (drawn, saved) = draw_rows n d kept c at from mouse stride len in
        ((i : ℕ) → at ≤ i → x i ≡ drawn i)
        → (i : ℕ)
        → (at ≤ i → restore_rows n x saved at from stride len i ≡ d i)
          × (i < at → restore_rows n x saved at from stride len i ≡ x i)
  unfolding draw_rows restore_rows
  restore-draw zero d kept x at from mouse h i = (h i, λ _. refl)
  restore-draw (suc n) d kept x at from mouse h i =
      let d1 = blend_line len d c at mouse in
      let k1 = copy kept from d at len in
      let next = draw_rows n d1 k1 c (at + stride) (from + len) (mouse + cursor_width) stride len in
      let x1 = copy x at next.1 from len in
      let agrees : (j : ℕ) → at + stride ≤ j → x1 j ≡ next.0 j =
        λ j a. copy-after x at next.1 from len j (omega arith) ∙ h j (omega arith) in
      let ih = restore-draw n d1 k1 x1 (at + stride) (from + len) (mouse + cursor_width) agrees i in
      (
        (λ above. elim (dec_lt i (at + stride)) [
          | yes row ↦ ih.1 row ∙ row_restored n d kept x at from mouse i (λ a. h i a) above row
          | no later ↦ ih.0 (omega arith) ∙ blend_line-after len d c at mouse i (omega arith)
        ]),
        (λ before. ih.1 (omega arith) ∙ copy-before x at next.1 from len i before),
      )

remove_cursor-draw_area :
    (desktop : Pixels) (width : ℕ) (c : Cursor) (a : Area) (old : Saved) (i : ℕ)
    → a.end_col ≤ width
    → let (drawn, saved) = draw_area desktop width c a old in
      remove_cursor drawn width saved i ≡ desktop i
unfolding remove_cursor draw_area
remove_cursor-draw_area desktop width c a old i fits =
    let at = a.start_row * width + a.start_col in
    let len = a.end_col - a.start_col in
    let rows = a.end_row - a.start_row in
    let mouse = mouse_start c a in
    let drawn = (draw_rows rows desktop old.buf c.buf at 0 mouse width len).0 in
    let undo =
      restore-draw c.buf width len (omega arith) rows desktop old.buf drawn at 0 mouse (λ _ _. refl)
        i in
    elim (dec_lt i at) [
      | yes before ↦
          undo.1 before
          ∙ draw_rows-before c.buf width len (omega arith) rows desktop old.buf at 0 mouse i before
      | no above ↦ undo.0 (omega arith)
    ]

removed_nothing :
    (desktop : Pixels) (width : ℕ) (old : Saved) (i : ℕ)
    → remove_cursor desktop width (record old { valid = false }) i ≡ desktop i
unfolding remove_cursor
removed_nothing desktop width old i = refl

module _ (desktop : Pixels) (width height : ℕ) (c : Cursor) (old : Saved) where
  add_cursor-hidden :
      draws_nothing c (clip c width height) ≡ true
      → add_cursor desktop width height c old ≡ (desktop, record old { valid = false })
  unfolding add_cursor
  add_cursor-hidden h = rw (h, add_cursor)

  add_cursor-shown :
      draws_nothing c (clip c width height) ≡ false
      → add_cursor desktop width height c old ≡ draw_area desktop width c (clip c width height) old
  unfolding add_cursor
  add_cursor-shown h = rw (h, add_cursor)

end_col-clip : (c : Cursor) (width height : ℕ) → (clip c width height).end_col ≤ width
unfolding clip
end_col-clip c width height = omega arith

-- Drawing the cursor and then removing it leaves each pixel of the desktop as it was, wherever the
-- pointer is and however much of it is clipped.
pub remove_cursor-add_cursor :
    (desktop : Pixels) (width height : ℕ) (cursor : Cursor) (old : Saved) (i : ℕ)
    → let (drawn, saved) = add_cursor desktop width height cursor old in
      remove_cursor drawn width saved i ≡ desktop i
remove_cursor-add_cursor desktop width height cursor old i =
    elim (Bool-cases (draws_nothing cursor (clip cursor width height))) [
      | inl hidden ↦
          rw (add_cursor-hidden desktop width height cursor old hidden)
            (removed_nothing desktop width old i)
      | inr shown ↦ rw (add_cursor-shown desktop width height cursor old shown) (
          remove_cursor-draw_area desktop width cursor (clip cursor width height) old i
            (end_col-clip cursor width height))
    ]
