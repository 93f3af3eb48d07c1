-- ===== src/Frame/Differences.antt =====
-- The comparisons of `usb_hal_update_change_rects`: what it says that a row or a column changed.
use lenovo_magicbay_hud_linu.Base.{ℕ, ◌+◌, ◌-◌, ◌*◌, ◌≤◌, ◌<◌, ◌≡◌, ◌≢◌, ap, true, false, arith}
use lenovo_magicbay_hud_linu.Frame.{Rect, Screen, row_changed, col_changed}
use lenovo_magicbay_hud_linu.Frame.Lines.{compare_line-true, compare_line-false}

-- The pixel at a row and a column is not the one that was sent last.
abbrev pub Differs : Screen → ℕ → ℕ → Type 0
Differs s row col = s.image (row * s.width + col) ≢ s.desktop (row * s.width + col)

abbrev pub Agrees : Screen → ℕ → ℕ → Type 0
Agrees s row col = s.image (row * s.width + col) ≡ s.desktop (row * s.width + col)

abbrev pub Inside : Rect → ℕ → ℕ → Type 0
Inside b row col = (b.top ≤ row) × (row < b.bottom) × (b.left ≤ col) × (col < b.right)

pub row_changed-true :
    (s : Screen) (row : ℕ)
    → row_changed s row ≡ true
    → (col : ℕ) × (col < s.width) × Differs s row col
unfolding row_changed
row_changed-true s row h =
    let (k, lt, ne) = compare_line-true s.image s.desktop (row * s.width) 1 s.width h in
    let e : row * s.width + k ≡ row * s.width + k * 1 = omega arith in (k, lt, rw e ne)

pub row_changed-false :
    (s : Screen) (row : ℕ)
    → row_changed s row ≡ false
    → (col : ℕ) → col < s.width
    → Agrees s row col
unfolding row_changed
row_changed-false s row h col lt =
    let e : row * s.width + col ≡ row * s.width + col * 1 = omega arith in
    rw e (compare_line-false s.image s.desktop (row * s.width) 1 s.width h col lt)

pub col_changed-true :
    (s : Screen) (top bottom col : ℕ)
    → col_changed s top bottom col ≡ true
    → (row : ℕ) × (top ≤ row) × (row < bottom) × Differs s row col
unfolding col_changed
col_changed-true s top bottom col h =
    let (k, lt, ne) =
      compare_line-true s.image s.desktop (top * s.width + col) s.width (bottom - top) h in
    let e : (top + k) * s.width + col ≡ top * s.width + col + k * s.width = omega arith in
    (top + k, omega arith, omega arith, rw e ne)

pub col_changed-false :
    (s : Screen) (top bottom col : ℕ)
    → col_changed s top bottom col ≡ false
    → (row : ℕ) → top ≤ row
    → row < bottom
    → Agrees s row col
unfolding col_changed
col_changed-false s top bottom col h row a b =
    let d : row ≡ top + (row - top) = omega arith in
    let e : row * s.width + col ≡ top * s.width + col + (row - top) * s.width =
      omega (arith, ap (λ (t : ℕ). t * s.width) d) in
    rw e (
      compare_line-false s.image s.desktop (top * s.width + col) s.width (bottom - top) h
        (row - top) (omega arith))
