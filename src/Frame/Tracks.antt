-- ===== src/Frame/Tracks.antt =====
-- The two frames in the chip's memory against the two rectangles of pixels to be sent.
use lenovo_magicbay_hud_linu.Base.{
  Option-cases, ℕ, ◌+◌, ◌*◌, ◌<◌, ◌≡◌, ◌∙◌, sym, ap, ◌⊎◌, inl, inr, ◌==◌, ==_iff, Bool-cases, arith,
}
use lenovo_magicbay_hud_linu.Frame.{
  find_box, combine_rects, Pixels, Rect, Screen, update_change_rects, rect,
}
use lenovo_magicbay_hud_linu.Frame.Differences.{Differs, Agrees, Inside}
use lenovo_magicbay_hud_linu.Frame.Rects.{
  Contains, IsSmall, update_change_rects_covers, update_change_rects_synchronises,
}

-- What a frame of the chip shows is the shadow image, but for pixels that are still to be sent.
abbrev pub Tracks : Screen → Pixels → Rect → Type 0
Tracks s shown r =
    (row col : ℕ)
    → row < s.height
    → col < s.width
    → (shown (row * s.width + col) ≡ s.image (row * s.width + col)) ⊎ Inside r row col

-- What a frame shows before and after it has received the desktop's pixels of a rectangle.
abbrev pub Delivered : Screen → Rect → Pixels → Pixels → Type 0
Delivered s r shown shown' =
    (row col : ℕ)
    → row < s.height
    → col < s.width
    → (Inside r row col × (shown' (row * s.width + col) ≡ s.desktop (row * s.width + col)))
      ⊎ ((¬ Inside r row col) × (shown' (row * s.width + col) ≡ shown (row * s.width + col)))

update_change_rects-size :
    (s : Screen)
    → ((update_change_rects s).width ≡ s.width) × ((update_change_rects s).height ≡ s.height)
unfolding update_change_rects combine_rects
update_change_rects-size s = elim (Option-cases (find_box s)) [
  | inl e ↦ (rw (update_change_rects, e), rw (update_change_rects, e))
  | inr (b, e) ↦ (rw (update_change_rects, e), rw (update_change_rects, e))
]

-- One rectangle: it only grows, and each pixel of the desktop that differs from the old image
-- gets into it.
Tracks-through :
    (s s' : Screen) (shown : Pixels) (r r' : Rect)
    → s'.width ≡ s.width
    → s'.height ≡ s.height
    → Tracks s shown r
    → Contains r' r
    → ((row col : ℕ) → row < s.height → col < s.width → Differs s row col → Inside r' row col)
    → ((row col : ℕ)
        → row < s.height
        → col < s.width
        → s'.image (row * s'.width + col) ≡ s.desktop (row * s.width + col))
    → Tracks s' shown r'
Tracks-through s s' shown r r' w h t c d a row col lt lt' =
    let p : row < s.height = omega arith in
    let q : col < s.width = omega arith in
    elim (t row col p q) [
      | inr i ↦ inr (omega arith)
      | inl e ↦
          elim (Bool-cases (s.image (row * s.width + col) == s.desktop (row * s.width + col))) [
            | inl b ↦
                inl (ap (λ n. shown (row * n + col)) w ∙ e ∙ (==_iff _ _).0 b ∙ sym (a row col p q))
            | inr b ↦ inr (d row col p q (λ x. absurd (ground (arith, b, x))))
          ]
    ]

-- A property of both rectangles, by the index.
rect-both : (P : Rect → Type 0) (s : Screen) (i : ℕ) → P s.rect0 → P s.rect1 → P (rect s i)
unfolding rect
rect-both P s i p q = elim (Bool-cases (i == 0)) [ inl e ↦ rw (rect, e) p | inr e ↦ rw (rect, e) q ]

rect-Contains :
    (s s' : Screen) (i : ℕ)
    → Contains s'.rect0 s.rect0
    → Contains s'.rect1 s.rect1
    → Contains (rect s' i) (rect s i)
unfolding rect
rect-Contains s s' i p q = elim (Bool-cases (i == 0)) [
  | inl e ↦ rw (rect, e) p
  | inr e ↦ rw (rect, e) q
]

-- On a screen whose size and rectangles fit the masks, if a frame of the chip shows the shadow
-- image but for pixels inside its rectangle, then it does so too after the change detection, with
-- the new shadow and the new rectangle.
pub update_change_rects-Tracks :
    (s : Screen) (shown : Pixels) (i : ℕ)
    → IsSmall s
    → Tracks s shown (rect s i)
    → let s' = update_change_rects s in Tracks s' shown (rect s' i)
update_change_rects-Tracks s shown i small t =
    let (covers, c0, c1, small') = update_change_rects_covers s small in
    let (w, h) = update_change_rects-size s in
    let s' = update_change_rects s in
    let agrees : (row col : ℕ)
        → row < s.height
        → col < s.width
        → s'.image (row * s'.width + col) ≡ s.desktop (row * s.width + col) =
      λ row col p q.
        let (x, y) = update_change_rects_synchronises s row col p q in
        x ∙ ap (λ f. f (row * s'.width + col)) y ∙ ap (λ n. s.desktop (row * n + col)) w in
    Tracks-through s s' shown (rect s i) (rect s' i) w h t (rect-Contains s s' i c0 c1)
      (λ row col p q d.
        rect-both (λ r. Inside r row col) s' i (covers row col p q d).0 (covers row col p q d).1)
      agrees

-- The screen is the one that the detection returns: it changes neither the width nor the height.
pub update_change_rects-rebuild :
    (s : Screen)
    → let s' = update_change_rects s in
      record s { image = s'.image; desktop = s'.desktop; rect0 = s'.rect0; rect1 = s'.rect1 } ≡ s'
unfolding update_change_rects combine_rects
update_change_rects-rebuild s = elim (Option-cases (find_box s)) [
  | inl e ↦ rw (update_change_rects, e)
  | inr (b, e) ↦ rw (update_change_rects, e)
]

-- A delivered rectangle leaves nothing of it to be sent.
pub Delivered-all :
    (s : Screen) (shown shown' : Pixels) (r : Rect)
    → ((row col : ℕ) → row < s.height → col < s.width → Agrees s row col)
    → Tracks s shown r
    → Delivered s r shown shown'
    → (row col : ℕ) → row < s.height
    → col < s.width
    → shown' (row * s.width + col) ≡ s.desktop (row * s.width + col)
Delivered-all s shown shown' r a t d row col p q = elim (t row col p q) [
  | inl e ↦ elim (d row col p q) [ inl (i, x) ↦ x | inr (i, x) ↦ x ∙ e ∙ a row col p q ]
  | inr i ↦ elim (d row col p q) [ inl (j, x) ↦ x | inr (j, x) ↦ absurd (j i) ]
]

-- A rectangle only grows.
pub update_change_rects-Contains :
    (s : Screen) (i : ℕ) → IsSmall s → Contains (rect (update_change_rects s) i) (rect s i)
update_change_rects-Contains s i small =
    let (covers, c0, c1, small') = update_change_rects_covers s small in
    rect-Contains s (update_change_rects s) i c0 c1
