-- ===== src/Frame/Box.antt =====
-- The searches of `usb_hal_update_change_rects`: the box that they find, and what its copy leaves.
use lenovo_magicbay_hud_linu.Base.{
  ℕ, suc, ◌+◌, ◌-◌, ◌≤◌, ◌<◌, ◌≡◌, refl, Bool, true, false, none, some, arith, Option-cases, inl,
  inr,
}
use mathlib.Core.Path.{subst}
use mathlib.Core.Option.{some-injective}
use lenovo_magicbay_hud_linu.Base.Loop.{
  first_from, last_from, IsFirst, first_from-none, first_from-some, last_from-none, last_from-some,
}
use lenovo_magicbay_hud_linu.Frame.{
  Rect, Screen, row_changed, col_changed, find_bottom, find_left, find_right, find_box,
}
use lenovo_magicbay_hud_linu.Frame.Differences.{
  Differs, Agrees, Inside, row_changed-true, row_changed-false, col_changed-true, col_changed-false,
}

-- What a search hands on: the last changed row, and the first and the last changed column.
record Ends (n lo : ℕ) (test : ℕ → Bool) (end : ℕ) : Type 0 where
  after : lo < end
  within : end ≤ n
  changed : test (end - 1) ≡ true
  rest : (k : ℕ) → end ≤ k → k < n → test k ≡ false

-- A downward search that begins below a known hit ends just past the last hit.
search_down :
    (n lo : ℕ) (test : ℕ → Bool)
    → lo < n
    → test lo ≡ true
    → Ends n lo test
        (elim (last_from (n - (lo + 1)) (lo + 1) test) [ none ↦ lo + 1 | some j ↦ j + 1 ])
search_down n lo test lt hit = elim (Option-cases (last_from (n - (lo + 1)) (lo + 1) test)) [
  | inl e ↦ rw e (record {
    after = omega arith;
    within = omega arith;
    changed = let q : lo + 1 - 1 ≡ lo = omega arith in rw q hit;
    rest = λ k a b. last_from-none (n - (lo + 1)) (lo + 1) test e k (omega arith) (omega arith);
  })
  | inr (j, e) ↦
      let r = last_from-some (n - (lo + 1)) (lo + 1) test e in
      rw e (record {
        after = omega (arith, r.from);
        within = omega (arith, r.below);
        changed = let q : j + 1 - 1 ≡ j = omega arith in rw q r.passes;
        rest = λ k a b. r.later k (omega arith) (omega arith);
      })
]

find_bottom-Ends :
    (s : Screen) (top : ℕ)
    → top < s.height
    → row_changed s top ≡ true
    → Ends s.height top (row_changed s) (find_bottom s top)
unfolding find_bottom
find_bottom-Ends s top lt hit = search_down s.height top (row_changed s) lt hit

-- The column search finds a column, since the row `top` holds a difference.
find_left-IsFirst :
    (s : Screen) (top bottom : ℕ)
    → top < bottom
    → row_changed s top ≡ true
    → IsFirst s.width 0 (col_changed s top bottom) (find_left s top bottom).0
      × ((find_left s top bottom).1 ≡ (find_left s top bottom).0 + 1)
unfolding find_left
find_left-IsFirst s top bottom lt hit =
    elim (Option-cases (first_from s.width 0 (col_changed s top bottom))) [
      | inl e ↦
          let (col, below, differs) = row_changed-true s top hit in
          let clean =
            first_from-none s.width 0 (col_changed s top bottom) e col (omega arith)
              (omega arith) in
          absurd (differs (col_changed-false s top bottom col clean top (omega arith) lt))
      | inr (col, e) ↦
          rw (e, find_left) (first_from-some s.width 0 (col_changed s top bottom) e, refl)
    ]

find_right-Ends :
    (s : Screen) (top bottom left : ℕ)
    → left < s.width
    → col_changed s top bottom left ≡ true
    → Ends s.width left (col_changed s top bottom) (find_right s top bottom (left + 1))
unfolding find_right
find_right-Ends s top bottom left lt hit =
    search_down s.width left (col_changed s top bottom) lt hit

-- The box that `usb_hal_update_change_rects` finds is the bounding box of the differences.
pub record IsBox (s : Screen) (b : Rect) : Type 0 where
  pub wide : b.left < b.right
  pub high : b.top < b.bottom
  pub in_width : b.right ≤ s.width
  pub in_height : b.bottom ≤ s.height
  pub covers : (row col : ℕ) → row < s.height → col < s.width → Differs s row col → Inside b row col
  pub at_top : (col : ℕ) × (col < s.width) × Differs s b.top col
  pub at_bottom : (col : ℕ) × (col < s.width) × Differs s (b.bottom - 1) col
  pub at_left : (row : ℕ) × (b.top ≤ row) × (row < b.bottom) × Differs s row b.left
  pub at_right : (row : ℕ) × (b.top ≤ row) × (row < b.bottom) × Differs s row (b.right - 1)

le_of_not_lt : (a b : ℕ) → ¬ (a < b) → b ≤ a
le_of_not_lt a b h = omega arith

-- A pixel outside the ends of the searches agrees, so one that differs is inside.
Inside-of_Ends :
    (s : Screen) (top bottom left right row col : ℕ)
    → IsFirst s.height 0 (row_changed s) top
    → Ends s.height top (row_changed s) bottom
    → IsFirst s.width 0 (col_changed s top bottom) left
    → Ends s.width left (col_changed s top bottom) right
    → row < s.height
    → col < s.width
    → Differs s row col
    → Inside (record { left = left; right = right; top = top; bottom = bottom }) row col
Inside-of_Ends s top bottom left right row col t b l r lt lt' d = (
  above,
  below,
  le_of_not_lt col left (λ p. d (clean (l.earlier col (omega arith) p))),
  le_of_not_lt right (suc col) (λ p. d (clean (r.rest col (omega arith) lt'))),
)
  where
    above : top ≤ row
    above =
        le_of_not_lt row top
          (λ p. d (row_changed-false s row (t.earlier row (omega arith) p) col lt'))

    below : row < bottom
    below =
        le_of_not_lt bottom (suc row)
          (λ p. d (row_changed-false s row (b.rest row (omega arith) lt) col lt'))

    clean : col_changed s top bottom col ≡ false → Agrees s row col
    clean e = col_changed-false s top bottom col e row above below

-- The four searches put together, from the row that the first of them found.
IsBox-of_top :
    (s : Screen) (top : ℕ)
    → IsFirst s.height 0 (row_changed s) top
    → let bottom = find_bottom s top in
      let left = (find_left s top bottom).0 in
      let right = find_right s top bottom (find_left s top bottom).1 in
      IsBox s (record { left = left; right = right; top = top; bottom = bottom })
IsBox-of_top s top t =
    let bottom = find_bottom s top in
    let b = find_bottom-Ends s top (omega (arith, t.below)) t.passes in
    let (l, e) = find_left-IsFirst s top bottom b.after t.passes in
    let left = (find_left s top bottom).0 in
    let r = find_right-Ends s top bottom left (omega (arith, l.below)) l.passes in
    rw e (record {
      wide = r.after;
      high = b.after;
      in_width = r.within;
      in_height = b.within;
      covers = λ row col lt lt' d.
          Inside-of_Ends s top bottom left (find_right s top bottom (left + 1)) row col t b l r lt
            lt' d;
      at_top = row_changed-true s top t.passes;
      at_bottom = row_changed-true s (bottom - 1) b.changed;
      at_left = col_changed-true s top bottom left l.passes;
      at_right = col_changed-true s top bottom (find_right s top bottom (left + 1) - 1) r.changed;
    })

-- What `usb_hal_update_change_rects` finds is the bounding box of the pixels that differ: it holds
-- each of them, lies on the screen, is not empty, and each of its four edges holds one.
pub find_box-IsBox : (s : Screen) {b : Rect} → find_box s ≡ some b → IsBox s b
unfolding find_box
find_box-IsBox s {b} h = elim (Option-cases (first_from s.height 0 (row_changed s))) [
  | inl e ↦ absurd (ground (arith, h, e))
  | inr (top, e) ↦
      subst (IsBox s) (some-injective _ _ (rw (e, find_box) at h))
        (IsBox-of_top s top (first_from-some s.height 0 (row_changed s) e))
]

-- `usb_hal_update_change_rects` returns early only where the shadow and the desktop agree at each
-- pixel of the screen.
pub find_box-none :
    (s : Screen)
    → find_box s ≡ none
    → (row col : ℕ) → row < s.height
    → col < s.width
    → Agrees s row col
unfolding find_box
find_box-none s h row col lt lt' = elim (Option-cases (first_from s.height 0 (row_changed s))) [
  | inl e ↦
      row_changed-false s row
        (first_from-none s.height 0 (row_changed s) e row (omega arith) (omega arith)) col lt'
  | inr (top, e) ↦ absurd (ground (arith, h, e))
]
