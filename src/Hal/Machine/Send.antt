-- ===== src/Hal/Machine/Send.antt =====
-- What sending a block does for the frame of the chip that receives it.
use mathlib.Core.Path.{subst}
use lenovo_magicbay_hud_linu.Base.{
  leb→le, ℕ, ◌+◌, ◌*◌, ◌<◌, ◌≤◌, ◌≡◌, ◌∙◌, refl, sym, ap, inl, inr, Bool, true, false, ◌∷◌, ◌==◌,
  Bool-cases, arith, failed, fail, if◌then◌else◌,
}
use lenovo_magicbay_hud_linu.Frame.{Pixels, Screen, clear_rect, clear_rect_of, rect}
use lenovo_magicbay_hud_linu.Frame.Block.{make_block}
use lenovo_magicbay_hud_linu.Frame.Rects.{IsSmall}
use lenovo_magicbay_hud_linu.Frame.Tracks.{Tracks, Delivered, Delivered-all}
use lenovo_magicbay_hud_linu.Hal.{Hal, screen_of}
use lenovo_magicbay_hud_linu.Hal.Machine.{World, Urb, draw, no_pixels, send_block, send_frame}
use lenovo_magicbay_hud_linu.Hal.Machine.Ready.{ready, ready-Tracks, ready-Agrees}

abbrev pub other_index : ℕ → ℕ
other_index i = if i == 0 then 1 else 0

pub send_frame-empty :
    (urb : Urb) (now : ℕ) (w : World)
    → no_pixels (ready w) ≡ true
    → send_frame urb now w ≡ (fail failed, record w { hal = ready w })
unfolding send_frame
send_frame-empty urb now w e = rw (send_frame, e)

pub send_frame-block :
    (urb : Urb) (now : ℕ) (w : World)
    → no_pixels (ready w) ≡ false
    → send_frame urb now w ≡ (
        let (sent, (h', block)) = send_block urb now (ready w) in
        (sent, record w { hal = h'; blocks = block ∷ w.blocks }))
unfolding send_frame
send_frame-block urb now w e = rw (send_frame, e)

-- The state after a block has been handed to the bus.
abbrev pub sent_state : Urb → ℕ → Hal → Hal
sent_state urb now h = (send_block urb now h).1.0

cleared_by :
    (b : Bool) (s : Screen) (shown' other : Pixels)
    → ((row col : ℕ)
        → row < s.height
        → col < s.width
        → shown' (row * s.width + col) ≡ s.image (row * s.width + col))
    → Tracks s other (rect s (if b then 1 else 0))
    → let s' =
        if b then record s { rect0 = clear_rect_of s } else record s { rect1 = clear_rect_of s } in
      Tracks s' shown' (if b then s'.rect0 else s'.rect1)
      × Tracks s' other (rect s' (if b then 1 else 0))
unfolding rect
cleared_by true s shown' other a t = (λ row col p q. inl (a row col p q), t)
cleared_by false s shown' other a t = (λ row col p q. inl (a row col p q), t)

pub sent-screen :
    (urb : Urb) (now : ℕ) (h : Hal)
    → screen_of (sent_state urb now h) ≡ clear_rect (screen_of h) h.frame_index
unfolding send_block clear_rect
sent-screen urb now h = elim (Bool-cases (h.frame_index == 0)) [
  | inl e ↦ rw (clear_rect, e)
  | inr e ↦ rw (clear_rect, e)
]

cleared-Tracks :
    (urb : Urb) (now : ℕ) (h : Hal) (shown' other : Pixels)
    → ((row col : ℕ)
        → row < h.mode.height
        → col < h.mode.width
        → shown' (row * h.mode.width + col) ≡ h.image (row * h.mode.width + col))
    → Tracks (screen_of h) other (rect (screen_of h) (other_index h.frame_index))
    → let s' = screen_of (sent_state urb now h) in
      Tracks s' shown' (rect s' h.frame_index)
      × Tracks s' other (rect s' (other_index h.frame_index))
unfolding rect clear_rect
cleared-Tracks urb now h shown' other a t =
    subst
      (λ (s : Screen).
        Tracks s shown' (rect s h.frame_index)
        × Tracks s other (rect s (other_index h.frame_index)))
      (sym (sent-screen urb now h)) (cleared_by (h.frame_index == 0) (screen_of h) shown' other a t)

-- What holds of the state `w'` after the block of the state `h` is sent.
abbrev pub Shows : World → Hal → World → Pixels → Pixels → Type 0
Shows w h w' shown' other =
    (w'.blocks
      ≡ make_block h.usb_buf h.desktop h.mode.width (rect (screen_of h) h.frame_index) ∷ w.blocks)
    × ((row col : ℕ)
        → row < h.mode.height
        → col < h.mode.width
        → shown' (row * h.mode.width + col) ≡ h.desktop (row * h.mode.width + col))
    × Tracks (screen_of w'.hal) shown' (rect (screen_of w'.hal) h.frame_index)
    × Tracks (screen_of w'.hal) other (rect (screen_of w'.hal) (other_index h.frame_index))
    × (w'.hal.frame_index ≡ other_index h.frame_index)

block_sent :
    (urb : Urb) (now : ℕ) (h : Hal) (w : World)
    → (send_block urb now h).1.1 ∷ w.blocks
      ≡ make_block h.usb_buf h.desktop h.mode.width (rect (screen_of h) h.frame_index) ∷ w.blocks
unfolding send_block
block_sent urb now h w = refl

pub index_flips :
    (urb : Urb) (now : ℕ) (h : Hal) → (sent_state urb now h).frame_index ≡ other_index h.frame_index
unfolding send_block
index_flips urb now h = refl

-- Of a display whose size and rectangles fit the masks, let the two frames of the chip show the
-- shadow image but for pixels inside their rectangles. If there are pixels to send, one block is
-- sent, made of the rectangle of the frame whose turn it is. Once the frame has received it, it
-- shows the desktop, pointer included, all over the screen, both frames still lack no pixel
-- outside their rectangles, and it is the other frame's turn.
pub send_frame-Shows :
    (urb : Urb) (now : ℕ) (w : World) (shown other shown' : Pixels)
    → IsSmall (screen_of w.hal)
    → Tracks (screen_of w.hal) shown (rect (screen_of w.hal) w.hal.frame_index)
    → Tracks (screen_of w.hal) other (rect (screen_of w.hal) (other_index w.hal.frame_index))
    → no_pixels (ready w) ≡ false
    → Delivered (screen_of (ready w)) (rect (screen_of (ready w)) w.hal.frame_index) shown shown'
    → Shows w (ready w) (send_frame urb now w).1 shown' other
unfolding draw
send_frame-Shows urb now w shown other shown' small t t' some_pixels d =
    let h = ready w in
    let sent = send_block urb now h in
    let w2 : World = record w { hal = sent.1.0; blocks = sent.1.1 ∷ w.blocks } in
    let agrees : (row col : ℕ)
        → row < h.mode.height
        → col < h.mode.width
        → h.image (row * h.mode.width + col) ≡ h.desktop (row * h.mode.width + col) =
      λ row col p q. ready-Agrees w row col p q in
    let all =
      Delivered-all (screen_of h) shown shown' (rect (screen_of h) w.hal.frame_index) agrees
        (ready-Tracks w shown w.hal.frame_index small t) d in
    let (c, c') =
      cleared-Tracks urb now h shown' other
        (λ row col p q. all row col p q ∙ sym (agrees row col p q))
        (ready-Tracks w other (other_index w.hal.frame_index) small t') in
    subst (λ (w' : World). Shows w h w' shown' other)
      (sym (ap (λ r. r.1) (send_frame-block urb now w some_pixels)))
      (block_sent urb now h w, all, c, c', index_flips urb now h)

-- Of a display whose size and rectangles fit the masks, let the frame whose turn it is show the
-- shadow image but for pixels inside its rectangle. If there are no pixels to send, it shows the
-- desktop already; nothing is sent, the code is -1, and it stays its turn.
pub send_frame_idle :
    (urb : Urb) (now : ℕ) (w : World) (shown : Pixels)
    → IsSmall (screen_of w.hal)
    → Tracks (screen_of w.hal) shown (rect (screen_of w.hal) w.hal.frame_index)
    → no_pixels (ready w) ≡ true
    → let h = ready w in
      (send_frame urb now w ≡ (fail failed, record w { hal = h }))
      × ((row col : ℕ)
          → row < h.mode.height
          → col < h.mode.width
          → shown (row * h.mode.width + col) ≡ h.desktop (row * h.mode.width + col))
      × (h.frame_index ≡ w.hal.frame_index)
unfolding draw
send_frame_idle urb now w shown small t none_left =
    let h = ready w in
    let r = rect (screen_of h) h.frame_index in
    let le : r.right ≤ r.left = leb→le r.right r.left none_left in
    (
      send_frame-empty urb now w none_left,
      (λ row col p q. elim (ready-Tracks w shown w.hal.frame_index small t row col p q) [
        | inl e ↦ e ∙ ready-Agrees w row col p q
        | inr i ↦ absurd (omega arith)
      ]),
      refl,
    )

-- With pixels to send, a block of them is sent.
pub send_frame-sent :
    (urb : Urb) (now : ℕ) (w : World)
    → no_pixels (ready w) ≡ false
    → let h = ready w in
      (send_frame urb now w).1.blocks
      ≡ make_block h.usb_buf h.desktop h.mode.width (rect (screen_of h) h.frame_index) ∷ w.blocks
send_frame-sent urb now w e =
    ap (λ r. r.1.blocks) (send_frame-block urb now w e) ∙ block_sent urb now (ready w) w
