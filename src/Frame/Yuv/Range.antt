-- ===== src/Frame/Yuv/Range.antt =====
-- The range of the converted bytes, and the length of what is stored.
use lenovo_magicbay_hud_linu.Base.{
  ℕ, zero, suc, ◌+◌, ◌-◌, ◌*◌, ◌/◌, ◌%◌, ◌^◌, ◌≤◌, ◌≡◌, refl, ap, [], ◌∷◌, length, length-append,
  arith, u8,
}
use lenovo_magicbay_hud_linu.Base.Int.{ℤ, pos, ◌+ℤ◌, sub_ℕ, shr_ℤ, pos_part, neg_part}
use lenovo_magicbay_hud_linu.Frame.{Pixels, Rect}
use lenovo_magicbay_hud_linu.Frame.Yuv.{
  red, green, blue, luma, chroma_u, chroma_v, char_range, yuv_pair, yuv_line, yuv_rows, payload,
}

-- A signed value that lies between two numbers.
record Between (lo hi : ℕ) (z : ℤ) : Type 0 where
  not_negative : neg_part z ≡ 0
  above : lo ≤ pos_part z
  below : pos_part z ≤ hi

-- The common form of both chroma values: a difference, shifted, and moved to the middle.
centred :
    (a b : ℕ) → a ≤ 114750 → b ≤ 114750 → Between 15 240 (shr_ℤ (sub_ℕ a b) (2 ^ 10) +ℤ pos 128)
unfolding ◌+ℤ◌
centred a b h k = ground arith

centred_same : (a : ℕ) → shr_ℤ (sub_ℕ a a) (2 ^ 10) +ℤ pos 128 ≡ pos 128
unfolding ◌+ℤ◌
centred_same a = ground arith

chroma_u-Between : (p : ℕ) → Between 15 240 (chroma_u p)
unfolding chroma_u
chroma_u-Between p =
    centred (450 * blue p) (152 * red p + 298 * green p) (omega arith) (omega arith)

chroma_v-Between : (p : ℕ) → Between 15 240 (chroma_v p)
unfolding chroma_v
chroma_v-Between p = centred (450 * red p) (377 * green p + 73 * blue p) (omega arith) (omega arith)

luma-Between : (p : ℕ) → Between 16 235 (luma p)
unfolding luma
luma-Between p = omega arith

-- The mean of two values in a range stays in it.
mean-Between : (a b : ℤ) → Between 15 240 a → Between 15 240 b → Between 15 240 (shr_ℤ (a +ℤ b) 2)
unfolding ◌+ℤ◌
mean-Between a b h k = ground arith

-- The clamp and the cast to a byte change nothing in the range of a byte.
clamp-Between :
    (lo hi : ℕ) (z : ℤ)
    → hi ≤ 255
    → Between lo hi z
    → (u8 (char_range z) ≡ pos_part z) × (lo ≤ u8 (char_range z)) × (u8 (char_range z) ≤ hi)
unfolding char_range
clamp-Between lo hi z h k = ground arith

-- The four bytes of a pair of pixels are the luma of each, in 16..235, and the means of the two
-- chromas, in 15..240, so that neither the clamp nor the cast to a byte changes a value.
pub yuv_pair_range :
    (p q : ℕ)
    → (u y0 v y1 : ℕ) × (yuv_pair p q ≡ u ∷ y0 ∷ v ∷ y1 ∷ [])
      × (u ≡ pos_part (shr_ℤ (chroma_u p +ℤ chroma_u q) 2))
      × (v ≡ pos_part (shr_ℤ (chroma_v p +ℤ chroma_v q) 2))
      × (y0 ≡ pos_part (luma p))
      × (y1 ≡ pos_part (luma q))
      × (15 ≤ u)
      × (u ≤ 240)
      × (15 ≤ v)
      × (v ≤ 240)
      × (16 ≤ y0)
      × (y0 ≤ 235)
      × (16 ≤ y1)
      × (y1 ≤ 235)
unfolding yuv_pair
yuv_pair_range p q =
    let u =
      clamp-Between 15 240 (shr_ℤ (chroma_u p +ℤ chroma_u q) 2) (omega arith)
        (mean-Between (chroma_u p) (chroma_u q) (chroma_u-Between p) (chroma_u-Between q)) in
    let v =
      clamp-Between 15 240 (shr_ℤ (chroma_v p +ℤ chroma_v q) 2) (omega arith)
        (mean-Between (chroma_v p) (chroma_v q) (chroma_v-Between p) (chroma_v-Between q)) in
    let y0 = clamp-Between 16 235 (luma p) (omega arith) (luma-Between p) in
    let y1 = clamp-Between 16 235 (luma q) (omega arith) (luma-Between q) in
    (_, _, _, _, refl, u.0, v.0, y0.0, y1.0, u.1, u.2, v.1, v.2, y0.1, y0.2, y1.1, y1.2)

-- A grey pixel has no colour: its chroma is the middle of the range.
chroma_u_grey : (p : ℕ) → red p ≡ blue p → green p ≡ blue p → chroma_u p ≡ pos 128
unfolding chroma_u
chroma_u_grey p r g =
    let e : 152 * red p + 298 * green p ≡ 450 * blue p = omega arith in
    rw e (centred_same (450 * blue p))

chroma_v_grey : (p : ℕ) → red p ≡ blue p → green p ≡ blue p → chroma_v p ≡ pos 128
unfolding chroma_v
chroma_v_grey p r g =
    let e : 377 * green p + 73 * blue p ≡ 450 * red p = omega arith in
    rw e (centred_same (450 * red p))

-- Two pixels whose three colours are equal are sent with both chroma bytes at 128, whatever their
-- brightness.
yuv_pair_grey :
    (p q : ℕ)
    → red p ≡ blue p
    → green p ≡ blue p
    → red q ≡ blue q
    → green q ≡ blue q
    → (y0 y1 : ℕ) × (yuv_pair p q ≡ 128 ∷ y0 ∷ 128 ∷ y1 ∷ [])
unfolding yuv_pair char_range ◌+ℤ◌
yuv_pair_grey p q rp gp rq gq = (
  u8 (char_range (luma p)),
  u8 (char_range (luma q)),
  rw (chroma_u_grey p rp gp, chroma_u_grey q rq gq, chroma_v_grey p rp gp, chroma_v_grey q rq gq),
)

length-yuv_line : (n : ℕ) (src : Pixels) (at : ℕ) → length (yuv_line n src at) ≡ 4 * n
unfolding yuv_line yuv_pair
length-yuv_line zero src at = refl
length-yuv_line (suc n) src at = omega (arith, length-yuv_line n src (at + 2))

length-yuv_rows :
    (n : ℕ) (src : Pixels) (at stride width : ℕ)
    → length (yuv_rows n src at stride width) ≡ n * (4 * ((width + 1) / 2))
unfolding yuv_rows
length-yuv_rows zero src at stride width = omega arith
length-yuv_rows (suc n) src at stride width = omega (
  arith,
  length-append (yuv_line ((width + 1) / 2) src at) (yuv_rows n src (at + stride) stride width),
  length-yuv_line ((width + 1) / 2) src at,
  length-yuv_rows n src (at + stride) stride width,
)

-- For a rectangle of even width the bytes that are stored are two to a pixel.
pub length-payload :
    (desktop : Pixels) (width : ℕ) (r : Rect)
    → (r.right - r.left) % 2 ≡ 0
    → length (payload desktop width r) ≡ (r.right - r.left) * (r.bottom - r.top) * 2
unfolding payload
length-payload desktop width r even =
    let e : 4 * ((r.right - r.left + 1) / 2) ≡ 2 * (r.right - r.left) = omega arith in
    omega (
      arith,
      ap (λ (t : ℕ). (r.bottom - r.top) * t) e,
      length-yuv_rows (r.bottom - r.top) desktop (r.top * width + r.left) width (r.right - r.left),
    )
