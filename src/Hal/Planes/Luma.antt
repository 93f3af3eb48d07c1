-- ===== src/Hal/Planes/Luma.antt =====
-- The brightness of a planar picture after the copy.
use lenovo_magicbay_hud_linu.Base.{
  ℕ, zero, suc, ◌+◌, ◌-◌, ◌*◌, ◌/◌, ◌%◌, ◌≤◌, ◌<◌, ◌≡◌, ◌∙◌, refl, sym, ap, arith, leb, Bool-cases,
  inl, inr,
}
use lenovo_magicbay_hud_linu.Base.Memory.{Memory}
use lenovo_magicbay_hud_linu.Hal.{Mode}
use lenovo_magicbay_hud_linu.Hal.Planes.{
  y_line, y_plane, put_colour, uv_line, uv_plane, u_v_line, u_v_plane, mean_line, mean_rows,
  repeat_line, scale_up_linear, y_copy, cpy_nv12_to_yuv422p, cpy_yuv420_to_yuv422p,
  cpy_nv16_to_yuv422p,
}

-- The colours of a pair do not touch the brightness bytes.
put_colour-luma : (dst : Memory) (d u v p : ℕ) → put_colour dst d u v (2 * p + 1) ≡ dst (2 * p + 1)
put_colour-luma dst d u v p = ground arith

uv_line-luma :
    (n : ℕ) (dst buf : Memory) (d s p : ℕ) → uv_line n dst buf d s (2 * p + 1) ≡ dst (2 * p + 1)
unfolding uv_line
uv_line-luma zero dst buf d s p = refl
uv_line-luma (suc n) dst buf d s p =
    uv_line-luma n (put_colour dst d (buf s) (buf (s + 1))) buf (d + 1) (s + 2) p
    ∙ put_colour-luma dst d (buf s) (buf (s + 1)) p

uv_plane-luma :
    (rows : ℕ) (dst buf : Memory) (d s n skip p : ℕ)
    → uv_plane rows dst buf d s n skip (2 * p + 1) ≡ dst (2 * p + 1)
unfolding uv_plane
uv_plane-luma zero dst buf d s n skip p = refl
uv_plane-luma (suc rows) dst buf d s n skip p =
    uv_plane-luma rows (uv_line n dst buf d s) buf (d + n + skip) (s + 2 * n) n skip p
    ∙ uv_line-luma n dst buf d s p

u_v_line-luma :
    (n : ℕ) (dst buf : Memory) (d u v p : ℕ)
    → u_v_line n dst buf d u v (2 * p + 1) ≡ dst (2 * p + 1)
unfolding u_v_line
u_v_line-luma zero dst buf d u v p = refl
u_v_line-luma (suc n) dst buf d u v p =
    u_v_line-luma n (put_colour dst d (buf u) (buf v)) buf (d + 1) (u + 1) (v + 1) p
    ∙ put_colour-luma dst d (buf u) (buf v) p

u_v_plane-luma :
    (rows : ℕ) (dst buf : Memory) (d u v n skip p : ℕ)
    → u_v_plane rows dst buf d u v n skip (2 * p + 1) ≡ dst (2 * p + 1)
unfolding u_v_plane
u_v_plane-luma zero dst buf d u v n skip p = refl
u_v_plane-luma (suc rows) dst buf d u v n skip p =
    u_v_plane-luma rows (u_v_line n dst buf d u v) buf (d + n + skip) (u + n) (v + n) n skip p
    ∙ u_v_line-luma n dst buf d u v p

mean_line-luma :
    (n : ℕ) (dst : Memory) (top cur bottom p : ℕ)
    → mean_line n dst top cur bottom (2 * p + 1) ≡ dst (2 * p + 1)
unfolding mean_line
mean_line-luma zero dst top cur bottom p = refl
mean_line-luma (suc n) dst top cur bottom p =
    mean_line-luma n _ (top + 1) (cur + 1) (bottom + 1) p ∙ put_colour-luma dst cur _ _ p

mean_rows-luma :
    (n : ℕ) (dst : Memory) (i width p : ℕ) → mean_rows n dst i width (2 * p + 1) ≡ dst (2 * p + 1)
unfolding mean_rows
mean_rows-luma zero dst i width p = refl
mean_rows-luma (suc n) dst i width p =
    mean_rows-luma n _ (i + 2) width p ∙ mean_line-luma (width / 2) dst _ _ _ p

repeat_line-luma :
    (n : ℕ) (dst : Memory) (top cur p : ℕ) → repeat_line n dst top cur (2 * p + 1) ≡ dst (2 * p + 1)
unfolding repeat_line
repeat_line-luma zero dst top cur p = refl
repeat_line-luma (suc n) dst top cur p =
    repeat_line-luma n _ (top + 1) (cur + 1) p ∙ put_colour-luma dst cur _ _ p

scale_up-luma :
    (dst : Memory) (width height p : ℕ)
    → scale_up_linear dst width height (2 * p + 1) ≡ dst (2 * p + 1)
unfolding scale_up_linear
scale_up-luma dst width height p =
    repeat_line-luma (width / 2) _ _ _ p ∙ mean_rows-luma ((height - 1) / 2) dst 1 width p

y_line-before : (n : ℕ) (dst buf : Memory) (d s i : ℕ) → i < 4 * d → y_line n dst buf d s i ≡ dst i
unfolding y_line
y_line-before zero dst buf d s i lt = refl
y_line-before (suc n) dst buf d s i lt =
    y_line-before n _ buf (d + 1) (s + 2) i (omega arith) ∙ ground arith

y_plane-before :
    (rows : ℕ) (dst buf : Memory) (d s n i : ℕ) → i < 4 * d → y_plane rows dst buf d s n i ≡ dst i
unfolding y_plane
y_plane-before zero dst buf d s n i lt = refl
y_plane-before (suc rows) dst buf d s n i lt =
    y_plane-before rows _ buf (d + n) (s + 2 * n) n i (omega arith)
    ∙ y_line-before n dst buf d s i lt

y_line-luma :
    (n : ℕ) (dst buf : Memory) (d s p : ℕ)
    → p < 2 * n
    → y_line n dst buf d s (2 * (2 * d + p) + 1) ≡ buf (s + p)
unfolding y_line
y_line-luma zero dst buf d s p lt = absurd (omega arith)
y_line-luma (suc n) dst buf d s zero lt =
    y_line-before n _ buf (d + 1) (s + 2) (2 * (2 * d + 0) + 1) (omega arith)
    ∙ (let e : buf (s + 0) ≡ buf s = ap buf (omega arith) in ground (arith, e))
y_line-luma (suc n) dst buf d s (suc zero) lt =
    y_line-before n _ buf (d + 1) (s + 2) (2 * (2 * d + 1) + 1) (omega arith) ∙ ground arith
y_line-luma (suc n) dst buf d s (suc (suc p)) lt =
    let e : 2 * (2 * d + suc (suc p)) + 1 ≡ 2 * (2 * (d + 1) + p) + 1 = omega arith in
    let f : s + suc (suc p) ≡ s + 2 + p = omega arith in
    rw (e, f) (y_line-luma n _ buf (d + 1) (s + 2) p (omega arith))

y_plane-luma :
    (rows : ℕ) (dst buf : Memory) (d s n p : ℕ)
    → p < rows * (2 * n)
    → y_plane rows dst buf d s n (2 * (2 * d + p) + 1) ≡ buf (s + p)
unfolding y_plane
y_plane-luma zero dst buf d s n p lt = absurd (omega arith)
y_plane-luma (suc rows) dst buf d s n p lt = elim (Bool-cases (leb (2 * n) p)) [
  | inl e ↦
      let le : 2 * n ≤ p = ground arith in
      let q : 2 * (2 * d + p) + 1 ≡ 2 * (2 * (d + n) + (p - 2 * n)) + 1 = omega arith in
      let r : s + p ≡ s + 2 * n + (p - 2 * n) = omega arith in
      rw (q, r) (y_plane-luma rows _ buf (d + n) (s + 2 * n) n (p - 2 * n) (grind arith))
  | inr e ↦
      let g : p < 2 * n = ground arith in
      y_plane-before rows _ buf (d + n) (s + 2 * n) n (2 * (2 * d + p) + 1) (omega arith)
      ∙ y_line-luma n dst buf d s p g
]

y_copy-luma :
    (dst buf : Memory) (m : Mode) (p : ℕ)
    → m.width % 2 ≡ 0
    → p < m.width * m.height
    → y_copy dst buf m (2 * p + 1) ≡ buf p
y_copy-luma dst buf m p even lt =
    let n = (m.width + 1) / 2 in
    let e : 2 * p + 1 ≡ 2 * (2 * 0 + p) + 1 = omega arith in
    let w : m.width ≡ 2 * n = omega arith in
    let c : m.height * (2 * n) ≡ m.width * m.height =
      ap (λ k. m.height * k) (sym w) ∙ grind arith in
    rw e (y_plane-luma m.height dst buf 0 0 n p (omega (arith, c, lt)) ∙ ap buf (omega arith))

-- In each of the three planar formats, each pixel of a picture of even width keeps its brightness:
-- the byte of pixel number `p` is in the byte `2 * p + 1` of the packed picture.
planar_luma :
    (dst buf : Memory) (m : Mode) (p : ℕ)
    → m.width % 2 ≡ 0
    → p < m.width * m.height
    → (cpy_nv16_to_yuv422p dst buf m (2 * p + 1) ≡ buf p)
      × (cpy_nv12_to_yuv422p dst buf m (2 * p + 1) ≡ buf p)
      × (cpy_yuv420_to_yuv422p dst buf m (2 * p + 1) ≡ buf p)
unfolding cpy_nv16_to_yuv422p cpy_nv12_to_yuv422p cpy_yuv420_to_yuv422p
planar_luma dst buf m p even lt =
    let y = y_copy-luma dst buf m p even lt in
    (
      uv_plane-luma m.height _ buf 0 _ _ _ p ∙ y,
      scale_up-luma _ m.width m.height p ∙ uv_plane-luma (m.height / 2) _ buf 0 _ _ _ p ∙ y,
      scale_up-luma _ m.width m.height p ∙ u_v_plane-luma (m.height / 2) _ buf 0 _ _ _ _ p ∙ y,
    )
