-- ===== src/Frame/Yuv.antt =====
-- `usb_hal_image_to_yuv` of usb_hal/usb_hal_thread.c: two BGRX pixels make four bytes U Y V Y.
pub mod Range
use lenovo_magicbay_hud_linu.Base.{
  ℕ, zero, suc, ◌+◌, ◌-◌, ◌*◌, ◌/◌, ◌%◌, ◌^◌, List, [], ◌∷◌, ◌++◌, u8, ltb, if◌then◌else◌,
}
use lenovo_magicbay_hud_linu.Base.Int.{ℤ, pos, negsuc, ◌+ℤ◌, sub_ℕ, shr_ℤ}
use lenovo_magicbay_hud_linu.Base.Memory.{Memory, store}
use lenovo_magicbay_hud_linu.Frame.{Pixels, Rect}

-- The bytes of a 32-bit pixel, in the order of memory.
abbrev pub blue : ℕ → ℕ
blue p = p % 2 ^ 8

abbrev pub green : ℕ → ℕ
green p = p / 2 ^ 8 % 2 ^ 8

abbrev pub red : ℕ → ℕ
red p = p / 2 ^ 16 % 2 ^ 8

-- the macro `CHAR_RANGE`
pub char_range : ℤ → ℕ
char_range (pos n) = if ltb 255 n then 255 else n
char_range (negsuc n) = 0

-- `y0`, `u0` and `v0` of one pixel, before the clamp
pub luma : ℕ → ℤ
luma p = pos ((263 * red p + 516 * green p + 97 * blue p) / 2 ^ 10 + 16)

pub chroma_u : ℕ → ℤ
chroma_u p = shr_ℤ (sub_ℕ (450 * blue p) (152 * red p + 298 * green p)) (2 ^ 10) +ℤ pos 128

pub chroma_v : ℕ → ℤ
chroma_v p = shr_ℤ (sub_ℕ (450 * red p) (377 * green p + 73 * blue p)) (2 ^ 10) +ℤ pos 128

-- The body of the inner loop: the bytes that it stores for the pixels `p` and `q`.
pub yuv_pair : ℕ → ℕ → List ℕ
unfolding char_range luma chroma_u chroma_v
yuv_pair p q =
    u8 (char_range (shr_ℤ (chroma_u p +ℤ chroma_u q) 2))
    ∷ u8 (char_range (luma p))
    ∷ u8 (char_range (shr_ℤ (chroma_v p +ℤ chroma_v q) 2))
    ∷ u8 (char_range (luma q))
    ∷ []

-- The inner loop: `n` rounds from the pixel at `at`.
pub yuv_line : ℕ → Pixels → ℕ → List ℕ
yuv_line zero src at = []
yuv_line (suc n) src at = yuv_pair (src at) (src (at + 1)) ++ yuv_line n src (at + 2)

-- The outer loop: `n` rows; `i < block_width; i += 2` runs (block_width + 1) / 2 times.
pub yuv_rows : ℕ → Pixels → ℕ → ℕ → ℕ → List ℕ
yuv_rows zero src at stride width = []
yuv_rows (suc n) src at stride width =
    yuv_line ((width + 1) / 2) src at ++ yuv_rows n src (at + stride) stride width

-- What is written at `usb_buf.buf + 8` for the rectangle.
pub payload : Pixels → ℕ → Rect → List ℕ
payload desktop width r =
    yuv_rows (r.bottom - r.top) desktop (r.top * width + r.left) width (r.right - r.left)

-- The buffer and `usb_buf.len` afterwards.
unfoldable pub image_to_yuv : Memory → Pixels → ℕ → Rect → Memory × ℕ
image_to_yuv usb desktop width r =
    (store usb 8 (payload desktop width r), (r.right - r.left) * (r.bottom - r.top) * 2 + 16)
