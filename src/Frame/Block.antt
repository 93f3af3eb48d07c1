-- ===== src/Frame/Block.antt =====
-- `usb_hal_package_block` of usb_hal/usb_hal_thread.c: the eight bytes before and the eight bytes
-- behind the pixels of a block.
pub mod Layout
use lenovo_magicbay_hud_linu.Base.{
  ℕ, ◌+◌, ◌-◌, List, [], ◌∷◌, bit_or, u8, u16, field, low_bits, shr, shl,
}
use lenovo_magicbay_hud_linu.Base.Memory.{Memory, store}
use lenovo_magicbay_hud_linu.Frame.{Rect, Pixels}
use lenovo_magicbay_hud_linu.Frame.Yuv.{image_to_yuv}

-- The eight bytes that the first group of `*pdata++` stores.
pub header : ℕ → ℕ → ℕ → ℕ → List ℕ
header coladdr rowaddr width height =
    0xFF
    ∷ 0x00
    ∷ u8 (shr (field coladdr 4 8) 4)
    ∷ bit_or (u8 (shl (low_bits coladdr 4) 4)) (shr (field rowaddr 8 4) 8)
    ∷ u8 (low_bits rowaddr 8)
    ∷ u8 (shr (field width 4 8) 4)
    ∷ bit_or (u8 (shl (low_bits width 4) 4)) (shr (field height 8 4) 8)
    ∷ u8 (low_bits height 8)
    ∷ []

abbrev pub trailer : List ℕ
trailer = 0xFF ∷ 0xC0 ∷ 0 ∷ 0 ∷ 0 ∷ 0 ∷ 0 ∷ 0 ∷ []

-- The arguments are `usb_buf.buf`, `usb_buf.len` and the rectangle.
pub package_block : Memory → ℕ → Rect → Memory
package_block usb size r =
    store
      (store usb 0
        (header (u16 r.left) (u16 r.top) (u16 (r.right - r.left)) (u16 (r.bottom - r.top))))
      (size - 8) trailer

-- The two calls of `usb_hal_dev_send_frame`: the buffer and the length that go to the URB.
pub make_block : Memory → Pixels → ℕ → Rect → Memory × ℕ
unfolding package_block image_to_yuv
make_block usb desktop width r =
    let (m, len) = image_to_yuv usb desktop width r in (package_block m len r, len)
