-- ===== src/Frame/Block/Layout.antt =====
-- What a receiver reads out of a packaged block.
use lenovo_magicbay_hud_linu.Base.{
  u16, ℕ, ◌+◌, ◌-◌, ◌*◌, ◌/◌, ◌%◌, ◌≤◌, ◌<◌, ◌≡◌, List, length, get_or, arith, ◌∙◌,
}
use lenovo_magicbay_hud_linu.Base.Memory.{Memory, store, store-before, store-after, store-inside}
use lenovo_magicbay_hud_linu.Base.Tables.{bit_or_nibbles}
use lenovo_magicbay_hud_linu.Frame.{Rect, Pixels}
use lenovo_magicbay_hud_linu.Frame.Yuv.{payload}
use lenovo_magicbay_hud_linu.Frame.Yuv.Range.{length-payload}
use lenovo_magicbay_hud_linu.Frame.Block.{header, trailer, package_block, make_block}

-- The fields of a header as twelve-bit numbers, read from its bytes.
pub record Fields : Type 0 where
  pub column : ℕ
  pub row : ℕ
  pub width : ℕ
  pub height : ℕ

abbrev pub parse_header : (ℕ → ℕ) → Fields
parse_header b = record {
  column = b 2 * 16 + b 3 / 16;
  row = b 3 % 16 * 256 + b 4;
  width = b 5 * 16 + b 6 / 16;
  height = b 6 % 16 * 256 + b 7;
}

-- The header of a block names its column, row, width and height, if each of them is below 4096.
parse_header-header :
    (c r w h : ℕ)
    → c < 4096
    → r < 4096
    → w < 4096
    → h < 4096
    → parse_header (λ i. get_or (header c r w h) i 0)
      ≡ record { column = c; row = r; width = w; height = h }
unfolding header
parse_header-header c r w h pc pr pw ph = ground (
  arith,
  bit_or_nibbles (c % 16) (r / 256) (omega arith) (omega arith),
  bit_or_nibbles (w % 16) (h / 256) (omega arith) (omega arith),
)

module _ (usb : Memory) (size : ℕ) (r : Rect) where
  abbrev header_of : List ℕ
  header_of = header (u16 r.left) (u16 r.top) (u16 (r.right - r.left)) (u16 (r.bottom - r.top))

  -- The trailer does not reach the header.
  package_block-header :
      (k : ℕ) → 16 ≤ size → k < 8 → package_block usb size r k ≡ get_or header_of k 0
  unfolding package_block header
  package_block-header k big lt =
      store-before trailer (store usb 0 header_of) (size - 8) k (omega arith)
      ∙ let e : 0 + k ≡ k = omega arith in rw e at (store-inside header_of usb 0 k lt)

  -- The bytes between the two are left alone.
  package_block-middle : (k : ℕ) → 8 ≤ k → k < size - 8 → package_block usb size r k ≡ usb k
  unfolding package_block header
  package_block-middle k above below =
      store-before trailer (store usb 0 header_of) (size - 8) k below
      ∙ store-after header_of usb 0 k (omega arith)

  package_block-trailer :
      (at k : ℕ) → size ≡ at + 8 → k < 8 → package_block usb size r (at + k) ≡ get_or trailer k 0
  unfolding package_block
  package_block-trailer at k e lt =
      let d : size - 8 ≡ at = omega arith in
      rw d (store-inside trailer (store usb 0 header_of) at k lt)

  parse_header-package_block :
      16 ≤ size
      → r.right < 4096
      → r.bottom < 4096
      → r.left ≤ r.right
      → r.top ≤ r.bottom
      → parse_header (package_block usb size r) ≡ record {
        column = r.left;
        row = r.top;
        width = r.right - r.left;
        height = r.bottom - r.top;
      }
  parse_header-package_block big fr fb hl ht =
      rw
        (
          package_block-header 2 big (omega arith),
          package_block-header 3 big (omega arith),
          package_block-header 4 big (omega arith),
          package_block-header 5 big (omega arith),
          package_block-header 6 big (omega arith),
          package_block-header 7 big (omega arith),
        )
        (parse_header-header (u16 r.left) (u16 r.top) (u16 (r.right - r.left))
            (u16 (r.bottom - r.top)) (omega arith) (omega arith) (omega arith) (omega arith)
          ∙ ground arith)

-- For a rectangle of even width whose ends are in order and below 4096, the header of the block
-- names the rectangle, the pixels follow without a gap, the trailer follows them, and the length
-- counts all three.
pub make_block_layout :
    (usb : Memory) (desktop : Pixels) (width : ℕ) (r : Rect)
    → r.right < 4096
    → r.bottom < 4096
    → r.left ≤ r.right
    → r.top ≤ r.bottom
    → (r.right - r.left) % 2 ≡ 0
    → let (m, len) = make_block usb desktop width r in
      let pixels = payload desktop width r in
      (parse_header m ≡ record {
        column = r.left;
        row = r.top;
        width = r.right - r.left;
        height = r.bottom - r.top;
      })
      × ((k : ℕ) → k < length pixels → m (8 + k) ≡ get_or pixels k 0)
      × ((k : ℕ) → k < 8 → m (8 + length pixels + k) ≡ get_or trailer k 0)
      × (len ≡ length pixels + 16)
unfolding make_block
make_block_layout usb desktop width r fr fb hl ht even =
    let pixels = payload desktop width r in
    let size = (r.right - r.left) * (r.bottom - r.top) * 2 + 16 in
    let e : size ≡ 8 + length pixels + 8 = omega (arith, length-payload desktop width r even) in
    let m = store usb 8 pixels in
    (
      parse_header-package_block m size r (omega arith) fr fb hl ht,
      (λ k lt.
          package_block-middle m size r (8 + k) (omega arith) (omega (arith, e))
          ∙ store-inside pixels usb 8 k lt),
      (λ k lt. package_block-trailer m size r (8 + length pixels) k e lt),
      omega (arith, e),
    )
