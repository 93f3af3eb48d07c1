-- ===== src/Drm/Dump/Reading.antt =====
-- What a reader of the BMP file finds.
use lenovo_magicbay_hud_linu.Base.{
  ℕ, zero, suc, ◌+◌, ◌-◌, ◌*◌, ◌/◌, ◌^◌, ◌<◌, ◌≤◌, ◌≡◌, ◌∙◌, refl, sym, ap, arith, List, [], ◌∷◌,
  ◌++◌, Option, some, max, get_elem?, get_or, length, length-append, length-drop, drop, drop-append,
  u32,
}
use lenovo_magicbay_hud_linu.Base.Memory.{Memory}
use lenovo_magicbay_hud_linu.Drm.Dump.{
  bmp_file_header, bmp_info_header, bytes, bmp_rows, write_over, save_buf_to_bmp,
}

get-past :
    (xs ys : List ℕ) (n k : ℕ) → length xs ≡ n → get_elem? (xs ++ ys) (n + k) ≡ get_elem? ys k
get-past [] ys n k e = ap (get_elem? ys) (omega arith)
get-past (x ∷ xs) ys zero k e = absurd (omega arith)
get-past (x ∷ xs) ys (suc n) k e =
    let p : suc n + k ≡ suc (n + k) = omega arith in
    ap (get_elem? (x ∷ xs ++ ys)) p ∙ get-past xs ys n k (omega arith)

get-within : (xs ys : List ℕ) (k : ℕ) → k < length xs → get_elem? (xs ++ ys) k ≡ get_elem? xs k
get-within [] ys k lt = absurd (omega arith)
get-within (x ∷ xs) ys zero lt = refl
get-within (x ∷ xs) ys (suc k) lt = get-within xs ys k (omega arith)

length-bytes : (buf : Memory) (from len : ℕ) → length (bytes buf from len) ≡ len
unfolding bytes
length-bytes buf from zero = refl
length-bytes buf from (suc len) = omega (arith, length-bytes buf (from + 1) len)

get-bytes :
    (buf : Memory) (from len k : ℕ)
    → k < len
    → get_elem? (bytes buf from len) k ≡ some (buf (from + k))
unfolding bytes
get-bytes buf from zero k lt = absurd (omega arith)
get-bytes buf from (suc len) zero lt = ap (λ i. some (buf i)) (omega arith)
get-bytes buf from (suc len) (suc k) lt =
    get-bytes buf (from + 1) len k (omega arith) ∙ ap (λ i. some (buf i)) (omega arith)

length-bmp_rows : (buf : Memory) (stride n : ℕ) → length (bmp_rows buf stride n) ≡ n * stride
unfolding bmp_rows
length-bmp_rows buf stride zero = omega arith
length-bmp_rows buf stride (suc n) =
    length-append (bytes buf (u32 (n * stride)) stride) (bmp_rows buf stride n)
    ∙ (let a = length-bytes buf (u32 (n * stride)) stride in
        let b = length-bmp_rows buf stride n in grind arith)

-- The row `row`, with `j` more after it in the picture.
get-bmp_rows :
    (buf : Memory) (stride j row col : ℕ)
    → col < stride
    → row * stride < 2 ^ 32
    → get_elem? (bmp_rows buf stride (suc (row + j))) (j * stride + col)
      ≡ some (buf (row * stride + col))
unfolding bmp_rows
get-bmp_rows buf stride zero row col lt small =
    let n : row + 0 ≡ row = omega arith in
    let k : 0 * stride + col ≡ col = omega arith in
    let same : u32 (row * stride) ≡ row * stride = omega arith in
    ap (λ m. get_elem? (bmp_rows buf stride (suc m)) (0 * stride + col)) n
    ∙ ap (get_elem? (bmp_rows buf stride (suc row))) k
    ∙ get-within (bytes buf (u32 (row * stride)) stride) (bmp_rows buf stride row) col
        (omega (arith, length-bytes buf (u32 (row * stride)) stride))
    ∙ get-bytes buf (u32 (row * stride)) stride col lt
    ∙ ap (λ i. some (buf (i + col))) same
get-bmp_rows buf stride (suc j) row col lt small =
    let n : row + suc j ≡ suc (row + j) = omega arith in
    let k : suc j * stride + col ≡ stride + (j * stride + col) = grind arith in
    ap (λ m. get_elem? (bmp_rows buf stride (suc m)) (suc j * stride + col)) n
    ∙ ap (get_elem? (bmp_rows buf stride (suc (suc (row + j))))) k
    ∙ get-past (bytes buf (u32 (suc (row + j) * stride)) stride)
        (bmp_rows buf stride (suc (row + j))) stride (j * stride + col)
        (length-bytes buf (u32 (suc (row + j) * stride)) stride)
    ∙ get-bmp_rows buf stride j row col lt small

-- What a reader takes for the number at a place.
abbrev read_16 : List ℕ → ℕ → ℕ
read_16 file i = get_or file i 0 + get_or file (i + 1) 0 * 2 ^ 8

abbrev pub read_32 : List ℕ → ℕ → ℕ
read_32 file i = read_16 file i + read_16 file (i + 2) * 2 ^ 16

-- A byte of the picture, by what the headers say: the rows from the last to the first, each filled
-- up to a multiple of four bytes.
abbrev pub read_bmp : List ℕ → ℕ → ℕ → Option ℕ
read_bmp file row col =
    let stride = (read_32 file 18 * read_16 file 28 + 31) / 32 * 4 in
    get_elem? file (read_32 file 10 + ((read_32 file 22 - 1 - row) * stride + col))

abbrev with_headers : ℕ → ℕ → List ℕ → List ℕ
with_headers width height rest =
    bmp_file_header width height 4 ++ bmp_info_header width height 4 ++ rest

header-fields :
    (width height : ℕ) (rest : List ℕ)
    → width < 2 ^ 30
    → height < 2 ^ 32
    → let file = with_headers width height rest in
      (read_32 file 2 ≡ u32 (width * height * 4 + 54))
      × (read_32 file 18 * read_16 file 28 ≡ width * 32)
      × (read_32 file 22 ≡ height)
header-fields width height rest w h = (omega arith, omega arith, omega arith)

-- The reader's place is that of the row.
read_bmp-headers :
    (width height : ℕ) (rest : List ℕ) (j row col : ℕ)
    → width < 2 ^ 30
    → height < 2 ^ 32
    → height ≡ suc (row + j)
    → read_bmp (with_headers width height rest) row col ≡ get_elem? rest (j * (width * 4) + col)
read_bmp-headers width height rest j row col w h e =
    let file = with_headers width height rest in
    let (size, bits, rows) = header-fields width height rest w h in
    let stride : (read_32 file 18 * read_16 file 28 + 31) / 32 * 4 ≡ width * 4 =
      omega (arith, bits) in
    let above : read_32 file 22 - 1 - row ≡ j = omega (arith, rows) in
    ap (λ n. get_elem? file (54 + (n * ((read_32 file 18 * read_16 file 28 + 31) / 32 * 4) + col)))
      above
    ∙ ap (λ n. get_elem? file (54 + (j * n + col))) stride
    ∙ get-past (bmp_file_header width height 4 ++ bmp_info_header width height 4) rest 54
        (j * (width * 4) + col) refl

height-le : (width height : ℕ) → 0 < width → height ≤ width * height
height-le zero height lt = absurd (omega arith)
height-le (suc k) height lt = grind arith

length-with_headers :
    (width height : ℕ) (rest : List ℕ) → length (with_headers width height rest) ≡ 54 + length rest
length-with_headers width height rest = omega arith

-- The file of a picture of four bytes a pixel, before what is left of an older one.
abbrev new_file : Memory → ℕ → ℕ → List ℕ
new_file buf width height = with_headers width height (bmp_rows buf (u32 (width * 4)) height)

length-new_file :
    (buf : Memory) (width height : ℕ)
    → width * 4 < 2 ^ 32
    → length (new_file buf width height) ≡ width * height * 4 + 54
length-new_file buf width height lt =
    let stride : u32 (width * 4) ≡ width * 4 = omega arith in
    let all : length (bmp_rows buf (u32 (width * 4)) height) ≡ width * height * 4 =
      length-bmp_rows buf (u32 (width * 4)) height ∙ ap (λ s. height * s) stride ∙ grind arith in
    let n = length-with_headers width height (bmp_rows buf (u32 (width * 4)) height) in
    omega (arith, all, n)

length-write_over :
    (new old : List ℕ) → length (write_over new old) ≡ length new + (length old - length new)
length-write_over new old =
    length-append new (drop (length new) old)
    ∙ ap (λ n. length new + n) (length-drop (length new) old)

-- If the file of a picture of four bytes a pixel is below 2 ^ 32 bytes, then in the file that
-- `msdisp_common_save_buf_to_bmp` leaves, whatever was in it, a reader who goes by the headers
-- finds every byte of the picture, whose rows follow each other without a gap. The length of the
-- file is the size in the header, or the length of the old file if that is larger; behind that
-- size are the bytes of the old file.
pub save_buf_to_bmp-read_bmp :
    (old : List ℕ) (buf : Memory) (width height row col : ℕ)
    → width * height * 4 + 54 < 2 ^ 32
    → row < height
    → col < width * 4
    → let file = save_buf_to_bmp old buf width height 4 in
      (read_bmp file row col ≡ some (buf (row * (width * 4) + col)))
      × (length file ≡ max (read_32 file 2) (length old))
      × (drop (read_32 file 2) file ≡ drop (read_32 file 2) old)
unfolding save_buf_to_bmp
save_buf_to_bmp-read_bmp old buf width height row col small lt lt' =
    let j = height - 1 - row in
    let e : height ≡ suc (row + j) = omega arith in
    let product : width * height * 4 ≡ row * (width * 4) + j * (width * 4) + width * 4 =
      ap (λ h. width * h * 4) e ∙ grind arith in
    let w : width < 2 ^ 30 = omega arith in
    let h : height < 2 ^ 32 = omega (arith, height-le width height (omega arith)) in
    let stride : u32 (width * 4) ≡ width * 4 = omega arith in
    let rows = bmp_rows buf (u32 (width * 4)) height in
    let new = new_file buf width height in
    let left = drop (length new) old in
    let long = length-new_file buf width height (omega arith) in
    let whole = length-write_over new old in
    let size = (header-fields width height (rows ++ left) w h).0 in
    let n : u32 (width * height * 4 + 54) ≡ length new = omega (arith, long) in
    let in_rows : j * (width * 4) + col < length rows =
      omega (arith, length-with_headers width height rows, long, product) in
    (
      read_bmp-headers width height (rows ++ left) j row col w h e
          ∙ get-within rows left (j * (width * 4) + col) in_rows
          ∙ ap (λ s. get_elem? (bmp_rows buf s height) (j * (width * 4) + col)) stride
          ∙ ap (λ k. get_elem? (bmp_rows buf (width * 4) k) (j * (width * 4) + col)) e
          ∙ get-bmp_rows buf (width * 4) j row col lt' (omega arith),
      omega (arith, size, n, whole),
      ap (λ k. drop k (write_over new old)) (size ∙ n)
          ∙ drop-append (length new) new left refl
          ∙ ap (λ k. drop k old) (sym (size ∙ n)),
    )
