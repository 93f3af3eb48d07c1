-- ===== src/Drm/Dump.antt =====
-- The picture that is dumped into a BMP file, drm/msdisp_common_util.c. The kernel's file is the
-- list of its bytes.
pub mod Reading
pub mod Request
use lenovo_magicbay_hud_linu.Base.{
  ℕ, zero, suc, ◌+◌, ◌*◌, ◌/◌, ◌%◌, ◌^◌, List, [], ◌∷◌, ◌++◌, length, drop, u8, u16, u32,
}
use lenovo_magicbay_hud_linu.Base.Memory.{Memory}

-- A field of two and of four bytes, as a little-endian host writes it.
abbrev field_16 : ℕ → List ℕ
field_16 n = u8 n ∷ u8 (n / 2 ^ 8) ∷ []

abbrev field_32 : ℕ → List ℕ
field_32 n = u8 n ∷ u8 (n / 2 ^ 8) ∷ u8 (n / 2 ^ 16) ∷ u8 (n / 2 ^ 24) ∷ []

-- `struct bmp_file_header`
abbrev pub bmp_file_header : ℕ → ℕ → ℕ → List ℕ
bmp_file_header width height cpp =
    field_16 0x4d42
    ++ field_32 (u32 (width * height * cpp + 0x36))
    ++ field_16 0
    ++ field_16 0
    ++ field_32 0x36

-- `struct bmp_info_header`
abbrev pub bmp_info_header : ℕ → ℕ → ℕ → List ℕ
bmp_info_header width height cpp =
    field_32 40
    ++ field_32 width
    ++ field_32 height
    ++ field_16 1
    ++ field_16 (cpp * 8)
    ++ field_32 0
    ++ field_32 (u32 (width * height * cpp))
    ++ field_32 0
    ++ field_32 0
    ++ field_32 0
    ++ field_32 0

-- `kernel_write` of `len` bytes of `buf`
pub bytes : Memory → ℕ → ℕ → List ℕ
bytes buf from zero = []
bytes buf from (suc len) = buf from ∷ bytes buf (from + 1) len

-- The loop over the rows, from the last to the first; the counter is an `int`, of fewer than 2 ^ 31
-- rows, and the place in the buffer a `u32`.
pub bmp_rows : Memory → ℕ → ℕ → List ℕ
unfolding bytes
bmp_rows buf stride zero = []
bmp_rows buf stride (suc n) = bytes buf (u32 (n * stride)) stride ++ bmp_rows buf stride n

-- The file after these bytes are written over its start: it is opened with O_RDWR and O_CREAT, so
-- what an older file has behind them stays.
abbrev pub write_over : List ℕ → List ℕ → List ℕ
write_over new old = new ++ drop (length new) old

-- `width`, `height` and `cpp` are `u32`; the file can be opened, and `old` is what is in it, nothing
-- if it is new. The writes follow each other from the start.
unfoldable pub save_buf_to_bmp : List ℕ → Memory → ℕ → ℕ → ℕ → List ℕ
unfolding bmp_rows
save_buf_to_bmp old buf width height cpp =
    write_over
      (bmp_file_header width height cpp
        ++ bmp_info_header width height cpp
        ++ bmp_rows buf (u32 (width * cpp)) height)
      old
