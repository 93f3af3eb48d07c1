-- ===== src/Hal/Planes.antt =====
-- The copies of planar pictures into the USB buffer, usb_hal/usb_hal_interface.c. A pixel pair of
-- `struct yuv422p_pix` is the four bytes U Y V Y at four times its index.
pub mod Luma
use lenovo_magicbay_hud_linu.Base.{
  ℕ, zero, suc, ◌+◌, ◌-◌, ◌*◌, ◌/◌, Outcome, ok, fail, uninitialised, ◌==◌, if◌then◌else◌,
}
use lenovo_magicbay_hud_linu.Base.Memory.{Memory, put}
use lenovo_magicbay_hud_linu.Hal.{Mode}
use lenovo_magicbay_hud_linu.Hal.Modes.{FormatDesc, fourcc_nv12, fourcc_nv16, fourcc_yuv420}

-- The inner loop of `cpy_yplane_to_yuv422p`: `n` pairs.
pub y_line : ℕ → Memory → Memory → ℕ → ℕ → Memory
y_line zero dst buf d s = dst
y_line (suc n) dst buf d s =
    y_line n (put (put dst (4 * d + 1) (buf s)) (4 * d + 3) (buf (s + 1))) buf (d + 1) (s + 2)

-- `cpy_yplane_to_yuv422p`; `j < width; j += 2` runs (width + 1) / 2 times.
pub y_plane : ℕ → Memory → Memory → ℕ → ℕ → ℕ → Memory
unfolding y_line
y_plane zero dst buf d s n = dst
y_plane (suc rows) dst buf d s n = y_plane rows (y_line n dst buf d s) buf (d + n) (s + 2 * n) n

-- One pair's colours.
abbrev pub put_colour : Memory → ℕ → ℕ → ℕ → Memory
put_colour dst d u v = put (put dst (4 * d) u) (4 * d + 2) v

pub uv_line : ℕ → Memory → Memory → ℕ → ℕ → Memory
uv_line zero dst buf d s = dst
uv_line (suc n) dst buf d s = uv_line n (put_colour dst d (buf s) (buf (s + 1))) buf (d + 1) (s + 2)

-- `cpy_uvplane_to_yuv422p`; `skip` is `(dy - 1) * width / 2`.
pub uv_plane : ℕ → Memory → Memory → ℕ → ℕ → ℕ → ℕ → Memory
unfolding uv_line
uv_plane zero dst buf d s n skip = dst
uv_plane (suc rows) dst buf d s n skip =
    uv_plane rows (uv_line n dst buf d s) buf (d + n + skip) (s + 2 * n) n skip

pub u_v_line : ℕ → Memory → Memory → ℕ → ℕ → ℕ → Memory
u_v_line zero dst buf d u v = dst
u_v_line (suc n) dst buf d u v =
    u_v_line n (put_colour dst d (buf u) (buf v)) buf (d + 1) (u + 1) (v + 1)

-- `cpy_u_v_plane_to_yuv422p`
pub u_v_plane : ℕ → Memory → Memory → ℕ → ℕ → ℕ → ℕ → ℕ → Memory
unfolding u_v_line
u_v_plane zero dst buf d u v n skip = dst
u_v_plane (suc rows) dst buf d u v n skip =
    u_v_plane rows (u_v_line n dst buf d u v) buf (d + n + skip) (u + n) (v + n) n skip

-- The inner loop of `scale_up_linear`: the mean of the pairs above and below.
pub mean_line : ℕ → Memory → ℕ → ℕ → ℕ → Memory
mean_line zero dst top cur bottom = dst
mean_line (suc n) dst top cur bottom =
    mean_line n
      (put_colour dst cur ((dst (4 * top) + dst (4 * bottom)) / 2)
        ((dst (4 * top + 2) + dst (4 * bottom + 2)) / 2))
      (top + 1) (cur + 1) (bottom + 1)

-- `i = 1; i < height - 1; i += 2`: `n` rounds from `i`.
pub mean_rows : ℕ → Memory → ℕ → ℕ → Memory
unfolding mean_line
mean_rows zero dst i width = dst
mean_rows (suc n) dst i width =
    mean_rows n
      (mean_line (width / 2) dst ((i - 1) * width / 2) (i * width / 2) ((i + 1) * width / 2))
      (i + 2) width

-- "process last row"
pub repeat_line : ℕ → Memory → ℕ → ℕ → Memory
repeat_line zero dst top cur = dst
repeat_line (suc n) dst top cur =
    repeat_line n (put_colour dst cur (dst (4 * top)) (dst (4 * top + 2))) (top + 1) (cur + 1)

-- For pictures of at least two rows; the loop over the rows runs (height - 1) / 2 times.
pub scale_up_linear : Memory → ℕ → ℕ → Memory
unfolding mean_rows repeat_line
scale_up_linear dst width height =
    repeat_line (width / 2) (mean_rows ((height - 1) / 2) dst 1 width) ((height - 2) * width / 2)
      ((height - 1) * width / 2)

abbrev pub y_copy : Memory → Memory → Mode → Memory
y_copy dst buf mode = y_plane mode.height dst buf 0 0 ((mode.width + 1) / 2)

pub cpy_nv16_to_yuv422p : Memory → Memory → Mode → Memory
unfolding y_plane uv_plane
cpy_nv16_to_yuv422p dst buf mode =
    uv_plane mode.height (y_copy dst buf mode) buf 0 (mode.width * mode.height) (mode.width / 2) 0

pub cpy_nv12_to_yuv422p : Memory → Memory → Mode → Memory
unfolding y_plane uv_plane scale_up_linear
cpy_nv12_to_yuv422p dst buf mode =
    scale_up_linear
      (uv_plane (mode.height / 2) (y_copy dst buf mode) buf 0 (mode.width * mode.height)
        (mode.width / 2) (mode.width / 2))
      mode.width mode.height

pub cpy_yuv420_to_yuv422p : Memory → Memory → Mode → Memory
unfolding y_plane u_v_plane scale_up_linear
cpy_yuv420_to_yuv422p dst buf mode =
    let area = mode.width * mode.height in
    scale_up_linear
      (u_v_plane (mode.height / 2) (y_copy dst buf mode) buf 0 area (area + area / 4)
        (mode.width / 2) (mode.width / 2))
      mode.width mode.height

-- The length that the formats without a copy return was never written.
unfoldable pub yuv_copy : FormatDesc → Memory → Memory → Mode → ℕ → Memory × Outcome ℕ
yuv_copy desc dst buf mode len =
    if desc.fourcc == fourcc_nv16
    then (cpy_nv16_to_yuv422p dst buf mode, ok len)
    else if desc.fourcc == fourcc_nv12
    then (cpy_nv12_to_yuv422p dst buf mode, ok (mode.width * mode.height * 2))
    else if desc.fourcc == fourcc_yuv420
    then (cpy_yuv420_to_yuv422p dst buf mode, ok (mode.width * mode.height * 2))
    else (dst, fail uninitialised)
