-- ===== src/Edid.antt =====
-- The EDID that the driver hands to the DRM side: usb_hal/usb_device.c, from
-- `edid_std_timing_convert` to `ms9132_get_edid`.
pub mod Blocks
pub mod Checksum
pub mod Decode
use lenovo_magicbay_hud_linu.Base.{
  ℕ, zero, suc, ◌+◌, ◌*◌, ◌-◌, ◌^◌, ◌%◌, Bool, true, false, List, [], ◌∷◌, ◌++◌, take, drop, set,
  length, min, ltb, ◌==◌, ◌||◌, ◌&&◌, u8, u16, shr, shl, field, low_bits, sub_u16, sub_u8, einval,
  Outcome, if◌then◌else◌,
}
use lenovo_magicbay_hud_linu.Device.{M, pure, throw, ◌>>=◌}
use lenovo_magicbay_hud_linu.Device.Xdata.{read_xdata}
use lenovo_magicbay_hud_linu.Edid.Blocks.{edid_ypbpr, edid_vga, edid_vga_usb3, edid_vga_cvbs}

-- `misctiming_t`
pub record MiscTiming : Type 0 where
  pub vic : ℕ
  pub polarity : ℕ
  pub htotal : ℕ
  pub vtotal : ℕ
  pub hactive : ℕ
  pub vactive : ℕ
  pub pixclk : ℕ
  pub vfreq : ℕ
  pub hoffset : ℕ
  pub voffset : ℕ
  pub hsyncwidth : ℕ
  pub vsyncwidth : ℕ

-- `detailed_timing_t`
pub record DetailedTiming : Type 0 where
  pub pixclk : ℕ
  pub hactive : ℕ
  pub hblank : ℕ
  pub vactive : ℕ
  pub vblank : ℕ
  pub hoffset : ℕ
  pub hsyncwidth : ℕ
  pub voffset : ℕ
  pub vsyncwidth : ℕ
  pub h_image_size : ℕ
  pub v_image_size : ℕ
  pub hborder : ℕ
  pub vborder : ℕ
  pub polarity : ℕ

pub std_timing_convert : MiscTiming → DetailedTiming
std_timing_convert t =
    let hblank = sub_u16 t.htotal t.hactive in
    let vblank = sub_u16 t.vtotal t.vactive in
    record {
      pixclk = t.pixclk;
      hactive = t.hactive;
      hblank = hblank;
      vactive = t.vactive;
      vblank = vblank;
      hoffset = sub_u16 hblank t.hoffset;
      hsyncwidth = t.hsyncwidth;
      voffset = sub_u16 vblank t.voffset;
      vsyncwidth = t.vsyncwidth;
      h_image_size = 0;
      v_image_size = 0;
      hborder = 0;
      vborder = 0;
      polarity = t.polarity;
    }

-- The two upper nibbles of a pair of 12-bit fields.
abbrev upper_nibbles : ℕ → ℕ → ℕ
upper_nibbles a b = u8 (field (shr a 4) 4 4 + low_bits (shr b 8) 4)

-- `~(polarity << 7) & 0x80`: set for an interlaced mode.
abbrev interlaced_bit : ℕ → ℕ
interlaced_bit polarity = (1 - polarity % 2) * 2 ^ 7

-- `edid_detailed_timing_convert`: the 18 bytes of the descriptor
pub detailed_timing_convert : DetailedTiming → List ℕ
detailed_timing_convert d =
    low_bits d.pixclk 8
    ∷ u8 (shr d.pixclk 8)
    ∷ low_bits d.hactive 8
    ∷ low_bits d.hblank 8
    ∷ upper_nibbles d.hactive d.hblank
    ∷ low_bits d.vactive 8
    ∷ low_bits d.vblank 8
    ∷ upper_nibbles d.vactive d.vblank
    ∷ low_bits d.hoffset 8
    ∷ low_bits d.hsyncwidth 8
    ∷ u8 (field (shl d.voffset 4) 4 4 + low_bits d.vsyncwidth 4)
    ∷ u8 (
        field (shr d.hoffset 2) 6 2
        + field (shr d.hsyncwidth 4) 4 2
        + field (shr d.voffset 6) 2 2
        + low_bits (shr d.vsyncwidth 8) 2)
    ∷ low_bits d.h_image_size 8
    ∷ low_bits d.v_image_size 8
    ∷ upper_nibbles d.h_image_size d.v_image_size
    ∷ low_bits d.hborder 8
    ∷ low_bits d.vborder 8
    ∷ u8 (interlaced_bit d.polarity + 0 + 0x18 + field d.polarity 1 2)
    ∷ []

-- The loop of `edid_checksum_calc`: each byte is subtracted.
pub checksum_loop : List ℕ → ℕ → ℕ
checksum_loop [] checksum = checksum
checksum_loop (b ∷ bs) checksum = checksum_loop bs (sub_u8 checksum b)

pub checksum_calc : List ℕ → List ℕ
unfolding checksum_loop
checksum_calc buf = set buf 0x7f (checksum_loop (take 0x7f buf) 0)

abbrev detailed_timing_offset : ℕ
detailed_timing_offset = 0x36

abbrev long_descr_len : ℕ
long_descr_len = 18

abbrev descriptors_len : ℕ
descriptors_len = long_descr_len * 4

abbrev pub zeros : ℕ → List ℕ
zeros zero = []
zeros (suc n) = 0 ∷ zeros n

-- The descriptors of the first `n` timings.
pub details : ℕ → List MiscTiming → List ℕ
unfolding std_timing_convert detailed_timing_convert
details zero ts = []
details (suc n) [] = []
details (suc n) (t ∷ ts) = detailed_timing_convert (std_timing_convert t) ++ details n ts

-- All four descriptors of the block are replaced: those without a timing become zero.
pub replace_descriptors : List ℕ → List ℕ → List ℕ
replace_descriptors buf descriptors =
    take detailed_timing_offset buf
    ++ (take descriptors_len (descriptors ++ zeros descriptors_len)
        ++ drop (detailed_timing_offset + descriptors_len) buf)

pub update_detailed_timing : List ℕ → List MiscTiming → ℕ → ℕ → List ℕ
unfolding replace_descriptors details checksum_calc
update_detailed_timing buf timings detail_count block =
    if ltb 0 detail_count && ltb block 1
    then checksum_calc (replace_descriptors buf (details (min detail_count 2) timings))
    else buf

abbrev edid_addr : ℕ
edid_addr = 0xC000

abbrev edid_block_len : ℕ
edid_block_len = 0x80

abbrev pub is_analogue : ℕ → Bool
is_analogue port_type = port_type == 0 || (port_type == 4 || port_type == 1)

-- The bytes of the block before the custom timings; after a failed read the bytes in the caller's
-- buffer are not part of the result.
pub edid_source : Bool → ℕ → ℕ → ℕ → ℕ → M (List ℕ)
edid_source super_speed port_type sdram_type block len =
    if port_type == 3
    then pure (take len edid_ypbpr)
    else if is_analogue port_type || sdram_type == 0
    then pure (take len edid_vga_cvbs)
    else if sdram_type == 4
    then pure (take len (if super_speed then edid_vga_usb3 else edid_vga))
    else read_xdata (u16 (edid_addr + block * edid_block_len)) (u16 len)

-- `super_speed` is `udev->speed == USB_SPEED_SUPER`.
pub get_edid : Bool → List MiscTiming → ℕ → ℕ → ℕ → ℕ → ℕ → M (List ℕ)
unfolding edid_source update_detailed_timing
get_edid super_speed timings detail_count port_type sdram_type block len =
    if (port_type == 3 || is_analogue port_type) && ltb 0 block
    then throw einval
    else if (sdram_type == 0 || sdram_type == 4) && ltb 0 block
    then throw einval
    else (do
      buf ← edid_source super_speed port_type sdram_type block len
      pure (update_detailed_timing buf timings detail_count block))
