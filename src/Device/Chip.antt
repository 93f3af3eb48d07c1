-- ===== src/Device/Chip.antt =====
-- What the driver asks of the chip, and the screen switch, usb_hal/usb_device.c.
pub mod Screen
use lenovo_magicbay_hud_linu.Base.{
  ℕ, ◌-◌, Bool, true, false, not, get_or, leb, ltb, ◌==◌, ◌&&◌, bit_and, bit_or, einval,
  if◌then◌else◌,
}
use lenovo_magicbay_hud_linu.Device.{M, pure, throw, ◌>>=◌, ◌>>◌}
use lenovo_magicbay_hud_linu.Device.Xdata.{
  xdata_read_byte, xdata_write_byte, read_xdata, mod_bits, not_u8,
}

-- usb_hal/usb_hal_chip.h
abbrev chip_id_9132 : ℕ
chip_id_9132 = 0

abbrev port_cvbs : ℕ
port_cvbs = 0

abbrev port_svideo : ℕ
port_svideo = 1

abbrev port_vga : ℕ
port_vga = 2

abbrev port_ypbpr : ℕ
port_ypbpr = 3

abbrev pub port_cvbs_svideo : ℕ
port_cvbs_svideo = 4

abbrev port_hdmi : ℕ
port_hdmi = 5

abbrev port_digital : ℕ
port_digital = 6

abbrev port_max : ℕ
port_max = 7

abbrev sdram_2m : ℕ
sdram_2m = 0

abbrev sdram_none : ℕ
sdram_none = 4

unfoldable get_hpd_status : M ℕ
unfolding xdata_read_byte
get_hpd_status = xdata_read_byte 0x32

unfoldable pub current_frame_index : M ℕ
unfolding xdata_read_byte
current_frame_index = do reg ← xdata_read_byte 0xD003; pure (if reg == 0 then 0 else 1)

unfoldable pub get_port_type : M ℕ
unfolding xdata_read_byte
get_port_type = do reg ← xdata_read_byte 0x31; if leb port_max reg then throw einval else pure reg

unfoldable pub get_sdram_type : M ℕ
unfolding xdata_read_byte
get_sdram_type = do
  reg ← xdata_read_byte 0x30
  if ltb sdram_none reg then throw einval else pure reg

-- The argument is `*chip_id` before the call, which a chip of neither family leaves as it is.
unfoldable pub get_chip_id : ℕ → M ℕ
get_chip_id chip_id = do
  buf ← read_xdata 0xFF00 3
  if 0x13 == get_or buf 1 0 && 0x0a == get_or buf 2 0 then pure chip_id_9132 else (do
    buf' ← read_xdata 0xF000 3
    pure (
        if 0x16 == get_or buf' 1 0 && 0x0a == get_or buf' 2 0
        then (if 0xb7 == get_or buf' 0 0 then 3 else if 0xa7 == get_or buf' 0 0 then 2 else 1)
        else chip_id))

unfoldable pub init_dev : ℕ → M (Unit {0})
unfolding mod_bits xdata_write_byte
init_dev port_type =
    if port_cvbs_svideo == port_type
    then (do mod_bits 0xF160 0x0 0x20; xdata_write_byte 0xF031 0x34)
    else pure tt

-- The register, its mask and `is_clear`, by the chip and the port.
pub record Switch : Type 0 where
  pub addr : ℕ
  pub mask : ℕ
  pub is_clear : Bool

unfoldable pub screen_switch : ℕ → ℕ → Switch
screen_switch chip_id port_type =
    if chip_id == chip_id_9132
    then (if port_type == port_hdmi
        then record { addr = 0xFB07; mask = 0x2; is_clear = true }
        else record { addr = 0xf037; mask = 0x1; is_clear = false })
    else if port_type == port_hdmi
    then record { addr = 0xf507; mask = 0x2; is_clear = true }
    else if port_type == port_vga
    then record { addr = 0xf004; mask = 0x80; is_clear = false }
    else if port_type == port_ypbpr
    then record { addr = 0xf030; mask = 0x1; is_clear = false }
    else if port_type == port_digital
    then record { addr = 0xf005; mask = 0x10; is_clear = false }
    else record { addr = 0xf004; mask = 0x2; is_clear = false }

-- `(enable != 0) ^ is_clear`
abbrev pub sets_bits : ℕ → Bool → Bool
sets_bits enable is_clear = if is_clear then enable == 0 else not (enable == 0)

abbrev pub switch_byte : Switch → ℕ → ℕ → ℕ
switch_byte s enable value =
    if sets_bits enable s.is_clear then bit_or value s.mask else bit_and value (not_u8 s.mask)

unfoldable pub set_screen_enable : ℕ → ℕ → ℕ → M (Unit {0})
unfolding screen_switch xdata_read_byte xdata_write_byte
set_screen_enable enable chip_id port_type =
    let s = screen_switch chip_id port_type in
    do value ← xdata_read_byte s.addr; xdata_write_byte s.addr (switch_byte s enable value)
