-- ===== src/Hal/Setup.antt =====
-- Bringing a display up, usb_hal/usb_hal_interface.c: what the chip is asked for, the custom
-- timings in its flash memory, and the pins.
use lenovo_magicbay_hud_linu.Base.{
  ℕ, ◌+◌, ◌*◌, ◌/◌, ◌^◌, Bool, true, false, List, [], ◌∷◌, take, get_or, ◌==◌, ◌&&◌, bit_and,
  bit_or, enoent, ok, fail, if◌then◌else◌,
}
use lenovo_magicbay_hud_linu.Device.{M, pure, ignore, ◌>>=◌, ◌>>◌}
use lenovo_magicbay_hud_linu.Device.Xdata.{xdata_read_byte, xdata_write_byte, not_u8}
use lenovo_magicbay_hud_linu.Device.Flash.{read_flash, read_sfr, write_sfr}
use lenovo_magicbay_hud_linu.Device.Chip.{
  get_chip_id, get_port_type, get_sdram_type, init_dev, port_cvbs_svideo,
}
use lenovo_magicbay_hud_linu.Edid.{MiscTiming}
use lenovo_magicbay_hud_linu.Hal.{Hal}
use lenovo_magicbay_hud_linu.Hal.Modes.{add_custom_mode}

-- `if (ret) return -ENOENT;`
abbrev or_enoent {ℓ} : {A : Type ℓ} → M A → M A
or_enoent m u = elim (m u).0 [ ok a ↦ (ok a, (m u).1) | fail e ↦ (fail enoent, (m u).1) ]

-- The chip, the port and the memory are those of the display from here on; a television output
-- gets the mode 720x480, a code that is only logged.
abbrev with_chip : Hal → ℕ → ℕ → ℕ → Hal
with_chip h chip_id port_type sdram_type =
    let h' = record h { chip_id = chip_id; port_type = port_type; sdram_type = sdram_type } in
    if port_cvbs_svideo == port_type then (add_custom_mode 720 480 60 2 h').1 else h'

unfoldable pub dev_hal_init : Hal → M Hal
unfolding get_port_type get_sdram_type init_dev add_custom_mode
dev_hal_init h = do
  chip_id ← or_enoent (get_chip_id h.chip_id)
  port_type ← or_enoent get_port_type
  sdram_type ← or_enoent get_sdram_type
  init_dev port_type
  pure (with_chip h chip_id port_type sdram_type)

-- A read whose code is not looked at: if it fails, the buffer still holds `stale`.
abbrev read_or : List ℕ → M (List ℕ) → M (List ℕ)
read_or stale m u = elim (m u).0 [ ok bytes ↦ (ok bytes, (m u).1) | fail e ↦ (ok stale, (m u).1) ]

-- "modify"
abbrev magic : List ℕ
magic = 0x6D ∷ 0x6F ∷ 0x64 ∷ 0x69 ∷ 0x66 ∷ 0x79 ∷ []

abbrev same_bytes : List ℕ → List ℕ → Bool
same_bytes [] [] = true
same_bytes (x ∷ xs) (y ∷ ys) = x == y && same_bytes xs ys
same_bytes xs ys = false

abbrev word_at : List ℕ → ℕ → ℕ
word_at bytes i = get_or bytes i 0 + get_or bytes (i + 1) 0 * 2 ^ 8

-- `memcpy(&timing[i], data, sizeof(misctiming_t))`, 22 bytes in the order of a little-endian host
timing_of : List ℕ → MiscTiming
timing_of b = record {
  vic = get_or b 0 0;
  polarity = get_or b 1 0;
  htotal = word_at b 2;
  vtotal = word_at b 4;
  hactive = word_at b 6;
  vactive = word_at b 8;
  pixclk = word_at b 10;
  vfreq = word_at b 12;
  hoffset = word_at b 14;
  voffset = word_at b 16;
  hsyncwidth = word_at b 18;
  vsyncwidth = word_at b 20;
}

-- The seventh byte is '1' or '2'; 0 stands for the early return.
abbrev timing_count : List ℕ → ℕ
timing_count bytes =
    if same_bytes (take 6 bytes) magic
    then (if get_or bytes 6 0 == 0x31 then 1 else if get_or bytes 6 0 == 0x32 then 2 else 0)
    else 0

-- The loop over the timings; `rate` is rounded from hundredths. A code of `usb_hal_add_custom_mode`
-- is only logged.
unfoldable add_timings : List MiscTiming → Hal → Hal
unfolding add_custom_mode
add_timings [] h = h
add_timings (t ∷ ts) h =
    add_timings ts (add_custom_mode t.hactive t.vactive ((t.vfreq + 50) / 100) t.vic h).1

abbrev custom_timing_addr : ℕ → ℕ
custom_timing_addr chip_id = if chip_id == 0 then 0xfc50 else 0x1c00

-- The timings that are kept for the EDID, with the state. `stale i` is what the buffer holds if the
-- read number `i` fails.
unfoldable pub read_custom_timing : (ℕ → List ℕ) → Hal → M (Hal × List MiscTiming)
unfolding add_timings timing_of
read_custom_timing stale h = do
  bytes ← read_or (stale 0) (read_flash (custom_timing_addr h.chip_id) 7)
  if timing_count bytes == 0 then pure (h, []) else (do
    first ← read_or (stale 1) (read_flash (custom_timing_addr h.chip_id + 0x10) 22)
    if timing_count bytes == 1
        then pure (add_timings (timing_of first ∷ []) h, timing_of first ∷ [])
        else (do
          second ← read_or (stale 2) (read_flash (custom_timing_addr h.chip_id + 0x30) 22)
          pure (
            add_timings (timing_of first ∷ timing_of second ∷ []) h,
            timing_of first ∷ timing_of second ∷ [],
          )))

-- `usb_hal_init_gpio`; no code is looked at, and a value that is not read stays what it was.
abbrev keep : ℕ → M ℕ → M ℕ
keep old m u = elim (m u).0 [ ok a ↦ (ok a, (m u).1) | fail e ↦ (ok old, (m u).1) ]

-- `init` is the value of the uninitialised variable.
unfoldable init_pins_9132 : ℕ → M (Unit {0})
unfolding xdata_read_byte xdata_write_byte
init_pins_9132 init = do
  b ← keep init (read_sfr 0xB0)
  ignore (write_sfr 0xB0 (bit_and b (not_u8 0x04)))
  a ← keep b (read_sfr 0xA0)
  ignore (write_sfr 0xA0 (bit_or a 0x04))
  ignore (write_sfr 0xC7 0xD1)
  ignore (write_sfr 0xC8 0xC0)
  ignore (write_sfr 0xCA 0x00)
  x ← keep a (xdata_read_byte 0xF01F)
  ignore (xdata_write_byte 0xF01F (bit_and (bit_or x 0x10) (not_u8 0x80)))

-- `value |= ~0x04` sets all other bits.
unfoldable init_pins_912x : ℕ → M (Unit {0})
unfolding xdata_read_byte xdata_write_byte
init_pins_912x init = do
  b ← keep init (read_sfr 0xB0)
  ignore (write_sfr 0xB0 (bit_or b 0xDC))
  a ← keep (bit_or b 0xDC) (read_sfr 0xA0)
  ignore (write_sfr 0xA0 (bit_and a (not_u8 0x18)))
  c ← keep (bit_and a (not_u8 0x18)) (read_sfr 0xA0)
  ignore (write_sfr 0xA0 (bit_or c (not_u8 0x04)))
  x ← keep (bit_or c (not_u8 0x04)) (xdata_read_byte 0xF016)
  ignore (xdata_write_byte 0xF016 (bit_and x (not_u8 0x04)))

unfoldable pub init_gpio : ℕ → ℕ → M (Unit {0})
unfolding init_pins_9132 init_pins_912x
init_gpio chip init = do
  chip_id ← keep chip (get_chip_id chip)
  if chip_id == 0 then init_pins_9132 init else init_pins_912x init

unfoldable resume_pins_9132 : ℕ → M (Unit {0})
unfolding xdata_read_byte xdata_write_byte
resume_pins_9132 init = do
  x ← keep init (xdata_read_byte 0xF01F)
  ignore (xdata_write_byte 0xF01F (bit_and (bit_and x (not_u8 0x10)) (not_u8 0x80)))
  b ← keep (bit_and (bit_and x (not_u8 0x10)) (not_u8 0x80)) (read_sfr 0xB0)
  ignore (write_sfr 0xB0 (bit_or b 0x3c))
  c ← keep b (read_sfr 0xB1)
  ignore (write_sfr 0xB1 (bit_or c 0x3c))

-- `usb_hal_resume_gpio`
unfoldable pub resume_gpio : ℕ → ℕ → M (Unit {0})
unfolding resume_pins_9132
resume_gpio chip init = do
  chip_id ← keep chip (get_chip_id chip)
  if chip_id == 0 then resume_pins_9132 init else pure tt
