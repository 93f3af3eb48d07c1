-- ===== src/Device/Flash.antt =====
-- The flash and the SFR registers, usb_hal/usb_device.c.
pub mod Reads
use lenovo_magicbay_hud_linu.Base.{
  ℕ, zero, suc, ◌+◌, ◌-◌, List, [], ◌∷◌, ◌++◌, take, get_or, min, leb, u8, shr, low_bits, true,
  false, uninitialised, if◌then◌else◌, ◌==◌,
}
use lenovo_magicbay_hud_linu.Device.{M, pure, throw, ◌>>=◌, ◌>>◌, hid_report}

-- MS9132_HID_OP_READ_FLASH_EIGHT_BYTES; `(u8)((a >> 16) & 0x00ff)` and so on
abbrev pub flash_report : ℕ → List ℕ
flash_report a =
    0xF5 ∷ low_bits (shr a 16) 8 ∷ low_bits (shr a 8) 8 ∷ low_bits a 8 ∷ 0 ∷ 0 ∷ 0 ∷ 0 ∷ []

-- The loop of `ms9132_read_flash` from position `pos`, eight bytes a round. `len - pos` is the
-- number of bytes left, and as `len` falls by eight a round it is fuel enough.
pub read_flash_loop : ℕ → ℕ → ℕ → ℕ → M (List ℕ)
unfolding hid_report
read_flash_loop zero addr pos len = pure []
read_flash_loop (suc fuel) addr pos len =
    let round = read_flash_loop fuel addr (pos + 8) len in
    if leb len pos then pure [] else (do
      sent ← hid_report true (flash_report (addr + pos))
      data' ← hid_report false sent
      rest ← round
      pure (take (min 8 (len - pos)) data' ++ rest))

-- With `len` 0 the code returns `rtn` as it was declared, without a value.
pub read_flash : ℕ → ℕ → M (List ℕ)
read_flash addr len = if len == 0 then throw uninitialised else read_flash_loop len addr 0 len

unfoldable pub read_sfr : ℕ → M ℕ
unfolding hid_report
read_sfr addr = do
  sent ← hid_report true (0xC5 ∷ u8 addr ∷ 0 ∷ 0 ∷ 0 ∷ 0 ∷ 0 ∷ 0 ∷ [])
  ctrl_data ← hid_report false sent
  pure (get_or ctrl_data 2 0)

unfoldable pub write_sfr : ℕ → ℕ → M (Unit {0})
unfolding hid_report
write_sfr addr value = do
  _ ← hid_report true (0xC6 ∷ u8 addr ∷ value ∷ 0 ∷ 0 ∷ 0 ∷ 0 ∷ 0 ∷ [])
  pure tt
