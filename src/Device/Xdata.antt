-- ===== src/Device/Xdata.antt =====
-- Reading and writing the chip's memory, usb_hal/usb_device.c.
pub mod Reads
use lenovo_magicbay_hud_linu.Base.{
  ℕ, zero, suc, ◌+◌, ◌-◌, ◌^◌, Bool, true, false, List, [], ◌∷◌, ◌++◌, take, drop, get_or, min, ltb,
  ◌==◌, u8, u16, field, low_bits, shr, bit_and, bit_or, failed, erange, uninitialised, Outcome,
  if◌then◌else◌,
}
use lenovo_magicbay_hud_linu.Device.{M, pure, throw, ◌>>=◌, ◌>>◌, hid_report}

abbrev pub read_max_cnt : ℕ
read_max_cnt = 4

-- `(addr & 0xff00) >> 8` and `addr & 0xff`
abbrev pub addr_hi : ℕ → ℕ
addr_hi addr = shr (field addr 8 8) 8

abbrev pub addr_lo : ℕ → ℕ
addr_lo addr = low_bits addr 8

-- `struct ms9132_hid_read_data` as it is sent
abbrev pub read_report : ℕ → List ℕ
read_report addr = 0xB5 ∷ addr_hi addr ∷ addr_lo addr ∷ 0 ∷ 0 ∷ 0 ∷ 0 ∷ 0 ∷ []

-- The bytes `data[0..read_cnt)` of the report that came back.
unfoldable pub read_xdata_once : ℕ → ℕ → M (List ℕ)
unfolding hid_report
read_xdata_once addr read_cnt = if ltb read_max_cnt read_cnt then throw failed else (do
  sent ← hid_report true (read_report addr)
  rdata ← hid_report false sent
  pure (take read_cnt (drop 3 rdata)))

-- The `while (cnt)` loop of `ms9132_read_xdata`. Each round lowers `cnt`, so `cnt` is fuel enough,
-- and without fuel the loop has ended.
pub read_xdata_loop : ℕ → ℕ → ℕ → ℕ → M (List ℕ)
read_xdata_loop zero addr offset cnt = pure []
read_xdata_loop (suc fuel) addr offset cnt =
    let read_cnt = min read_max_cnt cnt in
    let round = read_xdata_loop fuel addr (u16 (offset + read_cnt)) (cnt - read_cnt) in
    if cnt == 0 then pure [] else (do
      part ← read_xdata_once (u16 (addr + offset)) read_cnt
      rest ← round
      pure (part ++ rest))

-- With `cnt` 0 the code returns `rtn` as it was declared, without a value.
pub read_xdata : ℕ → ℕ → M (List ℕ)
read_xdata addr cnt =
    if ltb 0x10000 (addr + cnt)
    then throw erange
    else if cnt == 0
    then throw uninitialised
    else read_xdata_loop cnt addr 0 cnt

-- `struct ms9132_hid_write_data_byte`
abbrev pub write_report : ℕ → ℕ → List ℕ
write_report addr value = 0xB6 ∷ addr_hi addr ∷ addr_lo addr ∷ value ∷ 0 ∷ 0 ∷ 0 ∷ 0 ∷ []

unfoldable pub xdata_write_byte : ℕ → ℕ → M (Unit {0})
unfolding hid_report
xdata_write_byte addr value = do _ ← hid_report true (write_report addr value); pure tt

unfoldable pub xdata_read_byte : ℕ → M ℕ
unfolding read_xdata_once
xdata_read_byte addr = do bytes ← read_xdata_once addr 1; pure (get_or bytes 0 0)

-- `~mask` as a byte
abbrev pub not_u8 : ℕ → ℕ
not_u8 mask = 255 - mask

unfoldable pub mod_bits : ℕ → ℕ → ℕ → M (Unit {0})
unfolding xdata_read_byte xdata_write_byte
mod_bits addr value mask = do
  reg ← xdata_read_byte addr
  xdata_write_byte addr (bit_or (bit_and reg (not_u8 mask)) (bit_and value mask))
