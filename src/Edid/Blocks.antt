-- ===== src/Edid/Blocks.antt =====
-- The fixed EDID blocks of usb_hal/usb_device.c, for the outputs without an EDID of their own.
use lenovo_magicbay_hud_linu.Base.{ℕ, List, [], ◌∷◌}

-- `edidYPBPR`
unfoldable pub edid_ypbpr : List ℕ
edid_ypbpr =
    0x00 ∷ 0xFF ∷ 0xFF ∷ 0xFF ∷ 0xFF ∷ 0xFF ∷ 0xFF ∷ 0x00 ∷ 0x34 ∷ 0x23 ∷ 0x01 ∷ 0x01 ∷ 0x01 ∷ 0x02
    ∷ 0x03 ∷ 0x04 ∷ 0x33 ∷ 0x1C ∷ 0x01 ∷ 0x03 ∷ 0x80 ∷ 0x33 ∷ 0x1D ∷ 0x78 ∷ 0xEF ∷ 0xEE ∷ 0x91
    ∷ 0xA3 ∷ 0x54 ∷ 0x4C ∷ 0x99 ∷ 0x26 ∷ 0x0F ∷ 0x50 ∷ 0x54 ∷ 0x00 ∷ 0x00 ∷ 0x00 ∷ 0x01 ∷ 0x00
    ∷ 0x01 ∷ 0x00 ∷ 0x01 ∷ 0x00 ∷ 0x01 ∷ 0x00 ∷ 0x01 ∷ 0x01 ∷ 0x01 ∷ 0x01 ∷ 0x01 ∷ 0x01 ∷ 0x01
    ∷ 0x00 ∷ 0x01 ∷ 0x1D ∷ 0x00 ∷ 0x72 ∷ 0x51 ∷ 0xD0 ∷ 0x1E ∷ 0x20 ∷ 0x6E ∷ 0x28 ∷ 0x55 ∷ 0x00
    ∷ 0xC4 ∷ 0x8E ∷ 0x21 ∷ 0x00 ∷ 0x00 ∷ 0x1E ∷ 0x02 ∷ 0x3A ∷ 0x80 ∷ 0x18 ∷ 0x71 ∷ 0x38 ∷ 0x2D
    ∷ 0x40 ∷ 0x58 ∷ 0x2C ∷ 0x45 ∷ 0x00 ∷ 0xC4 ∷ 0x8E ∷ 0x21 ∷ 0x00 ∷ 0x00 ∷ 0x1E ∷ 0x8C ∷ 0x0A
    ∷ 0xD0 ∷ 0x8A ∷ 0x20 ∷ 0xE0 ∷ 0x2D ∷ 0x10 ∷ 0x10 ∷ 0x3E ∷ 0x96 ∷ 0x00 ∷ 0xC4 ∷ 0x8E ∷ 0x21
    ∷ 0x00 ∷ 0x00 ∷ 0x18 ∷ 0x8C ∷ 0x0A ∷ 0xD0 ∷ 0x90 ∷ 0x20 ∷ 0x40 ∷ 0x31 ∷ 0x20 ∷ 0x0C ∷ 0x40
    ∷ 0x55 ∷ 0x00 ∷ 0xC4 ∷ 0x8E ∷ 0x21 ∷ 0x00 ∷ 0x00 ∷ 0x18 ∷ 0x00 ∷ 0xBC ∷ []

-- `edidVGA`
unfoldable pub edid_vga : List ℕ
edid_vga =
    0x00 ∷ 0xFF ∷ 0xFF ∷ 0xFF ∷ 0xFF ∷ 0xFF ∷ 0xFF ∷ 0x00 ∷ 0x34 ∷ 0x23 ∷ 0x01 ∷ 0x01 ∷ 0x01 ∷ 0x02
    ∷ 0x03 ∷ 0x04 ∷ 0x01 ∷ 0x18 ∷ 0x01 ∷ 0x03 ∷ 0x80 ∷ 0x33 ∷ 0x1D ∷ 0x78 ∷ 0xEF ∷ 0xEE ∷ 0x91
    ∷ 0xA3 ∷ 0x54 ∷ 0x4C ∷ 0x99 ∷ 0x26 ∷ 0x0F ∷ 0x50 ∷ 0x54 ∷ 0x21 ∷ 0x08 ∷ 0x00 ∷ 0xD1 ∷ 0xC0
    ∷ 0x81 ∷ 0x40 ∷ 0x81 ∷ 0x80 ∷ 0x81 ∷ 0x00 ∷ 0x90 ∷ 0x40 ∷ 0x95 ∷ 0x00 ∷ 0x71 ∷ 0x40 ∷ 0xB3
    ∷ 0x00 ∷ 0x01 ∷ 0x1D ∷ 0x00 ∷ 0x72 ∷ 0x51 ∷ 0xD0 ∷ 0x1E ∷ 0x20 ∷ 0x6E ∷ 0x28 ∷ 0x55 ∷ 0x00
    ∷ 0xC4 ∷ 0x8E ∷ 0x21 ∷ 0x00 ∷ 0x00 ∷ 0x1E ∷ 0x20 ∷ 0x1C ∷ 0x56 ∷ 0x86 ∷ 0x50 ∷ 0x00 ∷ 0x20
    ∷ 0x30 ∷ 0x0E ∷ 0x38 ∷ 0x13 ∷ 0x00 ∷ 0xC4 ∷ 0x8E ∷ 0x21 ∷ 0x00 ∷ 0x00 ∷ 0x1E ∷ 0x00 ∷ 0x00
    ∷ 0x00 ∷ 0xFC ∷ 0x00 ∷ 0x4D ∷ 0x53 ∷ 0x55 ∷ 0x53 ∷ 0x42 ∷ 0x44 ∷ 0x49 ∷ 0x53 ∷ 0x50 ∷ 0x4C
    ∷ 0x41 ∷ 0x59 ∷ 0x0A ∷ 0x00 ∷ 0x00 ∷ 0x00 ∷ 0x10 ∷ 0x00 ∷ 0x00 ∷ 0x00 ∷ 0x00 ∷ 0x00 ∷ 0x00
    ∷ 0x00 ∷ 0x00 ∷ 0x00 ∷ 0x00 ∷ 0x00 ∷ 0x00 ∷ 0x00 ∷ 0x00 ∷ 0x00 ∷ 0x92 ∷ []

-- `edidVGA_USB3`
unfoldable pub edid_vga_usb3 : List ℕ
edid_vga_usb3 =
    0x00 ∷ 0xFF ∷ 0xFF ∷ 0xFF ∷ 0xFF ∷ 0xFF ∷ 0xFF ∷ 0x00 ∷ 0x34 ∷ 0x23 ∷ 0x01 ∷ 0x01 ∷ 0x01 ∷ 0x02
    ∷ 0x03 ∷ 0x04 ∷ 0x01 ∷ 0x18 ∷ 0x01 ∷ 0x03 ∷ 0x80 ∷ 0x33 ∷ 0x1D ∷ 0x78 ∷ 0xEF ∷ 0xEE ∷ 0x91
    ∷ 0xA3 ∷ 0x54 ∷ 0x4C ∷ 0x99 ∷ 0x26 ∷ 0x0F ∷ 0x50 ∷ 0x54 ∷ 0x21 ∷ 0x08 ∷ 0x00 ∷ 0xD1 ∷ 0xC0
    ∷ 0x81 ∷ 0x40 ∷ 0x81 ∷ 0x80 ∷ 0x81 ∷ 0x00 ∷ 0x90 ∷ 0x40 ∷ 0x95 ∷ 0x00 ∷ 0x71 ∷ 0x40 ∷ 0xB3
    ∷ 0x00 ∷ 0x02 ∷ 0x3A ∷ 0x80 ∷ 0x18 ∷ 0x71 ∷ 0x38 ∷ 0x2D ∷ 0x40 ∷ 0x58 ∷ 0x2C ∷ 0x45 ∷ 0x00
    ∷ 0xC4 ∷ 0x8E ∷ 0x21 ∷ 0x00 ∷ 0x00 ∷ 0x1E ∷ 0x20 ∷ 0x1C ∷ 0x56 ∷ 0x86 ∷ 0x50 ∷ 0x00 ∷ 0x20
    ∷ 0x30 ∷ 0x0E ∷ 0x38 ∷ 0x13 ∷ 0x00 ∷ 0xC4 ∷ 0x8E ∷ 0x21 ∷ 0x00 ∷ 0x00 ∷ 0x1E ∷ 0x00 ∷ 0x00
    ∷ 0x00 ∷ 0xFC ∷ 0x00 ∷ 0x4D ∷ 0x53 ∷ 0x55 ∷ 0x53 ∷ 0x42 ∷ 0x44 ∷ 0x49 ∷ 0x53 ∷ 0x50 ∷ 0x4C
    ∷ 0x41 ∷ 0x59 ∷ 0x0A ∷ 0x00 ∷ 0x00 ∷ 0x00 ∷ 0x10 ∷ 0x00 ∷ 0x00 ∷ 0x00 ∷ 0x00 ∷ 0x00 ∷ 0x00
    ∷ 0x00 ∷ 0x00 ∷ 0x00 ∷ 0x00 ∷ 0x00 ∷ 0x00 ∷ 0x00 ∷ 0x00 ∷ 0x00 ∷ 0xB9 ∷ []

-- `edidVGA_CVBS`
unfoldable pub edid_vga_cvbs : List ℕ
edid_vga_cvbs =
    0x00 ∷ 0xFF ∷ 0xFF ∷ 0xFF ∷ 0xFF ∷ 0xFF ∷ 0xFF ∷ 0x00 ∷ 0x34 ∷ 0x23 ∷ 0x01 ∷ 0x01 ∷ 0x01 ∷ 0x02
    ∷ 0x03 ∷ 0x04 ∷ 0x33 ∷ 0x1C ∷ 0x01 ∷ 0x03 ∷ 0x80 ∷ 0x33 ∷ 0x1D ∷ 0x78 ∷ 0xEF ∷ 0xEE ∷ 0x91
    ∷ 0xA3 ∷ 0x54 ∷ 0x4C ∷ 0x99 ∷ 0x26 ∷ 0x0F ∷ 0x50 ∷ 0x54 ∷ 0x01 ∷ 0x00 ∷ 0x00 ∷ 0x45 ∷ 0x40
    ∷ 0x45 ∷ 0x40 ∷ 0x45 ∷ 0x40 ∷ 0x45 ∷ 0x40 ∷ 0x45 ∷ 0x40 ∷ 0x45 ∷ 0x40 ∷ 0x45 ∷ 0x40 ∷ 0x45
    ∷ 0x40 ∷ 0xA0 ∷ 0x0F ∷ 0x20 ∷ 0x00 ∷ 0x31 ∷ 0x58 ∷ 0x1C ∷ 0x20 ∷ 0x28 ∷ 0x80 ∷ 0x14 ∷ 0x00
    ∷ 0x13 ∷ 0x8E ∷ 0x21 ∷ 0x00 ∷ 0x00 ∷ 0x1E ∷ 0x00 ∷ 0x00 ∷ 0x00 ∷ 0x10 ∷ 0x00 ∷ 0x00 ∷ 0x00
    ∷ 0x00 ∷ 0x00 ∷ 0x00 ∷ 0x00 ∷ 0x00 ∷ 0x00 ∷ 0x00 ∷ 0x00 ∷ 0x00 ∷ 0x00 ∷ 0x00 ∷ 0x00 ∷ 0x00
    ∷ 0x00 ∷ 0xFD ∷ 0x00 ∷ 0x32 ∷ 0x55 ∷ 0x1E ∷ 0x51 ∷ 0x11 ∷ 0x00 ∷ 0x0A ∷ 0x20 ∷ 0x20 ∷ 0x20
    ∷ 0x20 ∷ 0x20 ∷ 0x20 ∷ 0x00 ∷ 0x00 ∷ 0x00 ∷ 0xFC ∷ 0x00 ∷ 0x4D ∷ 0x53 ∷ 0x55 ∷ 0x53 ∷ 0x42
    ∷ 0x44 ∷ 0x49 ∷ 0x53 ∷ 0x50 ∷ 0x4C ∷ 0x41 ∷ 0x59 ∷ 0x0A ∷ 0x00 ∷ 0x08 ∷ []
