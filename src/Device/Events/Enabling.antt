-- ===== src/Device/Events/Enabling.antt =====
-- What the chip hears when the display is switched on.
use mathlib.Core.Path.{subst}
use lenovo_magicbay_hud_linu.Base.{
  ℕ, ◌/◌, ◌%◌, ◌^◌, ◌<◌, List, [], ◌∷◌, ◌≡◌, ◌∙◌, refl, ap, ap₂, sym, get_or, ok, take, drop, ◌==◌,
  bit_and, if◌then◌else◌, arith,
}
use lenovo_magicbay_hud_linu.Device.{Usb, Request, answer, hid_report}
use lenovo_magicbay_hud_linu.Device.Xdata.{xdata_read_byte, xdata_write_byte, addr_hi, addr_lo}
use lenovo_magicbay_hud_linu.Device.Video.{
  set_trans_enable, set_video_enable, set_power_enable, set_trans_mode, set_video_in_info,
  set_video_out_info,
}
use lenovo_magicbay_hud_linu.Device.Chip.{set_screen_enable, screen_switch, switch_byte}
use lenovo_magicbay_hud_linu.Device.Chip.Screen.{switch_byte-dark}
use lenovo_magicbay_hud_linu.Device.Events.{EnableInfo, enable, event_enable, event_proc}

-- A bus on which no transfer fails: each report is answered by these bytes.
abbrev pub obliging : (ℕ → List Request → Request → List ℕ) → Usb
obliging bytes = record { reply = λ n h r. answer (bytes n h r); calls = 0; sent = [] }

-- What the chip is told, latest first: each report that is no read, whole.
abbrev pub told : List Request → List (List ℕ)
told [] = []
told (r ∷ rs) =
    if get_or r.report 0 0 == 0xB5
    then told rs
    else if r.is_set
    then r.report ∷ told rs
    else told rs

-- A write to the register of the screen switch.
abbrev screen_write : ℕ → ℕ → ℕ → List ℕ
screen_write chip_id port_type byte =
    let s = screen_switch chip_id port_type in
    0xB6 ∷ addr_hi s.addr ∷ addr_lo s.addr ∷ byte ∷ 0 ∷ 0 ∷ 0 ∷ 0 ∷ []

-- A byte in the register of the screen switch that darkens the screen: the mute bit of HDMI set,
-- or the output bit of another port clear.
abbrev pub IsDark : ℕ → ℕ → ℕ → Type 0
IsDark chip_id port_type byte =
    let s = screen_switch chip_id port_type in
    bit_and byte s.mask ≡ (if s.is_clear then s.mask else 0)

-- The reports, latest first, with the bytes of the width and the height and the bytes that are
-- written to the screen switch.
abbrev reports : EnableInfo → ℕ → ℕ → ℕ → ℕ → ℕ → ℕ → ℕ → ℕ → List (List ℕ)
reports info chip_id port_type first last w_hi w_lo h_hi h_lo =
    screen_write chip_id port_type last
    ∷ (0xA6 ∷ 0x05 ∷ 0 ∷ 0 ∷ 0 ∷ 0 ∷ 0 ∷ 0 ∷ [])
    ∷ (0xA6 ∷ 0x04 ∷ 1 ∷ 0 ∷ 0 ∷ 0 ∷ 0 ∷ 0 ∷ [])
    ∷ (0xA6 ∷ 0x02 ∷ info.vic ∷ info.color_out ∷ w_hi ∷ w_lo ∷ h_hi ∷ h_lo ∷ [])
    ∷ (0xA6 ∷ 0x01 ∷ w_hi ∷ w_lo ∷ h_hi ∷ h_lo ∷ info.color_in ∷ 0 ∷ [])
    ∷ (0xA6 ∷ 0x03 ∷ info.trans_mode ∷ 0 ∷ 0 ∷ 0 ∷ 0 ∷ 0 ∷ [])
    ∷ (0xA6 ∷ 0x07 ∷ 1 ∷ 2 ∷ 0 ∷ 0 ∷ 0 ∷ 0 ∷ [])
    ∷ screen_write chip_id port_type first
    ∷ (0xA6 ∷ 0x05 ∷ 0 ∷ 0 ∷ 0 ∷ 0 ∷ 0 ∷ 0 ∷ [])
    ∷ (0xA6 ∷ 0x04 ∷ 0 ∷ 0 ∷ 0 ∷ 0 ∷ 0 ∷ 0 ∷ [])
    ∷ []

-- The two bytes of a width or a height are its high and its low one.
abbrev pub switched_on : EnableInfo → ℕ → ℕ → ℕ → ℕ → List (List ℕ)
switched_on info chip_id port_type first last =
    reports info chip_id port_type first last (info.width / 2 ^ 8 % 2 ^ 8) (info.width % 2 ^ 8)
      (info.height / 2 ^ 8 % 2 ^ 8) (info.height % 2 ^ 8)

-- The chip's answers have bytes in the place of the data.
abbrev pub AnswersBytes : (ℕ → List Request → Request → List ℕ) → Type 0
AnswersBytes bytes = (n : ℕ) (h : List Request) (r : Request) → get_or (bytes n h r) 3 0 < 256

read_byte : (l : List ℕ) → get_or (take 1 (drop 3 l)) 0 0 ≡ get_or l 3 0
read_byte [] = refl
read_byte (a ∷ []) = refl
read_byte (a ∷ b ∷ []) = refl
read_byte (a ∷ b ∷ c ∷ []) = refl
read_byte (a ∷ b ∷ c ∷ d ∷ l) = refl

-- The byte that the darkening writes, by the answer to the read before it.
abbrev dark_byte : ℕ → ℕ → List ℕ → ℕ
dark_byte chip_id port_type l =
    switch_byte (screen_switch chip_id port_type) 0 (get_or (take 1 (drop 3 l)) 0 0)

dark_byte-IsDark :
    (chip_id port_type : ℕ) (l : List ℕ)
    → get_or l 3 0 < 256
    → IsDark chip_id port_type (dark_byte chip_id port_type l)
dark_byte-IsDark chip_id port_type l lt =
    switch_byte-dark chip_id port_type _ (subst (λ (n : ℕ). n < 256) (sym (read_byte l)) lt)

high_byte : (n : ℕ) → addr_hi n ≡ n / 2 ^ 8 % 2 ^ 8
high_byte n = omega arith

-- The reports by what the chip answers when the register of the screen switch is read.
enable-reports :
    (bytes : ℕ → List Request → Request → List ℕ)
    (color_in color_out vic width height chip_id port_type : ℕ)
    → AnswersBytes bytes
    → let info : EnableInfo = record {
      color_in = color_in;
      color_out = color_out;
      vic = vic;
      trans_mode = 3;
      width = width;
      height = height;
    } in
      let r = event_proc (enable info) chip_id port_type (obliging bytes) in
      (r.0 ≡ ok tt)
      × ((l : List ℕ) × (l' : List ℕ) × (get_or l 3 0 < 256)
          × (get_or l' 3 0 < 256)
          × (told (r.1.sent)
              ≡ reports info chip_id port_type
                  (dark_byte chip_id port_type l)
                  (dark_byte chip_id port_type l')
                  (addr_hi width)
                  (addr_lo width)
                  (addr_hi height)
                  (addr_lo height)))
unfolding event_proc event_enable set_screen_enable xdata_read_byte xdata_write_byte hid_report
    set_trans_enable set_video_enable set_power_enable set_trans_mode set_video_in_info
    set_video_out_info
enable-reports bytes color_in color_out vic width height chip_id port_type answers =
    (refl, (bytes _ _ _, bytes _ _ _, answers _ _ _, answers _ _ _, refl))

-- On a bus that fails no transfer and answers with bytes, switching on in the block mode returns
-- 0, and the chip gets these reports, with every byte as written, in this order: stop the
-- transfer, stop the pictures, darken the screen, switch the power on, set the mode of the
-- transfer, the size and the colours of the input, the VIC, the colours and the size of the
-- output, start the transfer, stop the pictures and darken the screen.
pub event_enable_order :
    (bytes : ℕ → List Request → Request → List ℕ) (info : EnableInfo) (chip_id port_type : ℕ)
    → AnswersBytes bytes
    → info.trans_mode ≡ 3
    → let r = event_proc (enable info) chip_id port_type (obliging bytes) in
      (r.0 ≡ ok tt)
      × ((first : ℕ) × (last : ℕ) × IsDark chip_id port_type first
          × IsDark chip_id port_type last
          × (told (r.1.sent) ≡ switched_on info chip_id port_type first last))
event_enable_order bytes info chip_id port_type answers e =
    subst
      (λ (i : EnableInfo).
        let r = event_proc (enable i) chip_id port_type (obliging bytes) in
        (r.0 ≡ ok tt)
        × ((first : ℕ) × (last : ℕ) × IsDark chip_id port_type first
            × IsDark chip_id port_type last
            × (told (r.1.sent) ≡ switched_on i chip_id port_type first last)))
      (ap (λ (t : ℕ). record info { trans_mode = t }) (sym e))
      (let (code, (l, l', lt, lt', sent)) =
          enable-reports bytes info.color_in info.color_out info.vic info.width info.height chip_id
            port_type answers in
        (
          code,
          (
            dark_byte chip_id port_type l,
            dark_byte chip_id port_type l',
            dark_byte-IsDark chip_id port_type l lt,
            dark_byte-IsDark chip_id port_type l' lt',
            sent
                ∙ ap₂
                    (λ w h.
                      reports (record info { trans_mode = 3 }) chip_id port_type
                        (dark_byte chip_id port_type l) (dark_byte chip_id port_type l') w
                        (info.width % 2 ^ 8) h (info.height % 2 ^ 8))
                    (high_byte info.width) (high_byte info.height),
          ),
        ))
