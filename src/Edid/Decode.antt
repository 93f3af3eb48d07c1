-- ===== src/Edid/Decode.antt =====
-- The detailed timing descriptor read back.
use lenovo_magicbay_hud_linu.Base.{ℕ, ◌+◌, ◌*◌, ◌-◌, ◌/◌, ◌%◌, ◌<◌, ◌≤◌, ◌≡◌, List, get_or, arith}
use lenovo_magicbay_hud_linu.Edid.{MiscTiming, std_timing_convert, detailed_timing_convert}

-- The fields as an EDID reader takes them out of the 18 bytes.
abbrev byte_at : List ℕ → ℕ → ℕ
byte_at bytes i = get_or bytes i 0

abbrev pub read_pixclk : List ℕ → ℕ
read_pixclk b = byte_at b 0 + byte_at b 1 * 256

abbrev pub read_high : List ℕ → ℕ → ℕ → ℕ
read_high b low high = byte_at b low + byte_at b high / 16 * 256

abbrev pub read_low : List ℕ → ℕ → ℕ → ℕ
read_low b low high = byte_at b low + byte_at b high % 16 * 256

abbrev read_hoffset : List ℕ → ℕ
read_hoffset b = byte_at b 8 + byte_at b 11 / 64 * 256

abbrev read_hsyncwidth : List ℕ → ℕ
read_hsyncwidth b = byte_at b 9 + byte_at b 11 / 16 % 4 * 256

abbrev read_voffset : List ℕ → ℕ
read_voffset b = byte_at b 10 / 16 + byte_at b 11 / 4 % 4 * 16

abbrev read_vsyncwidth : List ℕ → ℕ
read_vsyncwidth b = byte_at b 10 % 16 + byte_at b 11 % 4 * 16

-- A timing whose totals hold its active part and its offsets, and whose fields fit the descriptor.
pub record Encodes (t : MiscTiming) : Type 0 where
  pub pixclk_lt : t.pixclk < 65536
  pub hactive_lt : t.hactive < 4096
  pub vactive_lt : t.vactive < 4096
  pub htotal_lt : t.htotal < t.hactive + 4096
  pub vtotal_lt : t.vtotal < t.vactive + 4096
  pub hoffset_le : t.hactive + t.hoffset ≤ t.htotal
  pub voffset_le : t.vactive + t.voffset ≤ t.vtotal

-- From the 18 bytes of a descriptor an EDID reader gets back the clock, the active part and the
-- blanking of the timing, if its totals hold its active part and offsets and the fields fit 16 and
-- 12 bits.
pub descriptor_round_trip :
    (t : MiscTiming)
    → Encodes t
    → let b = detailed_timing_convert (std_timing_convert t) in
      (read_pixclk b ≡ t.pixclk)
      × (read_high b 2 4 ≡ t.hactive)
      × (read_low b 3 4 ≡ t.htotal - t.hactive)
      × (read_high b 5 7 ≡ t.vactive)
      × (read_low b 6 7 ≡ t.vtotal - t.vactive)
unfolding detailed_timing_convert std_timing_convert
descriptor_round_trip t e =
    let p = e.pixclk_lt in
    let q = e.hactive_lt in
    let r = e.vactive_lt in
    let x = e.htotal_lt in
    let y = e.vtotal_lt in
    let v = e.hoffset_le in
    let w = e.voffset_le in (omega arith, omega arith, omega arith, omega arith, omega arith)

-- Of such a timing, if the horizontal sync starts and lasts less than 1024 pixels and the vertical
-- one less than 64 lines, a reader gets back the horizontal sync, but of the start and the width
-- of the vertical sync only the values modulo 16.
descriptor_sync :
    (t : MiscTiming)
    → Encodes t
    → t.htotal - t.hactive - t.hoffset < 1024
    → t.vtotal - t.vactive - t.voffset < 64
    → t.hsyncwidth < 1024
    → t.vsyncwidth < 64
    → let b = detailed_timing_convert (std_timing_convert t) in
      (read_hsyncwidth b ≡ t.hsyncwidth)
      × (read_hoffset b ≡ t.htotal - t.hactive - t.hoffset)
      × (read_vsyncwidth b ≡ t.vsyncwidth % 16)
      × (read_voffset b ≡ (t.vtotal - t.vactive - t.voffset) % 16)
unfolding detailed_timing_convert std_timing_convert
descriptor_sync t e ho vo hs vs =
    let p = e.pixclk_lt in
    let q = e.hactive_lt in
    let r = e.vactive_lt in
    let x = e.htotal_lt in
    let y = e.vtotal_lt in
    let v = e.hoffset_le in
    let w = e.voffset_le in (omega arith, omega arith, omega arith, omega arith)
