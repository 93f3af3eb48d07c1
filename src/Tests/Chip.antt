-- ===== src/Tests/Chip.antt =====
-- The transfers, the EDID and the tables of usb_hal/usb_device.c at concrete inputs.
use lenovo_magicbay_hud_linu.Base.{
  zero, suc, ap, ◌++◌, suc, ℕ, ◌+◌, ◌*◌, ◌%◌, ◌≡◌, refl, true, List, [], ◌∷◌, get_or, arith, ok,
  fail, einval, if◌then◌else◌, replicate,
}
use lenovo_magicbay_hud_linu.Device.{Usb, Request, Reply, answer, stalled}
use lenovo_magicbay_hud_linu.Device.Xdata.{read_xdata, addr_hi, addr_lo}
use lenovo_magicbay_hud_linu.Device.Xdata.Reads.{Serves, bytes_of, set_of, read_xdata-Serves}
use lenovo_magicbay_hud_linu.Device.Flash.Reads.{ServesFlash}
use lenovo_magicbay_hud_linu.Device.Video.{video_report}
use lenovo_magicbay_hud_linu.Device.Events.{EnableInfo, enable, disable, event_proc}
use lenovo_magicbay_hud_linu.Device.Events.Enabling.{
  obliging, told, IsDark, AnswersBytes, switched_on, event_enable_order,
}
use lenovo_magicbay_hud_linu.Device.Events.Order.{Allocates, event_disable_tries_all}
use lenovo_magicbay_hud_linu.Edid.{
  MiscTiming, std_timing_convert, detailed_timing_convert, get_edid,
}
use lenovo_magicbay_hud_linu.Edid.Checksum.{IsBlock, get_edid_fixed}
use lenovo_magicbay_hud_linu.Edid.Decode.{
  Encodes, read_pixclk, read_high, read_low, descriptor_round_trip,
}

-- A memory of zeros and ones, and a chip that answers out of it.
abbrev parity : ℕ → ℕ
parity a = a % 2

abbrev parity_reply : ℕ → List Request → Request → Reply
parity_reply n h r =
    let a = get_or r.report 1 0 * 256 + get_or r.report 2 0 in
    if r.is_set
    then answer r.report
    else answer (
        0xB5
        ∷ get_or r.report 1 0
        ∷ get_or r.report 2 0
        ∷ parity a
        ∷ parity (a + 1)
        ∷ parity (a + 2)
        ∷ parity (a + 3)
        ∷ 0
        ∷ [])

abbrev pub parity_usb : Usb
parity_usb = record { reply = parity_reply; calls = 0; sent = [] }

parity_low : (a k : ℕ) → (addr_hi a * 256 + addr_lo a + k) % 2 ≡ (a + k) % 2
parity_low a k = omega arith

parity_low0 : (a : ℕ) → (addr_hi a * 256 + addr_lo a) % 2 ≡ a % 2
parity_low0 a = omega arith

parity-Serves : Serves parity_reply parity
parity-Serves = record {
  accepts = λ n h a. refl;
  reads = λ n h a. rw (parity_low0 a, parity_low a 1, parity_low a 2, parity_low a 3);
}

read_xdata-Serves_example : (read_xdata 0xC000 6 parity_usb).0 ≡ ok (0 ∷ 1 ∷ 0 ∷ 1 ∷ 0 ∷ 1 ∷ [])
read_xdata-Serves_example =
    read_xdata-Serves parity parity_usb 0xC000 6 parity-Serves (omega arith) (omega arith)
      (omega arith)

abbrev flash_reply : ℕ → List Request → Request → Reply
flash_reply n h r =
    if r.is_set
    then answer r.report
    else answer (
        bytes_of parity
          ((get_or r.report 1 0 * 256 + get_or r.report 2 0) * 256 + get_or r.report 3 0) 8)

abbrev flash_usb : Usb
flash_usb = record { reply = flash_reply; calls = 0; sent = [] }

bytes_of-parity : (n a b : ℕ) → a % 2 ≡ b % 2 → bytes_of parity a n ≡ bytes_of parity b n
bytes_of-parity zero a b e = refl
bytes_of-parity (suc n) a b e = rw (e, bytes_of-parity n (a + 1) (b + 1) (omega arith))

flash-ServesFlash : ServesFlash flash_reply parity
flash-ServesFlash = record {
  accepts = λ n h a. refl;
  reads = λ n h a. ap answer (bytes_of-parity 8 _ a (omega arith));
}

-- A chip that answers each report with zeros.
abbrev zeros_of : ℕ → List Request → Request → List ℕ
zeros_of n h r = replicate 8 0

zeros_of-bytes : AnswersBytes zeros_of
zeros_of-bytes n h r = omega arith

abbrev full_hd_info : EnableInfo
full_hd_info = record {
  color_in = 0x22;
  color_out = 1;
  vic = 129;
  trans_mode = 3;
  width = 1920;
  height = 1080;
}

event_enable_order_example :
    let r = event_proc (enable full_hd_info) 0 5 (obliging zeros_of) in
    (r.0 ≡ ok tt)
    × ((first : ℕ) × (last : ℕ) × IsDark 0 5 first
        × IsDark 0 5 last
        × (told (r.1.sent) ≡ switched_on full_hd_info 0 5 first last))
event_enable_order_example = event_enable_order zeros_of full_hd_info 0 5 zeros_of-bytes refl

-- A bus on which every transfer fails.
abbrev dead_usb : Usb
dead_usb = record { reply = λ n h r. stalled; calls = 0; sent = [] }

dead-Allocates : Allocates dead_usb
dead-Allocates n h r e = ground (arith, e)

event_disable_tries_all_example :
    let r = event_proc disable 0 5 dead_usb in
    (r.0 ≡ ok tt)
    × ((xs : List Request) × (r.1.sent
          ≡ set_of (video_report 0x07 0 2 0 0 0 0)
            ∷ (xs
                ++ (set_of (video_report 0x05 0 0 0 0 0 0)
                    ∷ set_of (video_report 0x04 0 0 0 0 0 0)
                    ∷ []))))
event_disable_tries_all_example = event_disable_tries_all 0 5 dead_usb dead-Allocates

-- 1280x720 at 60 Hz.
abbrev hd_timing : MiscTiming
hd_timing = record {
  vic = 4;
  polarity = 7;
  htotal = 1650;
  vtotal = 750;
  hactive = 1280;
  vactive = 720;
  pixclk = 7425;
  vfreq = 6000;
  hoffset = 260;
  voffset = 25;
  hsyncwidth = 40;
  vsyncwidth = 5;
}

hd-Encodes : Encodes hd_timing
hd-Encodes = record {
  pixclk_lt = omega arith;
  hactive_lt = omega arith;
  vactive_lt = omega arith;
  htotal_lt = omega arith;
  vtotal_lt = omega arith;
  hoffset_le = omega arith;
  voffset_le = omega arith;
}

descriptor_round_trip_example :
    let b = detailed_timing_convert (std_timing_convert hd_timing) in
    (read_pixclk b ≡ 7425)
    × (read_high b 2 4 ≡ 1280)
    × (read_low b 3 4 ≡ 370)
    × (read_high b 5 7 ≡ 720)
    × (read_low b 6 7 ≡ 30)
descriptor_round_trip_example = descriptor_round_trip hd_timing hd-Encodes

get_edid_fixed_example :
    ((buf : List ℕ) × (get_edid true (hd_timing ∷ []) 1 3 2 0 128 dead_usb ≡ (ok buf, dead_usb))
      × IsBlock buf)
    × ((block len : ℕ)
        → get_edid true (hd_timing ∷ []) 1 3 2 (suc block) len dead_usb ≡ (fail einval, dead_usb))
get_edid_fixed_example = get_edid_fixed true (hd_timing ∷ []) 1 3 2 dead_usb refl
