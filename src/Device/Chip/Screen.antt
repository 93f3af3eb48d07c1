-- ===== src/Device/Chip/Screen.antt =====
-- The bits that switch the screen on and off.
use lenovo_magicbay_hud_linu.Base.{
  ℕ, ◌<◌, ◌≡◌, ◌∙◌, refl, Bool, true, false, not, ◌&&◌, bit_and, bit_or, ◌==◌, ==_iff,
  if◌then◌else◌, arith,
}
use lenovo_magicbay_hud_linu.Base.Tables.{passes_under, passes_under_at}
use lenovo_magicbay_hud_linu.Device.Xdata.{not_u8}
use lenovo_magicbay_hud_linu.Device.Chip.{Switch, screen_switch, switch_byte, sets_bits}

abbrev written : Bool → ℕ → ℕ → ℕ
written sets mask x = if sets then bit_or x mask else bit_and x (not_u8 mask)

-- What the switch does to the bits of its mask, and to the others.
abbrev Switched : Bool → ℕ → ℕ → ℕ → Type 0
Switched sets mask x y =
    (bit_and y (not_u8 mask) ≡ bit_and x (not_u8 mask))
    × (bit_and y mask ≡ (if sets then mask else 0))

abbrev switched : Bool → ℕ → ℕ → Bool
switched sets mask x =
    bit_and (written sets mask x) (not_u8 mask) == bit_and x (not_u8 mask)
    && bit_and (written sets mask x) mask == (if sets then mask else 0)

table_1 : (sets : Bool) → passes_under (switched sets 0x1) 256 ≡ true
unfolding passes_under
table_1 true = refl
table_1 false = refl

table_2 : (sets : Bool) → passes_under (switched sets 0x2) 256 ≡ true
unfolding passes_under
table_2 true = refl
table_2 false = refl

table_16 : (sets : Bool) → passes_under (switched sets 0x10) 256 ≡ true
unfolding passes_under
table_16 true = refl
table_16 false = refl

table_128 : (sets : Bool) → passes_under (switched sets 0x80) 256 ≡ true
unfolding passes_under
table_128 true = refl
table_128 false = refl

&&-split : (a b : Bool) → (a && b) ≡ true → (a ≡ true) × (b ≡ true)
&&-split a b h = (ground (arith, h), ground (arith, h))

if-choice : (P : Switch → Type 0) (b : Bool) (s t : Switch) → P s → P t → P (if b then s else t)
if-choice P true s t p q = p
if-choice P false s t p q = q

Switched-table :
    (sets : Bool) (mask x : ℕ)
    → passes_under (switched sets mask) 256 ≡ true
    → x < 256
    → Switched sets mask x (written sets mask x)
Switched-table sets mask x t lt =
    let (p, q) = &&-split _ _ (passes_under_at (switched sets mask) 256 x lt t) in
    ((==_iff _ _).0 p, (==_iff _ _).0 q)

screen_switch-table :
    (chip_id port_type on : ℕ)
    → let s = screen_switch chip_id port_type in
      passes_under (switched (sets_bits on s.is_clear) s.mask) 256 ≡ true
unfolding screen_switch
screen_switch-table chip_id port_type on =
    let P : Switch → Type 0 =
      λ s. passes_under (switched (sets_bits on s.is_clear) s.mask) 256 ≡ true in
    let off = not (on == 0) in
    if-choice P (chip_id == 0) _ _
      (if-choice P (port_type == 5) _ _ (table_2 (on == 0)) (table_1 off))
      (if-choice P (port_type == 5) _ _ (table_2 (on == 0)) (
        if-choice P (port_type == 2) _ _ (table_128 off) (
          if-choice P (port_type == 3) _ _ (table_1 off)
            (if-choice P (port_type == 6) _ _ (table_16 off) (table_2 off)))))

-- For every chip and port, the screen switch sets or clears the bits of its mask in a byte as it
-- is asked to, and keeps the others.
switch_byte-Switched :
    (chip_id port_type on x : ℕ)
    → x < 256
    → let s = screen_switch chip_id port_type in
      Switched (sets_bits on s.is_clear) s.mask x (switch_byte s on x)
switch_byte-Switched chip_id port_type on x lt =
    Switched-table (sets_bits on (screen_switch chip_id port_type).is_clear)
      (screen_switch chip_id port_type).mask x (screen_switch-table chip_id port_type on) lt

-- Asked for 0, the switch leaves its bits set where they darken the screen, and clear elsewhere.
pub switch_byte-dark :
    (chip_id port_type x : ℕ)
    → x < 256
    → let s = screen_switch chip_id port_type in
      bit_and (switch_byte s 0 x) s.mask ≡ (if s.is_clear then s.mask else 0)
switch_byte-dark chip_id port_type x lt =
    let s = screen_switch chip_id port_type in
    (switch_byte-Switched chip_id port_type 0 x lt).1 ∙ dark s.is_clear s.mask
  where
    dark : (b : Bool) (m : ℕ) → (if sets_bits 0 b then m else 0) ≡ (if b then m else 0)
    dark true m = refl
    dark false m = refl
