-- ===== src/Edid/Checksum.antt =====
-- The checksum of an EDID block.
use lenovo_magicbay_hud_linu.Device.{Usb, pure, ◌>>=◌}
use lenovo_magicbay_hud_linu.Edid.Blocks.{edid_ypbpr, edid_vga, edid_vga_usb3, edid_vga_cvbs}
use lenovo_magicbay_hud_linu.Base.{
  lt→ltb, Outcome, einval, fail, length-set, min, ok, ◌||◌, inl, inr, length-append, ◌&&◌, ltb,
  Bool-cases, length-drop, length-take, if◌then◌else◌, ℕ, zero, suc, ◌+◌, ◌%◌, ◌≡◌, ◌∙◌, refl, ap,
  Bool, true, false, List, [], ◌∷◌, ◌++◌, take, drop, set, length, sub_u8, arith, ◌==◌,
}
use lenovo_magicbay_hud_linu.Edid.{
  is_analogue, details, zeros, MiscTiming, edid_source, get_edid, replace_descriptors,
  update_detailed_timing, checksum_loop, checksum_calc,
}

abbrev total : List ℕ → ℕ
total [] = 0
total (b ∷ bs) = b + total bs

checksum_loop-total : (bs : List ℕ) (c : ℕ) → (checksum_loop bs c + total bs) % 256 ≡ c % 256
unfolding checksum_loop
checksum_loop-total [] c = omega arith
checksum_loop-total (b ∷ bs) c = omega (arith, checksum_loop-total bs (sub_u8 c b))

-- A write to the last byte of the first `n + 1`.
total-set :
    (n : ℕ) (bs : List ℕ) (c : ℕ) → length bs ≡ suc n → total (set bs n c) ≡ total (take n bs) + c
total-set n [] c e = absurd (omega arith)
total-set zero (b ∷ []) c e = omega arith
total-set zero (b ∷ (b' ∷ bs)) c e = absurd (omega arith)
total-set (suc n) (b ∷ bs) c e = omega (arith, total-set n bs c (omega (arith, e)))

-- The bytes of a block of 128 bytes sum up to 0 modulo 256 once its checksum is calculated.
total-checksum_calc : (buf : List ℕ) → length buf ≡ 128 → total (checksum_calc buf) % 256 ≡ 0
unfolding checksum_calc
total-checksum_calc buf e = omega (
  arith,
  total-set 127 buf (checksum_loop (take 127 buf) 0) e,
  checksum_loop-total (take 127 buf) 0,
)

-- A block of 128 bytes whose checksum is right.
abbrev pub IsBlock : List ℕ → Type 0
IsBlock buf = (length buf ≡ 128) × (total buf % 256 ≡ 0)

length-replace_descriptors :
    (buf ds : List ℕ) → length buf ≡ 128 → length (replace_descriptors buf ds) ≡ 128
unfolding replace_descriptors
length-replace_descriptors buf ds e =
    let a = length-take 54 buf in
    let b = length-drop 126 buf in
    let c = length-take 72 (ds ++ zeros 72) in
    let d = length-append ds (zeros 72) in
    let x = length-append (take 54 buf) (take 72 (ds ++ zeros 72) ++ drop 126 buf) in
    let y = length-append (take 72 (ds ++ zeros 72)) (drop 126 buf) in
    omega (arith, a, b, c, d, x, y, e)

-- A block of 128 bytes with a right checksum stays one when the custom timings are put in.
update_detailed_timing-IsBlock :
    (buf : List ℕ) (timings : List MiscTiming) (detail_count block : ℕ)
    → IsBlock buf
    → IsBlock (update_detailed_timing buf timings detail_count block)
unfolding update_detailed_timing checksum_calc
update_detailed_timing-IsBlock buf timings detail_count block (l, s) =
    elim (Bool-cases (ltb 0 detail_count && ltb block 1)) [
      | inl e ↦
          let buf' = replace_descriptors buf (details (min detail_count 2) timings) in
          let l' = length-replace_descriptors buf (details (min detail_count 2) timings) l in
          rw (update_detailed_timing, e)
            (
              length-set buf' 127 (checksum_loop (take 127 buf') 0) ∙ l',
              total-checksum_calc buf' l',
            )
      | inr e ↦ rw (update_detailed_timing, e) (l, s)
    ]

IsBlock-if : (b : Bool) (xs ys : List ℕ) → IsBlock xs → IsBlock ys → IsBlock (if b then xs else ys)
IsBlock-if true xs ys p q = p
IsBlock-if false xs ys p q = q

ypbpr-IsBlock : IsBlock (take 128 edid_ypbpr)
unfolding edid_ypbpr
ypbpr-IsBlock = (refl, refl)

vga-IsBlock : IsBlock (take 128 edid_vga)
unfolding edid_vga
vga-IsBlock = (refl, refl)

vga_usb3-IsBlock : IsBlock (take 128 edid_vga_usb3)
unfolding edid_vga_usb3
vga_usb3-IsBlock = (refl, refl)

vga_cvbs-IsBlock : IsBlock (take 128 edid_vga_cvbs)
unfolding edid_vga_cvbs
vga_cvbs-IsBlock = (refl, refl)

-- The outputs with a fixed EDID.
abbrev is_fixed : ℕ → ℕ → Bool
is_fixed port_type sdram_type =
    (port_type == 3 || is_analogue port_type) || (sdram_type == 0 || sdram_type == 4)

abbrev Fixed : Bool → ℕ → ℕ → Usb → Type 0
Fixed super_speed port_type sdram_type u =
    (buf : List ℕ) × (edid_source super_speed port_type sdram_type 0 128 u ≡ (ok buf, u))
    × IsBlock buf

edid_source-Fixed :
    (super_speed : Bool) (port_type sdram_type : ℕ) (u : Usb)
    → is_fixed port_type sdram_type ≡ true
    → Fixed super_speed port_type sdram_type u
unfolding edid_source
edid_source-Fixed super_speed port_type sdram_type u f = elim (Bool-cases (port_type == 3)) [
  | inl e ↦ (_, rw (edid_source, e), ypbpr-IsBlock)
  | inr e ↦ elim (Bool-cases (is_analogue port_type || sdram_type == 0)) [
    | inl e' ↦ (_, rw (edid_source, e, e'), vga_cvbs-IsBlock)
    | inr e' ↦ elim (Bool-cases (sdram_type == 4)) [
      | inl e'' ↦ (
        take 128 (if super_speed then edid_vga_usb3 else edid_vga),
        rw (edid_source, e, e', e''),
        usb super_speed,
      )
      | inr e'' ↦ absurd (ground (arith, f, e, e', e''))
    ]
  ]
]
  where
    usb : (b : Bool) → IsBlock (take 128 (if b then edid_vga_usb3 else edid_vga))
    usb true = vga_usb3-IsBlock
    usb false = vga-IsBlock

and_false : (b : Bool) → (b && false) ≡ false
and_false true = refl
and_false false = refl

first_block :
    (super_speed : Bool) (timings : List MiscTiming) (detail_count port_type sdram_type : ℕ)
    (u : Usb) (buf : List ℕ)
    → edid_source super_speed port_type sdram_type 0 128 u ≡ (ok buf, u)
    → get_edid super_speed timings detail_count port_type sdram_type 0 128 u
      ≡ (ok (update_detailed_timing buf timings detail_count 0), u)
unfolding get_edid
first_block super_speed timings detail_count port_type sdram_type u buf e =
    rw
      (
        get_edid,
        and_false (port_type == 3 || is_analogue port_type),
        and_false (sdram_type == 0 || sdram_type == 4),
      )
      (ap
        (λ (r : Outcome (List ℕ) × Usb).
          ((λ w. r) >>= λ b. pure (update_detailed_timing b timings detail_count 0)) u)
        e)

-- An output with a fixed EDID gets its first block, of 128 bytes with a right checksum, whatever
-- the custom timings and without a transfer, and -EINVAL for any other block.
pub get_edid_fixed :
    (super_speed : Bool) (timings : List MiscTiming) (detail_count port_type sdram_type : ℕ)
    (u : Usb)
    → is_fixed port_type sdram_type ≡ true
    → ((buf : List ℕ) × (get_edid super_speed timings detail_count port_type sdram_type 0 128 u
          ≡ (ok buf, u))
        × IsBlock buf)
      × ((block len : ℕ)
          → get_edid super_speed timings detail_count port_type sdram_type (suc block) len u
            ≡ (fail einval, u))
unfolding get_edid
get_edid_fixed super_speed timings detail_count port_type sdram_type u f =
    let (buf, e, b) = edid_source-Fixed super_speed port_type sdram_type u f in
    (
      (
        update_detailed_timing buf timings detail_count 0,
        first_block super_speed timings detail_count port_type sdram_type u buf e,
        update_detailed_timing-IsBlock buf timings detail_count 0 b,
      ),
      λ block len. elim (Bool-cases (port_type == 3 || is_analogue port_type)) [
        | inl e ↦ rw (get_edid, e, lt→ltb 0 (suc block) (omega arith))
        | inr e ↦ elim (Bool-cases (sdram_type == 0 || sdram_type == 4)) [
          | inl e' ↦ rw (get_edid, e, e', lt→ltb 0 (suc block) (omega arith))
          | inr e' ↦ absurd (ground (arith, f, e, e'))
        ]
      ],
    )
