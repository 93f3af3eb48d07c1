-- ===== src/Drm/Cea/Lookup.antt =====
-- Which VICs have a mode, and what every mode is like.
use native.Mathlib.Decide.{dec_lt}
use lenovo_magicbay_hud_linu.Base.{
  ℕ, zero, suc, ◌+◌, ◌-◌, ◌≤◌, ◌<◌, ◌≡◌, ◌⊎◌, ◌∙◌, refl, Bool, true, false, List, [], ◌∷◌, none,
  some, arith, length, get_elem?, leb, ltb, ◌&&◌, inl, inr,
}
use lenovo_magicbay_hud_linu.Drm.Cea.{all_from_1, cea_mode_for_vic}
use lenovo_magicbay_hud_linu.Drm.Cea.Row.{CeaMode}
use lenovo_magicbay_hud_linu.Drm.Cea.Low.{cea_modes_1, cea_modes_33}
use lenovo_magicbay_hud_linu.Drm.Cea.Middle.{cea_modes_65, cea_modes_97}
use lenovo_magicbay_hud_linu.Drm.Cea.High.{cea_modes_193}

length-all_from_1 : length all_from_1 ≡ 127
unfolding all_from_1 cea_modes_1 cea_modes_33 cea_modes_65 cea_modes_97
length-all_from_1 = refl

length-cea_modes_193 : length cea_modes_193 ≡ 27
unfolding cea_modes_193
length-cea_modes_193 = refl

-- A line and a frame: what is shown, then the synchronisation, then the end.
pub record IsTiming (m : CeaMode) : Type 0 where
  pub clock : 0 < m.clock
  pub line :
      (0 < m.hdisplay)
      × (m.hdisplay ≤ m.hsync_start)
      × (m.hsync_start < m.hsync_end)
      × (m.hsync_end ≤ m.htotal)
  pub frame :
      (0 < m.vdisplay)
      × (m.vdisplay ≤ m.vsync_start)
      × (m.vsync_start < m.vsync_end)
      × (m.vsync_end ≤ m.vtotal)

is_timing : CeaMode → Bool
is_timing m =
    ltb 0 m.clock
    && (ltb 0 m.hdisplay
        && leb m.hdisplay m.hsync_start
        && ltb m.hsync_start m.hsync_end
        && leb m.hsync_end m.htotal)
    && (ltb 0 m.vdisplay
        && leb m.vdisplay m.vsync_start
        && ltb m.vsync_start m.vsync_end
        && leb m.vsync_end m.vtotal)

is_timing-IsTiming : (m : CeaMode) → is_timing m ≡ true → IsTiming m
unfolding is_timing
is_timing-IsTiming m e = record {
  clock = ground arith;
  line = (ground arith, ground arith, ground arith, ground arith);
  frame = (ground arith, ground arith, ground arith, ground arith);
}

all_timings : List CeaMode → Bool
all_timings [] = true
all_timings (m ∷ ms) = is_timing m && all_timings ms

all_timings-from_1 : all_timings all_from_1 ≡ true
unfolding all_timings is_timing all_from_1 cea_modes_1 cea_modes_33 cea_modes_65 cea_modes_97
all_timings-from_1 = refl

all_timings-193 : all_timings cea_modes_193 ≡ true
unfolding all_timings is_timing cea_modes_193
all_timings-193 = refl

-- An index below the length has an entry, which passes if all do.
entry :
    (ms : List CeaMode) (i : ℕ)
    → all_timings ms ≡ true
    → i < length ms
    → (m : CeaMode) × (get_elem? ms i ≡ some m) × (is_timing m ≡ true)
unfolding all_timings
entry [] i e lt = absurd (omega arith)
entry (m ∷ ms) zero e lt = (m, refl, ground arith)
entry (m ∷ ms) (suc i) e lt = entry ms i (ground arith) (omega arith)

low_vic : (vic : ℕ) → 0 < vic → vic < 128 → cea_mode_for_vic vic ≡ get_elem? all_from_1 (vic - 1)
unfolding cea_mode_for_vic
low_vic vic a b =
    let n = length-all_from_1 in
    let e : (leb 1 vic && ltb vic (1 + length all_from_1)) ≡ true = ground arith in
    rw (cea_mode_for_vic, e) refl

high_vic :
    (vic : ℕ) → 192 < vic → vic < 220 → cea_mode_for_vic vic ≡ get_elem? cea_modes_193 (vic - 193)
unfolding cea_mode_for_vic
high_vic vic a b =
    let n = length-all_from_1 in
    let k = length-cea_modes_193 in
    let e : (leb 1 vic && ltb vic (1 + length all_from_1)) ≡ false = ground arith in
    let f : (leb 193 vic && ltb vic (193 + length cea_modes_193)) ≡ true = ground arith in
    rw (cea_mode_for_vic, e, f) refl

no_vic :
    (vic : ℕ)
    → (vic ≡ 0) ⊎ (((127 < vic) × (vic < 193)) ⊎ (219 < vic))
    → cea_mode_for_vic vic ≡ none
unfolding cea_mode_for_vic
no_vic vic out =
    let n = length-all_from_1 in
    let k = length-cea_modes_193 in
    let e : (leb 1 vic && ltb vic (1 + length all_from_1)) ≡ false = ground arith in
    let f : (leb 193 vic && ltb vic (193 + length cea_modes_193)) ≡ false = ground arith in
    rw (cea_mode_for_vic, e, f) refl

abbrev pub IsCeaVic : ℕ → Type 0
IsCeaVic vic = ((0 < vic) × (vic < 128)) ⊎ ((192 < vic) × (vic < 220))

IsCeaVic-cases :
    (vic : ℕ) → IsCeaVic vic ⊎ ((vic ≡ 0) ⊎ (((127 < vic) × (vic < 193)) ⊎ (219 < vic)))
IsCeaVic-cases vic = elim (dec_lt 0 vic) [
  | no z ↦ inr (inl (omega arith))
  | yes a ↦ elim (dec_lt vic 128) [
    | yes b ↦ inl (inl (a, b))
    | no c ↦ elim (dec_lt 192 vic) [
      | no d ↦ inr (inr (inl (omega arith, omega arith)))
      | yes d ↦ elim (dec_lt vic 220) [
        | yes e ↦ inl (inr (d, e))
        | no f ↦ inr (inr (inr (omega arith)))
      ]
    ]
  ]
]

-- Either a VIC is one of 1 to 127 and 193 to 219 and `cea_mode_for_vic` finds a mode, whose clock
-- is positive and whose lines and frames show something, then synchronise, then end, or it is none
-- of them and nothing is found.
pub cea_mode_for_vic_iff :
    (vic : ℕ)
    → (IsCeaVic vic × ((m : CeaMode) × (cea_mode_for_vic vic ≡ some m) × IsTiming m))
      ⊎ ((IsCeaVic vic → ⊥) × (cea_mode_for_vic vic ≡ none))
cea_mode_for_vic_iff vic = elim (IsCeaVic-cases vic) [
  | inl (inl (a, b)) ↦
      let (m, e, t) =
        entry all_from_1 (vic - 1) all_timings-from_1 (omega (arith, length-all_from_1)) in
      inl (inl (a, b), (m, low_vic vic a b ∙ e, is_timing-IsTiming m t))
  | inl (inr (a, b)) ↦
      let (m, e, t) =
        entry cea_modes_193 (vic - 193) all_timings-193 (omega (arith, length-cea_modes_193)) in
      inl (inr (a, b), (m, high_vic vic a b ∙ e, is_timing-IsTiming m t))
  | inr out ↦ inr ((λ i. ground arith), no_vic vic out)
]
