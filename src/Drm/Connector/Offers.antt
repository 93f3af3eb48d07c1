-- ===== src/Drm/Connector/Offers.antt =====
-- The modes that a display is offered beside those of its EDID.
use lenovo_magicbay_hud_linu.Base.{
  if◌then◌else◌, ℕ, ◌≡◌, ◌∙◌, sym, ap, refl, Bool, true, false, List, [], ◌∷◌, Option, some, inl,
  inr, ok, map, ◌==◌, Bool-cases,
}
use lenovo_magicbay_hud_linu.Hal.{Hal}
use lenovo_magicbay_hud_linu.Drm.Display.{get_custom_cea_vic}
use lenovo_magicbay_hud_linu.Drm.Cea.{cea_mode_for_vic, mode_from_cea_vic, all_from_1}
use lenovo_magicbay_hud_linu.Drm.Cea.Row.{CeaMode}
use lenovo_magicbay_hud_linu.Drm.Cea.Low.{cea_modes_1, cea_modes_33}
use lenovo_magicbay_hud_linu.Drm.Cea.Middle.{cea_modes_65, cea_modes_97}
use lenovo_magicbay_hud_linu.Drm.Connector.{added, probed, modes_of, add_modes_by_cea_vic}

-- The size of what a mode shows.
abbrev size_of : CeaMode → ℕ × ℕ
size_of m = (m.hdisplay, m.vdisplay)

offers :
    (h : Hal) (b : Bool)
    → (h.port_type == 4) ≡ b
    → get_custom_cea_vic h 8 ≡ (if b then ok (2 ∷ 17 ∷ []) else ok [])
unfolding get_custom_cea_vic
offers h true e = rw (get_custom_cea_vic, e) refl
offers h false e = rw (get_custom_cea_vic, e) refl

-- The modes 720x480 and 720x576 for a television, as far as there is memory.
abbrev pub television : Bool → Bool → List (ℕ × ℕ)
television true true = (720, 480) ∷ (720, 576) ∷ []
television true false = (720, 480) ∷ []
television false true = (720, 576) ∷ []
television false false = []

vic_2 : (m : CeaMode) × (cea_mode_for_vic 2 ≡ some m) × (size_of m ≡ (720, 480))
unfolding cea_mode_for_vic all_from_1 cea_modes_1 cea_modes_33 cea_modes_65 cea_modes_97
vic_2 = (_, refl, refl)

vic_17 : (m : CeaMode) × (cea_mode_for_vic 17 ≡ some m) × (size_of m ≡ (720, 576))
unfolding cea_mode_for_vic all_from_1 cea_modes_1 cea_modes_33 cea_modes_65 cea_modes_97
vic_17 = (_, refl, refl)

-- The sizes of the modes that two lookups give.
abbrev sizes : Option CeaMode → Option CeaMode → List (ℕ × ℕ)
sizes x y = map size_of (added x (added y []))

from_2 :
    (b : Bool) (y : Option CeaMode)
    → sizes (mode_from_cea_vic b 2) y
      ≡ (if b then (720, 480) ∷ map size_of (added y []) else map size_of (added y []))
unfolding mode_from_cea_vic
from_2 true y =
    let (m, x, s) = vic_2 in ap (λ o. sizes o y) x ∙ ap (λ z. z ∷ map size_of (added y [])) s
from_2 false y = refl

from_17 :
    (b : Bool)
    → map size_of (added (mode_from_cea_vic b 17) []) ≡ (if b then (720, 576) ∷ [] else [])
unfolding mode_from_cea_vic
from_17 true = let (m, x, s) = vic_17 in ap (λ o. map size_of (added o [])) x ∙ ap (λ z. z ∷ []) s
from_17 false = refl

television-if :
    (a b : Bool)
    → (if a
        then (720, 480) ∷ (if b then (720, 576) ∷ [] else [])
        else (if b then (720, 576) ∷ [] else []))
      ≡ television a b
television-if true true = refl
television-if true false = refl
television-if false true = refl
television-if false false = refl

probed-television :
    (granted : ℕ → Bool)
    → map size_of (probed (2 ∷ 17 ∷ []) granted 0) ≡ television (granted 0) (granted 1)
unfolding probed
probed-television granted =
    from_2 (granted 0) (mode_from_cea_vic (granted 1) 17)
    ∙ ap (λ l. if granted 0 then (720, 480) ∷ l else l) (from_17 (granted 1))
    ∙ television-if (granted 0) (granted 1)

-- A display at the port 4 is offered 720x480 and 720x576, as far as there is memory for the modes,
-- and any other display nothing.
add_modes_by_cea_vic-television :
    (h : Hal) (granted : ℕ → Bool)
    → map size_of (add_modes_by_cea_vic (some h) granted)
      ≡ (if h.port_type == 4 then television (granted 0) (granted 1) else [])
unfolding add_modes_by_cea_vic
add_modes_by_cea_vic-television h granted = elim (Bool-cases (h.port_type == 4)) [
  | inl e ↦
      ap (λ r. map size_of (modes_of granted r)) (offers h true e)
      ∙ probed-television granted
      ∙ sym (ap (λ (b : Bool). if b then television (granted 0) (granted 1) else []) e)
  | inr e ↦
      ap (λ r. map size_of (modes_of granted r)) (offers h false e)
      ∙ sym (ap (λ (b : Bool). if b then television (granted 0) (granted 1) else []) e)
]
