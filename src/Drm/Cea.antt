-- ===== src/Drm/Cea.antt =====
-- The modes of CEA-861 by their VIC, drm/msdisp_drm_mode.c.
pub mod Row
pub mod Low
pub mod Middle
pub mod High
pub mod Lookup
use lenovo_magicbay_hud_linu.Base.{
  ℕ, ◌+◌, ◌-◌, Bool, true, false, List, [], ◌∷◌, ◌++◌, Option, none, some, get_elem?, length, leb,
  ltb, ◌&&◌, if◌then◌else◌,
}
use Row.{CeaMode}
use Low.{cea_modes_1, cea_modes_33}
use Middle.{cea_modes_65, cea_modes_97}
use High.{cea_modes_193}

-- `msdisp_edid_cea_modes_1`
unfoldable pub all_from_1 : List CeaMode
unfolding cea_modes_1 cea_modes_33 cea_modes_65 cea_modes_97
all_from_1 = cea_modes_1 ++ (cea_modes_33 ++ (cea_modes_65 ++ cea_modes_97))

-- `vic` is a `u8`; the sizes of the arrays are asserted when the file is compiled.
unfoldable pub cea_mode_for_vic : ℕ → Option CeaMode
unfolding all_from_1
cea_mode_for_vic vic =
    if leb 1 vic && ltb vic (1 + length all_from_1)
    then get_elem? all_from_1 (vic - 1)
    else if leb 193 vic && ltb vic (193 + length cea_modes_193)
    then get_elem? cea_modes_193 (vic - 193)
    else none

-- `granted`: whether there is memory for the copy.
unfoldable pub mode_from_cea_vic : Bool → ℕ → Option CeaMode
unfolding cea_mode_for_vic
mode_from_cea_vic granted vic = if granted then cea_mode_for_vic vic else none
