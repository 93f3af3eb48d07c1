-- ===== src/Drm/Connector.antt =====
-- The connector of a pipeline, drm/msdisp_drm_connector.c: whether a display is there, its EDID,
-- and the modes that it is offered. A display is its state, `none` if the pipeline has none.
pub mod Detection
pub mod Offers
use lenovo_magicbay_hud_linu.Base.{
  ℕ, ◌+◌, Bool, true, false, List, [], ◌∷◌, Option, none, some, length, Errno, einval, Outcome, ok,
  fail, if◌then◌else◌,
}
use lenovo_magicbay_hud_linu.Hal.{Hal}
use lenovo_magicbay_hud_linu.Drm.Display.{display_mode_valid, get_custom_cea_vic}
use lenovo_magicbay_hud_linu.Drm.Cea.{mode_from_cea_vic}
use lenovo_magicbay_hud_linu.Drm.Cea.Row.{CeaMode}

pub data Status : Type 0 where
  connected disconnected unknown : Status

-- `struct msdisp_drm_connector`; an EDID is a number.
pub record Connector : Type 0 where
  pub status : Status
  pub edid : Option ℕ

-- From `msdisp_drm_connector_init`.
abbrev pub fresh : Connector
fresh = record { status = unknown; edid = none }

abbrev pub is_connected : Status → Bool
is_connected connected = true
is_connected s = false

-- What the display's `get_hpd_status` gives, `none` without a display.
abbrev pub status_of : Option (Outcome Bool) → Status
status_of none = disconnected
status_of (some (fail e)) = disconnected
status_of (some (ok true)) = connected
status_of (some (ok false)) = disconnected

-- By whether the connector was connected, and what is detected; `read` is the EDID that
-- `drm_edid_read_custom` and the copying give.
abbrev pub detected : Option ℕ → Connector → Bool → Status → Status × Connector
detected read c true s = (s, record c { status = s })
detected none c false connected = (disconnected, record c { edid = none })
detected (some e) c false connected = (connected, record { status = connected; edid = some e })
detected read c false disconnected = (disconnected, record c { status = disconnected })
detected read c false unknown = (unknown, record c { status = unknown })

unfoldable pub detect : Option (Outcome Bool) → Option ℕ → Connector → Status × Connector
detect hpd read c = detected read c (is_connected c.status) (status_of hpd)

-- `get_edid` is that of the display.
unfoldable pub get_edid_block {ℓ} : {A : Type ℓ} → Option Hal → (Hal → Outcome A) → Outcome A
get_edid_block none get_edid = fail einval
get_edid_block (some h) get_edid = get_edid h

-- `true` is `MODE_OK`; `rate` is the mode's `drm_mode_vrefresh`.
unfoldable mode_valid : Option Hal → ℕ → ℕ → ℕ → Bool
unfolding display_mode_valid
mode_valid none width height rate = false
mode_valid (some h) width height rate = display_mode_valid h width height rate

-- `if (!mode) continue;`
abbrev pub added : Option CeaMode → List CeaMode → List CeaMode
added none ms = ms
added (some m) ms = m ∷ ms

-- The loop over the VICs; a mode for which there is no memory is left out, `granted i` for the
-- `i`-th.
unfoldable pub probed : List ℕ → (ℕ → Bool) → ℕ → List CeaMode
unfolding mode_from_cea_vic
probed [] granted i = []
probed (vic ∷ vics) granted i =
    added (mode_from_cea_vic (granted i) vic) (probed vics granted (i + 1))

abbrev pub modes_of : (ℕ → Bool) → Outcome (List ℕ) → List CeaMode
modes_of granted (ok vics) = probed vics granted 0
modes_of granted (fail e) = []

-- The modes that are added, in order; their number is returned.
unfoldable pub add_modes_by_cea_vic : Option Hal → (ℕ → Bool) → List CeaMode
unfolding probed get_custom_cea_vic
add_modes_by_cea_vic none granted = []
add_modes_by_cea_vic (some h) granted = modes_of granted (get_custom_cea_vic h 8)

-- `edid_modes` is the number of modes that the kernel finds in an EDID.
unfoldable get_modes : (ℕ → ℕ) → Option Hal → (ℕ → Bool) → Connector → ℕ
unfolding add_modes_by_cea_vic
get_modes edid_modes h granted c = elim c.edid [
  | none ↦ 0
  | some e ↦ edid_modes e + length (add_modes_by_cea_vic h granted)
]
