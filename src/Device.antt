-- ===== src/Device.antt =====
-- The USB control transfers of usb_hal/usb_device.c. What the bus and the chip answer is the
-- environment's: a function of the call's number, of the reports sent so far and of the report at
-- hand. The state counts the calls of `ms9132_hid_report` and keeps the reports, latest first.
pub mod Xdata
pub mod Flash
pub mod Video
pub mod Chip
pub mod Events
pub mod Modes
pub mod Ids
use lenovo_magicbay_hud_linu.Base.{
  ℕ, suc, Bool, List, ◌∷◌, Errno, enomem, report_failed, fault, Outcome, ok, fail, if◌then◌else◌,
}

-- A report of eight bytes, to the chip (`is_set`) or from it.
pub record Request : Type 0 where
  pub is_set : Bool
  pub report : List ℕ

-- How one call of `ms9132_hid_report` ends: `kmalloc` fails, `usb_control_msg` fails, or the
-- buffer holds these bytes after the transfer.
pub data Reply : Type 0 where
  no_memory : Reply
  stalled : Reply
  answer : List ℕ → Reply

pub record Usb : Type 0 where
  pub reply : ℕ → List Request → Request → Reply
  pub calls : ℕ
  pub sent : List Request

-- A function of the driver that uses the bus: its return code with the value that it passes out,
-- and the bus afterwards.
abbrev pub M {ℓ} : Type ℓ → Type ℓ
M A = Usb → Outcome A × Usb

abbrev pub pure {ℓ} : {A : Type ℓ} → A → M A
pure a u = (ok a, u)

abbrev pub throw {ℓ} : {A : Type ℓ} → Errno → M A
throw e u = (fail e, u)

-- `rtn = m; if (rtn) goto out;`
infixl 5 ◌>>=◌ ◌>>◌
abbrev pub ◌>>=◌ {ℓ κ} : {A : Type ℓ} {B : Type κ} → M A → (A → M B) → M B
◌>>=◌ m f u = elim (m u).0 [ ok a ↦ f a (m u).1 | fail e ↦ (fail e, (m u).1) ]

abbrev pub ◌>>◌ {ℓ} : {B : Type ℓ} → M (Unit {0}) → M B → M B
m >> k = m >>= λ _. k

-- A call whose return code is only logged.
abbrev pub ignore {ℓ} : {A : Type ℓ} → M A → M (Unit {0})
ignore m u = (ok tt, (m u).1)

-- `ms9132_hid_report`: a get copies the buffer back into the report, a set does not.
unfoldable pub hid_report : Bool → List ℕ → M (List ℕ)
hid_report is_set report u =
    let request : Request = record { is_set = is_set; report = report } in
    let u' : Usb = record u { calls = suc u.calls; sent = request ∷ u.sent } in
    elim (u.reply u.calls u.sent request) [
      | no_memory ↦ (fail enomem, record u { calls = suc u.calls })
      | stalled ↦ (fail report_failed, u')
      | answer bytes ↦ (ok (if is_set then report else bytes), u')
    ]
