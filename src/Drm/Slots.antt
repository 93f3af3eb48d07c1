-- ===== src/Drm/Slots.antt =====
-- The platform devices, drm/msdisp_plat_drv.c and drm/msdisp_plat_dev.c: at most three, each in a
-- slot of its own. A device is a number, NULL is `none`.
pub mod Filling
use lenovo_magicbay_hud_linu.Base.{
  ℕ, zero, suc, ◌+◌, ◌-◌, Bool, true, false, List, [], ◌∷◌, Option, none, some, get_elem?, set, leb,
  ltb, ◌==◌, ◌||◌, Errno, einval, fault, Outcome, ok, fail, if◌then◌else◌,
}

-- `struct msdisp_platform_drv_context`
pub record Slots : Type 0 where
  pub dev_count : ℕ
  pub devices : List (Option ℕ)

abbrev pub device_count_max : ℕ
device_count_max = 3

-- After `memset`.
abbrev pub no_devices : Slots
no_devices = record { dev_count = 0; devices = none ∷ none ∷ none ∷ [] }

unfoldable get_device : Slots → ℕ → Option ℕ
get_device s id =
    if leb device_count_max id
    then none
    else elim (get_elem? s.devices id) [ none ↦ none | some d ↦ d ]

-- The loop of `msdisp_platform_get_plat_device_index` from the slot `i`; `none` is -1.
unfoldable find_device : List (Option ℕ) → ℕ → ℕ → Option ℕ
find_device [] d i = none
find_device (none ∷ ds) d i = find_device ds d (i + 1)
find_device (some x ∷ ds) d i = if x == d then some i else find_device ds d (i + 1)

unfoldable get_plat_device_index : Slots → Option ℕ → Option ℕ
unfolding find_device
get_plat_device_index s none = none
get_plat_device_index s (some d) = find_device s.devices d 0

-- The loop of `msdisp_platform_drv_get_free_idx` from the slot `i`; `none` is -ENOMEM.
unfoldable pub free_idx : List (Option ℕ) → ℕ → Option ℕ
free_idx [] i = none
free_idx (none ∷ ds) i = some i
free_idx (some x ∷ ds) i = free_idx ds (i + 1)

abbrev pub filled : Slots → ℕ → ℕ → Slots
filled s i d = record { dev_count = s.dev_count + 1; devices = set s.devices i (some d) }

-- `created` is what `platform_device_register_full` returns, `none` for an error pointer, through
-- which `msdisp_platform_dev_create` then reads.
abbrev pub create_at : Slots → Option ℕ → Option ℕ → Outcome (Unit {0}) × Slots
create_at s none created = (fail einval, s)
create_at s (some i) none =
    if leb device_count_max s.dev_count then (fail einval, s) else (fail fault, s)
create_at s (some i) (some d) =
    if leb device_count_max s.dev_count then (fail einval, s) else (ok tt, filled s i d)

unfoldable pub device_add : Option ℕ → Slots → Outcome (Unit {0}) × Slots
unfolding free_idx
device_add created s = create_at s (free_idx s.devices 0) created

-- `while (val-- && msdisp_platform_device_add(device) == 0)`: `created i` is what the `i`-th
-- registration gives.
unfoldable pub add_loop : ℕ → (ℕ → Option ℕ) → ℕ → Slots → Outcome (Unit {0}) × Slots
unfolding device_add
add_loop zero created i s = (ok tt, s)
add_loop (suc val) created i s =
    let (r, t) = device_add (created i) s in
    elim r [
      | ok u ↦ add_loop val created (i + 1) t
      | fail fault ↦ (fail fault, t)
      | fail e ↦ (ok tt, t)
    ]

unfoldable pub add_devices : ℕ → (ℕ → Option ℕ) → Slots → Outcome (Unit {0}) × Slots
unfolding add_loop
add_devices val created s =
    if val == 0
    then (ok tt, s)
    else if ltb (device_count_max - s.dev_count) val
    then (fail einval, s)
    else add_loop val created 0 s

-- The devices that are destroyed, in order.
unfoldable pub present : List (Option ℕ) → List ℕ
present [] = []
present (none ∷ ds) = present ds
present (some d ∷ ds) = d ∷ present ds

unfoldable pub emptied : List (Option ℕ) → List (Option ℕ)
emptied [] = []
emptied (d ∷ ds) = none ∷ emptied ds

-- The counter goes down with each device, and to 0 in the end.
unfoldable pub remove_all_devices : Slots → Slots × List ℕ
unfolding present emptied
remove_all_devices s = (record { dev_count = 0; devices = emptied s.devices }, present s.devices)

-- `msdisp_init`, after the driver is registered.
unfoldable pub init : ℕ → (ℕ → Option ℕ) → Outcome (Unit {0}) × Slots
unfolding add_devices
init initial_device_count created = add_devices initial_device_count created no_devices
