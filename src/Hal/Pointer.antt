-- ===== src/Hal/Pointer.antt =====
-- The pointer's image and place, usb_hal/usb_hal_interface.c.
pub mod Area
use lenovo_magicbay_hud_linu.Base.{
  ℕ, zero, suc, ◌+◌, ◌-◌, ◌*◌, Bool, true, false, List, [], ◌∷◌, Option, none, some, leb, Outcome,
  ok, fail, eperm, if◌then◌else◌,
}
use lenovo_magicbay_hud_linu.Base.Int.{ℤ}
use lenovo_magicbay_hud_linu.Base.Loop.{first_from, last_from}
use lenovo_magicbay_hud_linu.Frame.{Pixels}
use lenovo_magicbay_hud_linu.Frame.Cursor.{Cursor, byte}
use lenovo_magicbay_hud_linu.Device.Events.{Event, update}
use lenovo_magicbay_hud_linu.Hal.{Hal, DevState, enabled, Call, Stat, count_up}
use lenovo_magicbay_hud_linu.Hal.Machine.{is_enabled}

-- `pbuf[3] >= 64`: the pixel is not transparent.
abbrev pub is_opaque : ℕ → Bool
is_opaque p = leb 64 (byte p 3)

-- The `len` pixels from `at`, each `stride` after the last.
pub find_valid_pixman : Pixels → ℕ → ℕ → ℕ → Bool
find_valid_pixman buf at stride zero = false
find_valid_pixman buf at stride (suc len) =
    if is_opaque (buf at) then true else find_valid_pixman buf (at + stride) stride len

abbrev pub cursor_size : ℕ
cursor_size = 64

abbrev pub col_valid : Pixels → ℕ → Bool
col_valid buf x = find_valid_pixman buf x cursor_size cursor_size

abbrev pub row_valid : Pixels → ℕ → ℕ → ℕ → Bool
row_valid buf x1 x2 y = find_valid_pixman buf (y * cursor_size + x1) 1 (x2 - x1)

-- The search from the near end: 0 if it finds nothing.
pub low_end : (ℕ → Bool) → ℕ
low_end valid = elim (first_from cursor_size 0 valid) [ none ↦ 0 | some x ↦ x ]

-- The search from the far end looks at the index before `x` and sets the end to `x + 1`, two after
-- that index. If it finds nothing, the end stays 64.
pub high_end : (ℕ → Bool) → ℕ → ℕ
high_end valid lo = elim (last_from (cursor_size - lo) lo valid) [
  | none ↦ cursor_size
  | some x ↦ x + 2
]

abbrev hide : Hal → Hal
hide h = record h { cursor = record h.cursor { valid = false } }

abbrev pub show : Pixels → ℕ → ℕ → ℕ → ℕ → Hal → Hal
show buf x1 y1 x2 y2 h = record h {
  cursor = record h.cursor { valid = true; x1 = x1; y1 = y1; x2 = x2; y2 = y2 };
}

-- The searches of `usb_hal_cursor_set`, on the image that is copied already.
pub set_image : Pixels → Hal → Call (Unit {0})
unfolding low_end high_end find_valid_pixman
set_image buf h =
    let x1 = low_end (col_valid buf) in
    let x2 = high_end (col_valid buf) x1 in
    let y1 = low_end (row_valid buf x1 x2) in
    let y2 = high_end (row_valid buf x1 x2) y1 in
    if leb x2 x1
    then (ok tt, hide h, [])
    else if leb y2 y1
    then (ok tt, hide h, [])
    else (ok tt, show buf x1 y1 x2 y2 h, update 0 ∷ [])

abbrev pub refuse : Hal → Hal
refuse h = record h { stat = record h.stat { state_error = count_up h.stat.state_error } }

-- `usb_hal_cursor_set`: `none` is a NULL image.
pub cursor_set : Option Pixels → Hal → Call (Unit {0})
unfolding set_image
cursor_set buf h =
    if is_enabled h.state
    then elim buf [
      | none ↦ (ok tt, hide h, [])
      | some b ↦ set_image b (record h { cursor = record h.cursor { buf = b } })
    ]
    else (fail eperm, refuse h, [])

-- `usb_hal_cursor_move` at the time `now`: no event, the thread sees `mouse_moving`.
unfoldable cursor_move : ℤ → ℤ → ℕ → Hal → Call (Unit {0})
cursor_move x y now h =
    if is_enabled h.state
    then (
      ok tt,
      record h {
        cursor = record h.cursor { x = x; y = y };
        mouse_moving = true;
        mouse_updatetime = now;
      },
      [],
    )
    else (fail eperm, refuse h, [])
