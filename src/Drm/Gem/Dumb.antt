-- ===== src/Drm/Gem/Dumb.antt =====
-- The buffers that a program asks a card for, drm/msdisp_drm_gem.c: their pitch and their size.
use lenovo_magicbay_hud_linu.Base.{
  ◌-◌, ℕ, ◌+◌, ◌*◌, ◌/◌, Bool, Option, none, some, ◌==◌, ◌||◌, u32, Errno, enomem, Outcome, ok,
  fail, if◌then◌else◌,
}
use lenovo_magicbay_hud_linu.Drm.Gem.{Gem, created}

-- `PAGE_SIZE`
abbrev pub page_size : ℕ
page_size = 4096

-- `pitch_mask`
pitch_mask : ℕ → ℕ
pitch_mask cpp =
    if cpp == 1 then 255 else if cpp == 2 then 127 else if cpp == 3 || cpp == 4 then 63 else 0

-- The width up to a multiple of `pitch_mask + 1`, a power of two, and its bytes; an `int`.
unfoldable pub align_pitch : ℕ → ℕ → ℕ
unfolding pitch_mask
align_pitch width cpp =
    let block = pitch_mask cpp + 1 in u32 (u32 (width + pitch_mask cpp) / block * block * cpp)

-- `roundup(size, PAGE_SIZE)`
abbrev pub roundup : ℕ → ℕ
roundup size = (size + (page_size - 1)) / page_size * page_size

-- `allocated`: whether there is memory for the object; `handle`: the code of
-- `drm_gem_handle_create`, after which a failed call gives the object back.
unfoldable pub gem_create : Bool → Option Errno → ℕ → Outcome Gem
gem_create allocated handle size =
    if allocated
    then elim handle [ some e ↦ fail e | none ↦ ok (created (roundup size)) ]
    else fail enomem

-- `struct drm_mode_create_dumb` afterwards, with the object of its handle.
pub record Dumb : Type 0 where
  pub pitch : ℕ
  pub size : ℕ
  pub object : Gem

abbrev with_object : ℕ → ℕ → Outcome Gem → Outcome Dumb
with_object pitch size (ok g) = ok (record { pitch = pitch; size = size; object = g })
with_object pitch size (fail e) = fail e

-- Pitch and height are `u32`, and so is their product.
unfoldable pub dumb_create : Bool → Option Errno → ℕ → ℕ → ℕ → Outcome Dumb
unfolding align_pitch gem_create
dumb_create allocated handle width height bpp =
    let pitch = align_pitch width (u32 (bpp + 7) / 8) in
    let size = u32 (pitch * height) in with_object pitch size (gem_create allocated handle size)
