-- ===== src/Drm/Fb.antt =====
-- The frame buffers of a card, drm/msdisp_drm_fb.c: which objects one can be made of.
pub mod Sizes
use lenovo_magicbay_hud_linu.Base.{
  ℕ, ◌+◌, ◌-◌, ◌*◌, ◌/◌, Bool, true, false, Option, none, some, ◌==◌, ltb, u32, Errno, einval,
  enomem, enoent, Outcome, ok, fail, if◌then◌else◌,
}
use lenovo_magicbay_hud_linu.Drm.Gem.{Gem}
use lenovo_magicbay_hud_linu.Drm.Gem.Dumb.{page_size}

-- `struct drm_mode_fb_cmd2`, with the bits of a pixel of its format, 0 for an unknown one.
pub record FbCmd : Type 0 where
  pub bpp : ℕ
  pub width : ℕ
  pub height : ℕ
  pub pitch : ℕ
  pub offset : ℕ
  pub format : ℕ

-- `struct msdisp_drm_framebuffer`
pub record Fb : Type 0 where
  pub width : ℕ
  pub height : ℕ
  pub pitch : ℕ
  pub format : ℕ
  pub object : Gem

-- The bytes a frame buffer needs, in whole pages, all in a `uint32_t`.
unfoldable pub fb_size : FbCmd → ℕ
fb_size c = u32 (u32 (c.offset + c.pitch * c.height) + (page_size - 1)) / page_size * page_size

-- How many references to the object are kept.
abbrev pub Created : Type 0
Created = Outcome Fb × ℕ

-- `object` is what the handle stands for; `allocated`: whether there is memory; `init`: the code
-- of `drm_framebuffer_init`.
unfoldable pub fb_create : Option Gem → Bool → Option Errno → FbCmd → Created
unfolding fb_size
fb_create object allocated init c =
    if c.bpp == 32
    then elim object [
      | none ↦ (fail enoent, 0)
      | some g ↦
          if ltb g.size (fb_size c)
          then (fail enomem, 0)
          else if allocated
          then elim init [
            | some e ↦ (fail einval, 0)
            | none ↦ (
              ok (record {
                width = c.width;
                height = c.height;
                pitch = c.pitch;
                format = c.format;
                object = g;
              }),
              1,
            )
          ]
          else (fail enomem, 0)
    ]
    else (fail einval, 0)
