-- ===== src/Drm/Cea/Row.antt =====
-- A row of the tables of drm/msdisp_drm_mode.c.
use lenovo_magicbay_hud_linu.Base.{ℕ, List}

pub data Flag : Type 0 where
  phsync nhsync pvsync nvsync interlace dblclk : Flag

pub data AspectRatio : Type 0 where
  ratio_4_3 ratio_16_9 ratio_64_27 ratio_256_135 : AspectRatio

-- `DRM_MODE`, whose `hskew` and `vscan` are 0 in every row, with the aspect ratio.
pub record CeaMode : Type 0 where
  pub clock : ℕ
  pub hdisplay : ℕ
  pub hsync_start : ℕ
  pub hsync_end : ℕ
  pub htotal : ℕ
  pub vdisplay : ℕ
  pub vsync_start : ℕ
  pub vsync_end : ℕ
  pub vtotal : ℕ
  pub flags : List Flag
  pub picture_aspect_ratio : AspectRatio

abbrev pub cea : ℕ → ℕ → ℕ → ℕ → ℕ → ℕ → ℕ → ℕ → ℕ → List Flag → AspectRatio → CeaMode
cea clock hd hs he ht vd vs ve vt flags ratio = record {
  clock = clock;
  hdisplay = hd;
  hsync_start = hs;
  hsync_end = he;
  htotal = ht;
  vdisplay = vd;
  vsync_start = vs;
  vsync_end = ve;
  vtotal = vt;
  flags = flags;
  picture_aspect_ratio = ratio;
}
