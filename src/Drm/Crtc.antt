-- ===== src/Drm/Crtc.antt =====
-- Switching a pipeline on and off and its vertical blanks, drm/msdisp_drm_modeset.c and
-- drm/msdisp_drm_drv.c. The state of the kernel's CRTC is an input of each call.
pub mod Kept
pub mod Events
pub mod Attach
use lenovo_magicbay_hud_linu.Base.{
  ℕ, suc, ◌+◌, ◌*◌, ◌/◌, ◌%◌, ◌^◌, Bool, true, false, List, [], ◌∷◌, Option, none, some, ◌==◌, ◌&&◌,
  ◌||◌, not, ltb, Outcome, ok, fail, einval, if◌then◌else◌,
}
use lenovo_magicbay_hud_linu.Drm.{Pipeline, EnableCall}

-- The pipeline with what the kernel keeps for its CRTC: the event of the commit that is under way,
-- whether vertical blanks are on, the period of the timer while it runs, and the events that were
-- sent, latest first.
pub record Crtc : Type 0 where
  pub pipeline : Pipeline
  pub event : Option ℕ
  pub state_event : Option ℕ
  pub vblank_on : Bool
  pub vblank_timer : Option ℕ
  pub vblank_count : ℕ
  pub sent : List ℕ

-- The loop of `get_pipeline_by_crtc` and `get_pipeline_by_plane`, over the pipelines' own from `i`.
unfoldable pipeline_by : List ℕ → ℕ → ℕ → Option ℕ
pipeline_by [] x i = none
pipeline_by (y ∷ ys) x i = if y == x then some i else pipeline_by ys x (i + 1)

-- The event waits for the next vertical blank.
unfoldable pub update_event : Crtc → Crtc
update_event c = elim c.state_event [
  | none ↦ c
  | some e ↦ record c { event = some e; state_event = none }
]

unfoldable pub atomic_flush : Bool → Bool → Crtc → Crtc
unfolding update_event
atomic_flush active was_active c = if active && was_active then update_event c else c

-- `no_vblank` and the code, which is that of `drm_atomic_add_affected_planes` in the end.
unfoldable atomic_check : Bool → Bool → Bool → Outcome (Unit {0}) → Bool × Outcome (Unit {0})
atomic_check has_primary enable active affected =
    let same = (has_primary && enable) || (not has_primary && not enable) in
    (not active, if same then affected else fail einval)

unfoldable pub handle_page_flip : Crtc → Crtc
handle_page_flip c = elim c.event [
  | none ↦ c
  | some e ↦ record c { event = none; sent = e ∷ c.sent }
]

-- `msdisp_drm_vblank_timer_func`, which restarts the timer.
unfoldable pub vblank_timer_func : Crtc → Crtc
unfolding handle_page_flip
vblank_timer_func c = handle_page_flip (record c { vblank_count = (c.vblank_count + 1) % 2 ^ 64 })

abbrev nsec_per_sec : ℕ
nsec_per_sec = 1000000000

abbrev default_refresh_hz : ℕ
default_refresh_hz = 60

abbrev or_default : ℕ → ℕ
or_default rate = if rate == 0 then default_refresh_hz else rate

unfoldable pub vblank_start : ℕ → Crtc → Crtc
vblank_start refresh_rate c = record c {
  vblank_timer = some (nsec_per_sec / or_default refresh_rate);
}

unfoldable pub vblank_stop : Crtc → Crtc
unfolding handle_page_flip
vblank_stop c = handle_page_flip (record c { vblank_timer = none })

-- A mode, with its `drm_mode_vrefresh`.
pub record DisplayMode : Type 0 where
  pub hdisplay : ℕ
  pub vdisplay : ℕ
  pub vrefresh : ℕ

abbrev pub shown : DisplayMode → ℕ → Pipeline → Pipeline
shown m format p = record p {
  is_on = true;
  drm_width = m.hdisplay;
  drm_height = m.vdisplay;
  drm_rate = or_default m.vrefresh;
  drm_fb_format = format;
}

abbrev pub calls_of : Option ℕ → DisplayMode → ℕ → List EnableCall
calls_of none m format = []
calls_of (some u) m format =
    record {
      usb_hal = u;
      width = m.hdisplay;
      height = m.vdisplay;
      rate = or_default m.vrefresh;
      format = format;
    }
    ∷ []

-- The code of the display's `enable` is not looked at.
unfoldable pub atomic_enable : DisplayMode → ℕ → Crtc → Crtc × List EnableCall
unfolding update_event vblank_start
atomic_enable m format c =
    let c1 = update_event (record c { vblank_on = true }) in
    let c2 : Crtc = record c1 { pipeline = shown m format c1.pipeline } in
    (vblank_start (or_default m.vrefresh) c2, calls_of c2.pipeline.usb_hal m format)

abbrev pub send_state_event : Crtc → Crtc
send_state_event c = elim c.state_event [
  | none ↦ c
  | some e ↦ record c { state_event = none; sent = e ∷ c.sent }
]

-- With the displays whose `disable` is called.
unfoldable pub atomic_disable : Crtc → Crtc × List ℕ
unfolding vblank_stop
atomic_disable c =
    let c1 = vblank_stop c in
    let c2 = send_state_event (record c1 { vblank_on = false }) in
    let c3 : Crtc = record c2 { pipeline = record c2.pipeline { is_on = false } } in
    (c3, elim c3.pipeline.usb_hal [ none ↦ [] | some u ↦ u ∷ [] ])

-- A call of the display's `cursor_set`: with NULL, or with the object that is mapped.
pub data PointerCall : Type 0 where
  hide : PointerCall
  show : PointerCall

-- `usb_hal` is none without a pipeline or a display; `object` is the size of the object of the
-- handle.
unfoldable crtc_cursor_set : Option ℕ → ℕ → ℕ → ℕ → Option ℕ → Outcome (Unit {0}) × List PointerCall
crtc_cursor_set none handle width height object = (ok tt, [])
crtc_cursor_set (some u) handle width height object =
    if handle == 0
    then (ok tt, hide ∷ [])
    else if not (width == 64) || not (height == 64)
    then (fail einval, [])
    else elim object [
      | none ↦ (ok tt, [])
      | some size ↦
          if size == 0 || ltb size (width * height * 4) then (ok tt, []) else (ok tt, show ∷ [])
    ]
