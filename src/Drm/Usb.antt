-- ===== src/Drm/Usb.antt =====
-- The USB driver, drm/msdisp_usb_drv.c: the custom modes of its parameter, and what it does when a
-- display is plugged in and when it is taken away.
pub mod Parser
pub mod Cards
pub mod Probe
pub mod Runs
use lenovo_magicbay_hud_linu.Base.{
  ℕ, ◌+◌, ◌-◌, ◌*◌, ◌^◌, Bool, true, false, not, ◌&&◌, ◌||◌, List, [], ◌∷◌, ◌++◌, Option, none,
  some, length, get_elem?, set, leb, ◌==◌, u8, u16, Errno, einval, enomem, enoent, enodev, fault,
  Outcome, ok, fail, if◌then◌else◌,
}
use lenovo_magicbay_hud_linu.Device.{Usb, M, pure, ignore, ◌>>=◌, ◌>>◌}
use lenovo_magicbay_hud_linu.Device.Ids.{HalId, find_usb_hal}
use lenovo_magicbay_hud_linu.Hal.{Hal}
use lenovo_magicbay_hud_linu.Hal.Modes.{add_custom_mode}
use lenovo_magicbay_hud_linu.Hal.Setup.{init_gpio, resume_gpio, read_custom_timing}
use lenovo_magicbay_hud_linu.Hal.Buffers.{Kernel}
use lenovo_magicbay_hud_linu.Hal.Bringup.{Resources, Display, Brought, hal_init, hal_destroy}
use lenovo_magicbay_hud_linu.Drm.{
  Card, EnableCall, max_pipeline_cnt, get_free_device, get_free_pipeline_index, card_index,
  get_pipeline_global_id, register_usb_hal, unregister_usb_hal,
}

-- `struct custom_mode_stru`
pub record CustomMode : Type 0 where
  pub width : ℕ
  pub height : ℕ
  pub rate : ℕ
  pub vic : ℕ

-- `MAX_CUSTOM_MODE_CNT`
abbrev pub max_custom_mode_cnt : ℕ
max_custom_mode_cnt = 16

abbrev pub before : ℕ → List (List ℕ) → List (List ℕ)
before c [] = (c ∷ []) ∷ []
before c (w ∷ ws) = (c ∷ w) ∷ ws

-- `strsep(&start, ",")` until there is nothing more: the parts between the commas.
unfoldable pub split : List ℕ → List (List ℕ)
split [] = [] ∷ []
split (c ∷ cs) = let rest = split cs in if c == 44 then [] ∷ rest else before c rest

-- The words that `sscanf` sets, 0 if it does not get so far; an `int` each.
pub record Scanned : Type 0 where
  pub width : ℕ
  pub height : ℕ
  pub rate : ℕ
  pub vic : ℕ

abbrev pub is_complete : Scanned → Bool
is_complete s = not (s.width == 0) && not (s.height == 0) && not (s.rate == 0) && not (s.vic == 0)

abbrev pub cut : Scanned → CustomMode
cut s = record { width = u16 s.width; height = u16 s.height; rate = u8 s.rate; vic = u8 s.vic }

-- `mode_arr` with `custom_mode_cnt`; `fail fault` is a write past its end.
abbrev pub store : Scanned → List CustomMode → Outcome (List CustomMode)
store s modes =
    if is_complete s
    then (if leb max_custom_mode_cnt (length modes) then fail fault else ok (modes ++ (cut s ∷ [])))
    else ok modes

-- `scan` is `sscanf` with the format "%d_%dx%d@%d".
unfoldable pub parse_loop :
    (List ℕ → Scanned) → List (List ℕ) → List CustomMode → Outcome (List CustomMode)
parse_loop scan [] modes = ok modes
parse_loop scan (part ∷ parts) modes = elim (store (scan part) modes) [
  | ok ms ↦ parse_loop scan parts ms
  | fail e ↦ fail e
]

-- `granted`: whether there is memory for the copy of the parameter.
unfoldable pub parser_custom_mode :
    (List ℕ → Scanned) → Bool → Option (List ℕ) → Outcome (List CustomMode)
unfolding parse_loop split
parser_custom_mode scan granted none = ok []
parser_custom_mode scan granted (some s) = if granted then parse_loop scan (split s) [] else ok []

-- The loop of `msdisp_usb_add_custom_mode`; a code is only logged.
unfoldable add_modes : List CustomMode → Hal → Hal
unfolding add_custom_mode
add_modes [] h = h
add_modes (m ∷ ms) h = add_modes ms (add_custom_mode m.width m.height m.rate m.vic h).1

-- How the calls of a probe end: whether there is memory for `usb_dev` and `usb_hal`, what memory
-- `usb_hal_init` gets and when, whether there is a device for the DMA, and what is in the variables
-- that a failed transfer leaves alone.
pub record Surroundings : Type 0 where
  pub usb_dev : Bool
  pub usb_hal : Bool
  pub kernel : Kernel
  pub now : ℕ
  pub dma_dev : Bool
  pub chip : ℕ
  pub value : ℕ
  pub stale : ℕ → List ℕ

unfoldable pub usb_add_custom_mode : Surroundings → List CustomMode → Hal → M Hal
unfolding init_gpio resume_gpio read_custom_timing add_modes
usb_add_custom_mode s modes h = do
  ignore (init_gpio s.chip s.value)
  timed ← read_custom_timing s.stale h
  ignore (resume_gpio s.chip s.value)
  pure (add_modes modes timed.0)

-- The cards, by the number of their platform device, the modes of the parameter, and what the
-- displays have taken.
pub record Driver : Type 0 where
  pub modes : List CustomMode
  pub cards : List (Option Card)
  pub resources : Resources

-- `struct msdisp_usb_device`: the display and its pipeline; a card is named by its address.
pub record Attached : Type 0 where
  pub usb_hal : ℕ
  pub drm : ℕ
  pub pipeline_index : ℕ
  pub display : Display

-- The code or the display, the driver afterwards, and the calls of `enable`.
abbrev pub Probed : Type 0
Probed = Outcome Attached × Driver × List EnableCall

abbrev pub refuse : Errno → Driver → Usb → Probed × Usb
refuse e d u = ((fail e, d, []), u)

-- The card in its place.
unfoldable pub put_card : List (Option Card) → Card → List (Option Card)
put_card cards c = elim (card_index cards c.address 0) [
  | none ↦ cards
  | some i ↦ set cards i (some c)
]

-- After `msdisp_drm_register_usb_hal`.
abbrev pub registered : Attached → Driver → Outcome (Unit {0}) × Card × List EnableCall → Probed
registered a d (ok t, c, calls) = (ok a, record d { cards = put_card d.cards c }, calls)
registered a d (fail e, c, calls) =
    (fail einval, record d { resources = hal_destroy a.display d.resources }, [])

abbrev pub hal_or : Hal → Outcome Hal → Hal
hal_or h (ok h') = h'
hal_or h (fail e) = h

-- After `usb_hal_init`.
abbrev pub with_display : Surroundings → ℕ → Driver → Card → ℕ → Brought × Usb → Probed × Usb
with_display s usb_hal d c i ((none, w), u) = refuse enodev (record d { resources = w }) u
with_display s usb_hal d c i ((some p, w), u) =
    let (r, u') = usb_add_custom_mode s d.modes p.hal u in
    let a : Attached = record {
      usb_hal = usb_hal;
      drm = c.address;
      pipeline_index = i;
      display = record p { hal = hal_or p.hal r };
    } in
    (registered a (record d { resources = w }) (register_usb_hal i usb_hal c), u')

-- The identifier as the `u32` that `usb_hal_init` takes.
abbrev id_or : Option ℕ → ℕ
id_or none = 2 ^ 32 - 1
id_or (some n) = n

-- After `msdisp_drm_get_free_pipeline_index`; there is no FIFO past the last pipeline.
abbrev pub with_index : Surroundings → HalId → ℕ → Driver → Usb → Card → Option ℕ → Probed × Usb
with_index s id usb_hal d u c none = refuse enodev d u
with_index s id usb_hal d u c (some i) =
    if leb max_pipeline_cnt i
    then refuse enodev d u
    else with_display s usb_hal d c i (
        hal_init s.kernel s.now id (id_or (get_pipeline_global_id d.cards c.address i)) s.dma_dev
          d.resources u)

-- After `msdisp_drm_get_free_device`.
abbrev pub with_card : Surroundings → HalId → ℕ → Driver → Usb → Option Card → Probed × Usb
with_card s id usb_hal d u none = refuse enodev d u
with_card s id usb_hal d u (some c) = with_index s id usb_hal d u c (get_free_pipeline_index c)

-- Once the parameter is parsed; `usb_hal` is the number that the display gets.
unfoldable pub probe : Surroundings → HalId → ℕ → Driver → Usb → Probed × Usb
unfolding find_usb_hal get_free_device get_free_pipeline_index get_pipeline_global_id hal_init
    usb_add_custom_mode register_usb_hal put_card hal_destroy
probe s id usb_hal d u =
    if not s.usb_dev || not s.usb_hal
    then refuse enomem d u
    else if find_usb_hal id
    then with_card s id usb_hal d u (get_free_device d.cards)
    else refuse enoent d u

-- The card that stands at an address.
unfoldable pub card_at : List (Option Card) → ℕ → Option Card
card_at cards address = elim (card_index cards address 0) [
  | none ↦ none
  | some i ↦ elim (get_elem? cards i) [ none ↦ none | some c ↦ c ]
]

-- By the card, which must still be there.
abbrev pub leave_card : Attached → Driver → Option Card → Outcome Driver
leave_card a d none = fail fault
leave_card a d (some c) =
    let c' = (unregister_usb_hal a.pipeline_index c).1 in
    ok (record d { cards = put_card d.cards c'; resources = hal_destroy a.display d.resources })

unfoldable pub disconnect : Attached → Driver → Outcome Driver
unfolding card_at unregister_usb_hal put_card hal_destroy
disconnect a d = leave_card a d (card_at d.cards a.drm)
