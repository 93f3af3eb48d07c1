-- ===== src/Tests/Plugging.antt =====
-- Displays that are plugged in, and the parameter with their modes, at concrete inputs.
use mathlib.Core.Path.{subst}
use lenovo_magicbay_hud_linu.Base.{
  ◌≤◌, ℕ, zero, suc, ◌≡◌, refl, sym, true, List, [], ◌∷◌, map, length, get_elem?, Option, none,
  some, arith, einval,
}
use lenovo_magicbay_hud_linu.Device.{Usb, answer}
use lenovo_magicbay_hud_linu.Device.Ids.{lenovo_hud_id}
use lenovo_magicbay_hud_linu.Drm.{Pipeline, Card, card_index, max_pipeline_cnt}
use lenovo_magicbay_hud_linu.Drm.Usb.{
  Surroundings, Driver, Scanned, probe, split, parser_custom_mode,
}
use lenovo_magicbay_hud_linu.Drm.Usb.Parser.{Kept, wanted, parser_custom_mode-Kept}
use lenovo_magicbay_hud_linu.Drm.Usb.Cards.{IsAt}
use lenovo_magicbay_hud_linu.Drm.Usb.Probe.{IsReady, Ended}
use lenovo_magicbay_hud_linu.Drm.Usb.Runs.{Run, Step, probe-Run}
use lenovo_magicbay_hud_linu.Tests.Pipelines.{off_pipeline, two_pipelines}

-- A scanner that reads the mode 1280x720 from everything but the empty text.
scan_720 : List ℕ → Scanned
scan_720 [] = record { width = 0; height = 0; rate = 0; vic = 0 }
scan_720 (c ∷ cs) = record { width = 1280; height = 720; rate = 60; vic = 4 }

-- "4,"
abbrev two_parts : List ℕ
two_parts = 52 ∷ 44 ∷ []

parser_custom_mode-Kept_example :
    let modes = wanted (map scan_720 (split two_parts)) in
    Kept (length modes) modes (parser_custom_mode scan_720 true (some two_parts))
parser_custom_mode-Kept_example = parser_custom_mode-Kept scan_720 two_parts

abbrev one_card : List (Option Card)
one_card = some two_pipelines ∷ []

at_0 : (i : ℕ) (c : Card) → get_elem? one_card i ≡ some (some c) → (i ≡ 0) × (two_pipelines ≡ c)
at_0 zero c e = (refl, cc)
at_0 (suc i) c e = cc

is_off : (j : ℕ) (p : Pipeline) → get_elem? two_pipelines.pipeline j ≡ some p → off_pipeline ≡ p
is_off zero p e = cc
is_off (suc zero) p e = cc
is_off (suc (suc zero)) p e = cc
is_off (suc (suc (suc j))) p e = cc

one_card-IsReady : IsReady one_card
unfolding card_index
one_card-IsReady = record {
  own = λ i c e.
      let (z, q) = at_0 i c e in
      subst (λ n. IsAt one_card n c) (sym z) (subst (IsAt one_card 0) q (refl, refl));
  few = λ i c e.
      let (z, q) = at_0 i c e in subst (λ x. x.pipeline_cnt ≤ max_pipeline_cnt) q (omega arith);
  unused = λ i j c p e g f.
      let (z, q) = at_0 i c e in
      subst (λ x. x.usb_hal ≡ none)
        (is_off j p (subst (λ x. get_elem? x.pipeline j ≡ some p) (sym q) g)) refl;
}

-- There is memory, and the bus answers every transfer with zeroes.
abbrev plenty : Surroundings
plenty = record {
  usb_dev = true;
  usb_hal = true;
  kernel = record { grants = λ n. true; sg_error = einval };
  now = 7;
  dma_dev = true;
  chip = 0;
  value = 0;
  stale = λ i. [];
}

abbrev zero_bus : Usb
zero_bus = record {
  reply = λ n sent request. answer (0 ∷ 0 ∷ 0 ∷ 0 ∷ 0 ∷ 0 ∷ 0 ∷ 0 ∷ []);
  calls = 0;
  sent = [];
}

abbrev idle_driver : Driver
idle_driver = record {
  modes = [];
  cards = one_card;
  resources = record { heap = record { requests = 0; live = []; bad_frees = 0 }; dma_refs = 0 };
}

-- After one display was plugged in.
abbrev one_plugged : Driver
one_plugged = (probe plenty lenovo_hud_id 7 idle_driver zero_bus).0.1

probe-Run_example :
    Ended plenty lenovo_hud_id 8 one_plugged zero_bus
      (probe plenty lenovo_hud_id 8 one_plugged zero_bus).0
probe-Run_example =
    probe-Run plenty lenovo_hud_id 8 idle_driver one_plugged zero_bus one_card-IsReady
      (Run.later Run.start (Step.plug plenty lenovo_hud_id 7 idle_driver zero_bus))
