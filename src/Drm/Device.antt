-- ===== src/Drm/Device.antt =====
-- Making and removing the card of a platform device, drm/msdisp_drm_drv.c and
-- drm/msdisp_plat_dev.c: the FIFOs of its pipelines, and what becomes of them when a step fails.
pub mod Leftover
use lenovo_magicbay_hud_linu.Base.{
  ℕ, zero, suc, ◌+◌, ◌-◌, Bool, true, false, List, [], ◌∷◌, Option, none, some, ltb, leb, Errno,
  enomem, fault, Outcome, ok, fail, if◌then◌else◌,
}
use lenovo_magicbay_hud_linu.Drm.{max_pipeline_cnt}

-- How the steps end: whether there is memory for the card, whether `kfifo_alloc` succeeds for the
-- `i`-th pipeline, and the codes of `msdisp_drm_init` and `drm_dev_register`.
pub record Making : Type 0 where
  pub card : Bool
  pub fifo : ℕ → Bool
  pub init : Option Errno
  pub register : Option Errno

-- The pipelines whose FIFO is allocated, latest first, and `alloc_fifo_cnt`.
pub record Fifos : Type 0 where
  pub live : List ℕ
  pub alloc_fifo_cnt : ℕ

-- The loop that allocates, for the `n` pipelines from `i`.
unfoldable pub alloc_fifos : ℕ → ℕ → (ℕ → Bool) → Fifos → Outcome (Unit {0}) × Fifos
alloc_fifos zero i fifo f = (ok tt, f)
alloc_fifos (suc n) i fifo f =
    let rest = alloc_fifos n (i + 1) fifo (record { live = i ∷ f.live; alloc_fifo_cnt = i }) in
    if fifo i then rest else (fail enomem, f)

-- `kfifo_free` for the pipelines below `n`.
unfoldable pub free_fifos : ℕ → List ℕ → List ℕ
free_fifos n [] = []
free_fifos n (i ∷ is) = let rest = free_fifos n is in if ltb i n then rest else i ∷ rest

-- What `msdisp_drm_device_create` returns.
pub data Created : Type 0 where
  null_pointer : Created
  error_pointer : Errno → Created
  made : Created

-- After the label `err_free`.
abbrev pub err_free : Errno → Fifos → Created × List ℕ
err_free e f = (error_pointer e, free_fifos f.alloc_fifo_cnt f.live)

abbrev pub after_register : Option Errno → Fifos → Created × List ℕ
after_register none f = (made, f.live)
after_register (some e) f = err_free e f

abbrev pub after_init : Making → Option Errno → Fifos → Created × List ℕ
after_init m none f = after_register m.register f
after_init m (some e) f = err_free e f

abbrev pub after_fifos : Making → Outcome (Unit {0}) × Fifos → Created × List ℕ
after_fifos m (ok t, f) = after_init m m.init f
after_fifos m (fail e, f) = err_free e f

-- With the FIFOs that are allocated afterwards; `count` is `initial_pipeline_count`. The kernel
-- gives an error pointer if there is no memory, which is not NULL and is written through.
unfoldable pub device_create : Making → ℕ → Outcome (Created × List ℕ)
unfolding alloc_fifos free_fifos
device_create m count =
    if ltb max_pipeline_cnt count
    then ok (null_pointer, [])
    else if m.card
    then ok (after_fifos m (alloc_fifos count 0 m.fifo (record { live = []; alloc_fifo_cnt = 0 })))
    else fail fault

-- The code, and whether the card is the data of the platform device.
unfoldable pub device_probe : Created → Outcome (Unit {0}) × Bool
device_probe null_pointer = (ok tt, false)
device_probe (error_pointer e) = (fail e, false)
device_probe made = (ok tt, true)

-- Without a card `msdisp_drm_device_remove` reads through NULL.
unfoldable pub device_remove : Bool → ℕ → List ℕ → Outcome (Unit {0}) × List ℕ
unfolding free_fifos
device_remove false count live = (fail fault, live)
device_remove true count live = (ok tt, free_fifos count live)
