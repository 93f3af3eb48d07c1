-- ===== src/Hal/Bringup.antt =====
-- A display from its first allocation to its last free, `usb_hal_init` and `usb_hal_destroy` of
-- usb_hal/usb_hal_interface.c. The thread is left out: that it is started, and how it is stopped.
pub mod Frees
pub mod Ends
pub mod Balance
use lenovo_magicbay_hud_linu.Base.{
  ℕ, ◌+◌, ◌-◌, Bool, true, false, List, [], ◌∷◌, Option, none, some, Outcome, ok, fail,
  if◌then◌else◌,
}
use lenovo_magicbay_hud_linu.Base.Int.{pos}
use lenovo_magicbay_hud_linu.Device.{Usb}
use lenovo_magicbay_hud_linu.Device.Ids.{HalId, find_dev}
use lenovo_magicbay_hud_linu.Hal.{Hal, unknown}
use lenovo_magicbay_hud_linu.Hal.Buffers.{
  Kernel, Heap, Buffers, Step, alloc, free, release, zeroed, alloc_buf, free_buf,
}
use lenovo_magicbay_hud_linu.Hal.Setup.{dev_hal_init}

-- What a display takes: memory, and references to the device that does its DMA.
pub record Resources : Type 0 where
  pub heap : Heap
  pub dma_refs : ℕ

-- `struct usb_hal` and `struct usb_hal_dev`, with the numbers of their allocations.
pub record Display : Type 0 where
  pub usb_hal : ℕ
  pub usb_dev : ℕ
  pub index : ℕ
  pub dma_dev : Bool
  pub hal : Hal
  pub buffers : Buffers

-- Zeroed by `kzalloc`, but for what `usb_hal_init` sets.
abbrev pub new_hal : Hal
new_hal = record {
  chip_id = 0;
  port_type = 0;
  sdram_type = 0;
  mode = record { width = 0; height = 0; rate = 0; vic = 0 };
  custom_mode = [];
  vpack_in = 0;
  vpack_out = 2;
  color_out = 0;
  trans_mode = 3;
  usb_buf = λ i. 0;
  usb_len = 0;
  desktop_len = 0;
  image = λ i. 0;
  desktop = λ i. 0;
  rect0 = record { left = 0; right = 0; top = 0; bottom = 0 };
  rect1 = record { left = 0; right = 0; top = 0; bottom = 0 };
  cursor = record {
    valid = false;
    buf = λ i. 0;
    x = pos 0;
    y = pos 0;
    x1 = 0;
    y1 = 0;
    x2 = 0;
    y2 = 0;
  };
  old_cursor = record { valid = false; buf = λ i. 0; x1 = 0; y1 = 0; x2 = 0; y2 = 0 };
  stat = record {
    send_total = 0;
    send_success = 0;
    update_event = 0;
    period_send = 0;
    state_error = 0;
    try_lock_fail = 0;
  };
  mouse_moving = false;
  update_time = 0;
  mouse_updatetime = 0;
  state = unknown;
  suspended = false;
  first_buf_send = 0;
  wait_send_cnt = 0;
  frame_index = 0;
}

abbrev pub Brought : Type 0
Brought = Option Display × Resources

-- The code after the label `err`.
abbrev pub init_err : Option ℕ → Option ℕ → Bool → Resources → Resources
init_err usb_hal usb_dev dma_dev w = record {
  heap = free usb_hal (free usb_dev w.heap);
  dma_refs = if dma_dev then w.dma_refs - 1 else w.dma_refs;
}

-- After `usb_dev_alloc_buf`.
abbrev pub with_buffers : ℕ → ℕ → ℕ → Bool → Hal → Resources → Step → Brought
with_buffers usb_hal usb_dev index dma_dev h w (ok t, b) = (
  some (record {
    usb_hal = usb_hal;
    usb_dev = usb_dev;
    index = index;
    dma_dev = dma_dev;
    hal = record h { usb_len = b.len; update_time = b.update_time };
    buffers = b;
  }),
  record w { heap = b.heap },
)
with_buffers usb_hal usb_dev index dma_dev h w (fail e, b) =
    (none, init_err (some usb_hal) (some usb_dev) dma_dev (record w { heap = b.heap }))

-- After `usb_dev_hal_init`.
abbrev pub with_hal : Kernel → ℕ → ℕ → ℕ → ℕ → Bool → Resources → Outcome Hal → Brought
with_hal k now usb_hal usb_dev index dma_dev w (ok h) =
    with_buffers usb_hal usb_dev index dma_dev h w (alloc_buf k now (zeroed w.heap))
with_hal k now usb_hal usb_dev index dma_dev w (fail e) =
    (none, init_err (some usb_hal) (some usb_dev) dma_dev w)

-- After `msdisp_hal_find_dev`; `dma_dev` is whether there is a device for the DMA.
abbrev pub after_find :
    Kernel → ℕ → ℕ → ℕ → ℕ → Bool → Resources → Usb → Option HalId → Brought × Usb
after_find k now usb_hal usb_dev index dma_dev w u none =
    ((none, init_err (some usb_hal) (some usb_dev) false w), u)
after_find k now usb_hal usb_dev index dma_dev w u (some dev) =
    let refs = if dma_dev then w.dma_refs + 1 else w.dma_refs in
    let (r, u') = dev_hal_init new_hal u in
    (with_hal k now usb_hal usb_dev index dma_dev (record w { dma_refs = refs }) r, u')

-- After the second `kzalloc`.
abbrev pub after_dev :
    Kernel → ℕ → HalId → ℕ → ℕ → Bool → Resources → Usb → Option ℕ → Brought × Usb
after_dev k now id usb_hal index dma_dev w u none =
    ((none, init_err (some usb_hal) none false w), u)
after_dev k now id usb_hal index dma_dev w u (some usb_dev) =
    after_find k now usb_hal usb_dev index dma_dev w u (find_dev id)

-- After the first `kzalloc`.
abbrev pub after_hal : Kernel → ℕ → HalId → ℕ → Bool → Resources → Usb → Option ℕ → Brought × Usb
after_hal k now id index dma_dev w u none = ((none, init_err none none false w), u)
after_hal k now id index dma_dev w u (some usb_hal) =
    let (usb_dev, h) = alloc k w.heap in
    after_dev k now id usb_hal index dma_dev (record w { heap = h }) u usb_dev

-- For the device `id`; `now` is the time, and the FIFO is there.
unfoldable pub hal_init : Kernel → ℕ → HalId → ℕ → Bool → Resources → Usb → Brought × Usb
unfolding alloc find_dev dev_hal_init alloc_buf
hal_init k now id index dma_dev w u =
    let (usb_hal, h) = alloc k w.heap in
    after_hal k now id index dma_dev (record w { heap = h }) u usb_hal

unfoldable pub hal_destroy : Display → Resources → Resources
unfolding free_buf release
hal_destroy d w =
    let b = free_buf (record d.buffers { heap = w.heap }) in
    record {
      heap = release d.usb_hal (release d.usb_dev b.heap);
      dma_refs = if d.dma_dev then w.dma_refs - 1 else w.dma_refs;
    }
