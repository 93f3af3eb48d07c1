-- ===== src/Tests/Buffers.antt =====
-- Bringing a display up at concrete inputs.
use lenovo_magicbay_hud_linu.Base.{[], einval, leb, true}
use lenovo_magicbay_hud_linu.Hal.Buffers.{Kernel, Heap}
use lenovo_magicbay_hud_linu.Device.{Usb, stalled}
use lenovo_magicbay_hud_linu.Device.Ids.{lenovo_hud_id}
use lenovo_magicbay_hud_linu.Hal.Bringup.{Resources, hal_init}
use lenovo_magicbay_hud_linu.Hal.Bringup.Ends.{Balanced}
use lenovo_magicbay_hud_linu.Hal.Bringup.Balance.{hal_init-Balanced}

-- Six requests are granted: the pictures' buffers and, of the other three, two.
abbrev scarce : Kernel
scarce = record { grants = λ n. leb n 5; sg_error = einval }

abbrev fresh : Heap
fresh = record { requests = 0; live = []; bad_frees = 0 }

-- A bus on which every transfer fails, so that the chip does not say what it is.
abbrev dead_bus : Usb
dead_bus = record { reply = λ n sent request. stalled; calls = 0; sent = [] }

abbrev nothing_taken : Resources
nothing_taken = record { heap = fresh; dma_refs = 0 }

hal_init-Balanced_example :
    Balanced scarce lenovo_hud_id dead_bus nothing_taken
      (hal_init scarce 7 lenovo_hud_id 0 true nothing_taken dead_bus).0
hal_init-Balanced_example = hal_init-Balanced scarce 7 lenovo_hud_id 0 true nothing_taken dead_bus
