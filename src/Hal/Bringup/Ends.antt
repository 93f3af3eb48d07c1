-- ===== src/Hal/Bringup/Ends.antt =====
-- How `usb_hal_init` may end, and what it has taken on its way.
use lenovo_magicbay_hud_linu.Base.{
  ℕ, ◌+◌, ◌-◌, ◌≡◌, ◌⊎◌, ap, refl, Bool, true, false, Bool-cases, ◌∷◌, none, some, inl, inr, arith,
  Errno, fail, if◌then◌else◌,
}
use lenovo_magicbay_hud_linu.Device.{Usb}
use lenovo_magicbay_hud_linu.Device.Ids.{HalId, find_dev}
use lenovo_magicbay_hud_linu.Hal.Setup.{dev_hal_init}
use lenovo_magicbay_hud_linu.Hal.Buffers.{Kernel, Heap, Buffers, alloc, zeroed, vmalloc_image}
use lenovo_magicbay_hud_linu.Hal.Buffers.Images.{vmalloc_image_all_or_none}
use lenovo_magicbay_hud_linu.Hal.Buffers.Lifetime.{restored}
use lenovo_magicbay_hud_linu.Hal.Buffers.Blocks.{Refuses}
use lenovo_magicbay_hud_linu.Hal.Bringup.Frees.{two, under}
use lenovo_magicbay_hud_linu.Hal.Bringup.{Resources, Display, Brought, new_hal, hal_destroy}

-- The resources as they were, but for the number of requests.
abbrev pub back : Resources → ℕ → Resources
back w m = record w { heap = restored w.heap m }

-- The buffers of the pictures, the first of them with the number `n`, are allocated beside.
abbrev pub with_pictures : Resources → ℕ → ℕ → Resources
with_pictures w m n = record w {
  heap = record w.heap {
    requests = m;
    live = (n + 1 + 1 + 1) ∷ (n + 1 + 1) ∷ (n + 1) ∷ n ∷ w.heap.live;
  };
}

-- Why a display does not come up: a request is refused, the device is unknown, or the chip fails.
abbrev pub Cause : Kernel → HalId → Usb → Type 0
Cause k id u =
    Refuses k ⊎ ((find_dev id ≡ none) ⊎ ((e : Errno) × ((dev_hal_init new_hal u).0 ≡ fail e)))

-- How `usb_hal_init` may end.
pub data Balanced (k : Kernel) (id : HalId) (u : Usb) (w : Resources) : Brought → Type 0 where
  up :
      (d : Display) (w' : Resources) (m : ℕ)
      → hal_destroy d w' ≡ back w m
      → Balanced k id u w (some d, w')
  down : (m : ℕ) → Cause k id u → Balanced k id u w (none, back w m)
  leaking : (m n : ℕ) → Refuses k → Balanced k id u w (none, with_pictures w m n)

-- The resources once both structures are there.
abbrev refs_with : Bool → ℕ → ℕ
refs_with dma_dev n = if dma_dev then n + 1 else n

abbrev pub given : Resources → Bool → Resources
given w dma_dev = record {
  heap = two w.heap (w.heap.requests + 1 + 1);
  dma_refs = refs_with dma_dev w.dma_refs;
}

pub refs-back :
    (dma_dev : Bool) (n : ℕ)
    → (if dma_dev then refs_with dma_dev n - 1 else refs_with dma_dev n) ≡ n
refs-back true n = omega arith
refs-back false n = refl

-- The buffers of the pictures are not there, or are what was allocated last.
abbrev pub HasPictures : Heap → Buffers → Type 0
HasPictures h image = (image.heap.live ≡ h.live) ⊎ (image.heap.live ≡ under h.requests h.live)

pub pictures-HasPictures :
    (k : Kernel) (now : ℕ) (h : Heap) → HasPictures h (vmalloc_image k now (zeroed h)).1
pictures-HasPictures k now h = elim (vmalloc_image_all_or_none k now h) [
  | inl e ↦ inr (ap (λ s. s.1.heap.live) e)
  | inr (m, e) ↦ inl (ap (λ s. s.1.heap.live) e)
]

-- A request adds itself to what is allocated, if it is granted.
pub alloc-cases :
    (k : Kernel) (h : Heap)
    → (alloc k h
        ≡ (some h.requests, record h { requests = h.requests + 1; live = h.requests ∷ h.live }))
      ⊎ ((alloc k h ≡ (none, record h { requests = h.requests + 1 })) × Refuses k)
unfolding alloc
alloc-cases k h = elim (Bool-cases (k.grants h.requests)) [
  | inl e ↦ inl (rw (alloc, e) refl)
  | inr e ↦ inr (rw (alloc, e) refl, (h.requests, e))
]

-- The heap with the `struct usb_hal`.
abbrev pub one : Heap → Heap
one h = record h { requests = h.requests + 1; live = h.requests ∷ h.live }
