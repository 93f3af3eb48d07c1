-- ===== src/Hal/Bringup/Balance.antt =====
-- Whether `usb_hal_init` and `usb_hal_destroy` give back what they take.
use mathlib.Core.Path.{subst}
use lenovo_magicbay_hud_linu.Base.{
  ℕ, ◌+◌, ◌≡◌, ◌∙◌, sym, ap, ap₂, refl, Bool, false, List, Option, none, some, inl, inr, arith,
  Errno, Outcome, ok, fail,
}
use lenovo_magicbay_hud_linu.Device.{Usb}
use lenovo_magicbay_hud_linu.Device.Ids.{HalId, find_dev}
use lenovo_magicbay_hud_linu.Hal.{Hal}
use lenovo_magicbay_hud_linu.Hal.Setup.{dev_hal_init}
use lenovo_magicbay_hud_linu.Hal.Buffers.{
  Kernel, Heap, Buffers, Step, release, zeroed, alloc_buf, free_buf, vmalloc_image,
}
use lenovo_magicbay_hud_linu.Hal.Buffers.Frees.{release-1}
use lenovo_magicbay_hud_linu.Hal.Buffers.Lifetime.{IsAccounted, alloc_buf-IsAccounted, restored}
use lenovo_magicbay_hud_linu.Hal.Buffers.Blocks.{Refuses}
use lenovo_magicbay_hud_linu.Hal.Bringup.Frees.{two, releases-two, releases-under}
use lenovo_magicbay_hud_linu.Hal.Bringup.{
  Resources, Brought, new_hal, init_err, with_buffers, with_hal, after_find, after_dev, after_hal,
  hal_init, hal_destroy,
}
use lenovo_magicbay_hud_linu.Hal.Bringup.Ends.{
  Balanced, given, refs-back, HasPictures, pictures-HasPictures, alloc-cases, one, up, down,
  leaking,
}

-- From the resources `w`.
module _ (k : Kernel) (id : HalId) (u : Usb) (w : Resources) where
  made-Balanced :
      (index : ℕ) (dma_dev : Bool) (h : Hal) (b : Buffers) (m : ℕ)
      → (free_buf b).heap ≡ restored (given w dma_dev).heap m
      → Balanced k id u w (
          with_buffers w.heap.requests
            (w.heap.requests + 1)
            index
            dma_dev
            h
            (given w dma_dev)
            (ok tt, b))
  unfolding hal_destroy
  made-Balanced index dma_dev h b m e =
      let n = w.heap.requests in
      up _ _ m (
        ap₂ (λ x r. record { heap = x; dma_refs = r })
          (ap (λ x. release n (release (n + 1) x)) e ∙ releases-two w.heap m)
          (refs-back dma_dev w.dma_refs))

  -- What is left after the label `err`, by what the heap holds before.
  err_with :
      (dma_dev : Bool) (b g : Heap) (live : List ℕ)
      → b ≡ record w.heap { requests = b.requests; live = live }
      → release w.heap.requests
          (release (w.heap.requests + 1) (record w.heap { requests = b.requests; live = live }))
        ≡ g
      → Balanced k id u w (none, record w { heap = g })
      → Balanced k id u w (
        none,
        init_err
            (some w.heap.requests)
            (some (w.heap.requests + 1))
            dma_dev
            (record (given w dma_dev) { heap = b }),
      )
  err_with dma_dev b g live e f t =
      let n = w.heap.requests in
      subst (λ (r : Resources). Balanced k id u w (none, r))
        (sym (
          ap₂ (λ x r. record { heap = x; dma_refs = r })
            (ap (λ x. release n (release (n + 1) x)) e ∙ f) (refs-back dma_dev w.dma_refs)))
        t

  refused-Balanced :
      (index : ℕ) (dma_dev : Bool) (h : Hal) (x : Errno) (b image : Buffers)
      → b.heap.bad_frees ≡ w.heap.bad_frees
      → b.heap.live ≡ image.heap.live
      → Refuses k
      → HasPictures (given w dma_dev).heap image
      → Balanced k id u w (
          with_buffers w.heap.requests
            (w.heap.requests + 1)
            index
            dma_dev
            h
            (given w dma_dev)
            (fail x, b))
  refused-Balanced index dma_dev h x b image bad live j (inl e) =
      err_with dma_dev b.heap (restored w.heap b.heap.requests) _ (rw (bad, live ∙ e) refl)
        (releases-two w.heap b.heap.requests) (down _ (inl j))
  refused-Balanced index dma_dev h x b image bad live j (inr e) =
      err_with dma_dev b.heap _ _ (rw (bad, live ∙ e) refl)
        (releases-under w.heap b.heap.requests (w.heap.requests + 1 + 1) (omega arith))
        (leaking _ _ j)

  buffers-Balanced :
      (index : ℕ) (dma_dev : Bool) (h : Hal) (s : Step) (image : Buffers)
      → IsAccounted k (given w dma_dev).heap image s
      → HasPictures (given w dma_dev).heap image
      → Balanced k id u w
          (with_buffers w.heap.requests (w.heap.requests + 1) index dma_dev h (given w dma_dev) s)
  buffers-Balanced index dma_dev h (ok tt, b) image (c1, c2, c3, c4, bad, inl (made, m, e)) i =
      made-Balanced index dma_dev h b m e
  buffers-Balanced index dma_dev h (ok tt, b) image (c1, c2, c3, c4, bad, inr (q, live, j)) i = cc
  buffers-Balanced index dma_dev h (fail x, b) image (c1, c2, c3, c4, bad, inl (q, m, e)) i = cc
  buffers-Balanced index dma_dev h (fail x, b) image (c1, c2, c3, c4, bad, inr (q, live, j)) i =
      refused-Balanced index dma_dev h x b image bad live j i

  hal-Balanced :
      (now : ℕ) (index : ℕ) (dma_dev : Bool) (r : Outcome Hal)
      → (dev_hal_init new_hal u).0 ≡ r
      → Balanced k id u w
          (with_hal k now w.heap.requests (w.heap.requests + 1) index dma_dev (given w dma_dev) r)
  hal-Balanced now index dma_dev (ok h) q =
      let g = (given w dma_dev).heap in
      buffers-Balanced index dma_dev h (alloc_buf k now (zeroed g))
        (vmalloc_image k now (zeroed g)).1 (alloc_buf-IsAccounted k now g)
        (pictures-HasPictures k now g)
  hal-Balanced now index dma_dev (fail e) q =
      err_with dma_dev (given w dma_dev).heap _ _ refl
        (releases-two w.heap (w.heap.requests + 1 + 1)) (down _ (inr (inr (e, q))))

  find-Balanced :
      (now : ℕ) (index : ℕ) (dma_dev : Bool) (dev : Option HalId)
      → find_dev id ≡ dev
      → Balanced k id u w
          (after_find k now w.heap.requests
            (w.heap.requests + 1)
            index
            dma_dev
            (record w { heap = two w.heap (w.heap.requests + 1 + 1) })
            u
            dev).0
  find-Balanced now index dma_dev none q =
      err_with false (given w false).heap _ _ refl (releases-two w.heap (w.heap.requests + 1 + 1))
        (down _ (inr (inl q)))
  find-Balanced now index dma_dev (some dev) q =
      hal-Balanced now index dma_dev (dev_hal_init new_hal u).0 refl

  hal_ptr-Balanced :
      (now : ℕ) (index : ℕ) (dma_dev : Bool)
      → Balanced k id u w
          (after_hal k now id index dma_dev
            (record w { heap = one w.heap })
            u
            (some w.heap.requests)).0
  hal_ptr-Balanced now index dma_dev =
      let g = one w.heap in
      let then_dev : Option ℕ × Heap → Brought =
        λ r. (after_dev k now id w.heap.requests index dma_dev (record w { heap = r.1 }) u r.0).0 in
      elim (alloc-cases k g) [
        | inl e ↦
            subst (λ r. Balanced k id u w (then_dev r)) (sym e)
              (find-Balanced now index dma_dev (find_dev id) refl)
        | inr (e, j) ↦
            subst (λ r. Balanced k id u w (then_dev r)) (sym e)
              (subst (λ x. Balanced k id u w (none, record w { heap = x }))
                (sym (
                  release-1 w.heap.requests (restored w.heap (w.heap.requests + 1 + 1))
                    w.heap.live))
                (down _ (inl j)))
      ]

-- `usb_hal_init` either gives a display, and `usb_hal_destroy` then leaves the heap and the
-- references as they were but for the number of requests; or it gives NULL, because a request was
-- refused, the device is unknown or the chip failed, and they are as they were; or it gives NULL,
-- because a request was refused, and of the heap the four buffers of the pictures stay allocated.
pub hal_init-Balanced :
    (k : Kernel) (now : ℕ) (id : HalId) (index : ℕ) (dma_dev : Bool) (w : Resources) (u : Usb)
    → Balanced k id u w (hal_init k now id index dma_dev w u).0
unfolding hal_init
hal_init-Balanced k now id index dma_dev w u =
    let then_hal : Option ℕ × Heap → Brought =
      λ r. (after_hal k now id index dma_dev (record w { heap = r.1 }) u r.0).0 in
    elim (alloc-cases k w.heap) [
      | inl e ↦
          subst (λ r. Balanced k id u w (then_hal r)) (sym e)
            (hal_ptr-Balanced k id u w now index dma_dev)
      | inr (e, j) ↦ subst (λ r. Balanced k id u w (then_hal r)) (sym e) (down _ (inl j))
    ]
