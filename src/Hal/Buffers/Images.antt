-- ===== src/Hal/Buffers/Images.antt =====
-- The buffers of the pictures, usb_hal/usb_hal_interface.c.
use lenovo_magicbay_hud_linu.Base.{
  ◌⊎◌, ℕ, ◌+◌, ◌≡◌, ◌∙◌, ap, enomem, inl, inr, true, false, Bool-cases, ◌∷◌, Option, none, some,
  arith, fail, ok,
}
use lenovo_magicbay_hud_linu.Hal.Buffers.Frees.{release-1, release-2, releases-3}
use lenovo_magicbay_hud_linu.Hal.Buffers.{
  zeroed, Kernel, Heap, Buffers, alloc, release, free, image_fail, vmalloc_image,
}

-- The buffers once those of the pictures are there, and when one of them was refused after `m`
-- requests.
abbrev pub with_images : ℕ → Heap → Buffers
with_images now h =
    let n = h.requests in
    record (zeroed h) {
      heap = record h {
        requests = n + 1 + 1 + 1 + 1;
        live = (n + 1 + 1 + 1) ∷ (n + 1 + 1) ∷ (n + 1) ∷ n ∷ h.live;
      };
      cursor_buf = some n;
      old_cursor_buf = some (n + 1);
      desktop_buf = some (n + 1 + 1);
      image_buf = some (n + 1 + 1 + 1);
      update_time = now;
    }

abbrev pub without_images : ℕ → Heap → ℕ → Buffers
without_images now h m = record (zeroed h) { heap = record h { requests = m }; update_time = now }

-- The buffers when the first ones are there.
abbrev partial : ℕ → Heap → Option ℕ → Option ℕ → Option ℕ → Buffers
partial now g cursor old_cursor desktop = record (zeroed g) {
  cursor_buf = cursor;
  old_cursor_buf = old_cursor;
  desktop_buf = desktop;
  update_time = now;
}

image_fail-partial :
    (now : ℕ) (g g' : Heap) (cursor old_cursor desktop : Option ℕ)
    → free desktop (free old_cursor (free cursor g)) ≡ g'
    → image_fail (partial now g cursor old_cursor desktop)
      ≡ record (zeroed g') { update_time = now }
unfolding image_fail
image_fail-partial now g g' cursor old_cursor desktop e =
    ap (λ (x : Heap). record (zeroed x) { update_time = now }) e

images-4 :
    (k : Kernel) (now : ℕ) (h : Heap)
    → let n = h.requests in
      k.grants n ≡ true
      → k.grants (n + 1) ≡ true
      → k.grants (n + 1 + 1) ≡ true
      → k.grants (n + 1 + 1 + 1) ≡ true
      → vmalloc_image k now (zeroed h) ≡ (ok tt, with_images now h)
unfolding vmalloc_image alloc
images-4 k now h e0 e1 e2 e3 = rw (vmalloc_image, alloc, e0, e1, e2, e3)

images-0 :
    (k : Kernel) (now : ℕ) (h : Heap)
    → k.grants h.requests ≡ false
    → vmalloc_image k now (zeroed h) ≡ (fail enomem, without_images now h (h.requests + 1))
unfolding vmalloc_image alloc image_fail
images-0 k now h e0 = rw (vmalloc_image, alloc, e0)

images-1 :
    (k : Kernel) (now : ℕ) (h : Heap)
    → let n = h.requests in
      k.grants n ≡ true
      → k.grants (n + 1) ≡ false
      → vmalloc_image k now (zeroed h) ≡ (fail enomem, without_images now h (n + 1 + 1))
unfolding vmalloc_image alloc
images-1 k now h e0 e1 =
    let n = h.requests in
    let g : Heap = record h { requests = n + 1 + 1; live = n ∷ h.live } in
    let step : vmalloc_image k now (zeroed h)
        ≡ (fail enomem, image_fail (partial now g (some n) none none)) =
      rw (vmalloc_image, alloc, e0, e1) in
    step
    ∙ ap (λ b. (fail enomem, b))
        (image_fail-partial now g (record h { requests = n + 1 + 1 }) (some n) none none
          (release-1 n g h.live))

images-2 :
    (k : Kernel) (now : ℕ) (h : Heap)
    → let n = h.requests in
      k.grants n ≡ true
      → k.grants (n + 1) ≡ true
      → k.grants (n + 1 + 1) ≡ false
      → vmalloc_image k now (zeroed h) ≡ (fail enomem, without_images now h (n + 1 + 1 + 1))
unfolding vmalloc_image alloc
images-2 k now h e0 e1 e2 =
    let n = h.requests in
    let g : Heap = record h { requests = n + 1 + 1 + 1; live = (n + 1) ∷ n ∷ h.live } in
    let step : vmalloc_image k now (zeroed h)
        ≡ (fail enomem, image_fail (partial now g (some n) (some (n + 1)) none)) =
      rw (vmalloc_image, alloc, e0, e1, e2) in
    step
    ∙ ap (λ b. (fail enomem, b))
        (image_fail-partial now g (record h { requests = n + 1 + 1 + 1 }) (some n) (some (n + 1))
          none
          (ap (release (n + 1)) (release-2 n (n + 1) g h.live (omega arith))
            ∙ release-1 (n + 1) g h.live))

images-3 :
    (k : Kernel) (now : ℕ) (h : Heap)
    → let n = h.requests in
      k.grants n ≡ true
      → k.grants (n + 1) ≡ true
      → k.grants (n + 1 + 1) ≡ true
      → k.grants (n + 1 + 1 + 1) ≡ false
      → vmalloc_image k now (zeroed h) ≡ (fail enomem, without_images now h (n + 1 + 1 + 1 + 1))
unfolding vmalloc_image alloc
images-3 k now h e0 e1 e2 e3 =
    let n = h.requests in
    let g : Heap = record h {
      requests = n + 1 + 1 + 1 + 1;
      live = (n + 1 + 1) ∷ (n + 1) ∷ n ∷ h.live;
    } in
    let step : vmalloc_image k now (zeroed h)
        ≡ (fail enomem, image_fail (partial now g (some n) (some (n + 1)) (some (n + 1 + 1)))) =
      rw (vmalloc_image, alloc, e0, e1, e2, e3) in
    step
    ∙ ap (λ b. (fail enomem, b))
        (image_fail-partial now g (record h { requests = n + 1 + 1 + 1 + 1 }) (some n)
          (some (n + 1)) (some (n + 1 + 1))
          (releases-3 n (n + 1) (n + 1 + 1) g h.live (omega arith) (omega arith)))

-- From the zeroed buffers of a new display, the buffers of the pictures are either all allocated,
-- in order, or none is: then the code is -ENOMEM, every pointer is NULL, and the heap is as it was
-- but for the number of requests.
pub vmalloc_image_all_or_none :
    (k : Kernel) (now : ℕ) (h : Heap)
    → (vmalloc_image k now (zeroed h) ≡ (ok tt, with_images now h))
      ⊎ ((m : ℕ) × (vmalloc_image k now (zeroed h) ≡ (fail enomem, without_images now h m)))
vmalloc_image_all_or_none k now h =
    let n = h.requests in
    elim (Bool-cases (k.grants n)) [
      | inr e0 ↦ inr (n + 1, images-0 k now h e0)
      | inl e0 ↦ elim (Bool-cases (k.grants (n + 1))) [
        | inr e1 ↦ inr (n + 1 + 1, images-1 k now h e0 e1)
        | inl e1 ↦ elim (Bool-cases (k.grants (n + 1 + 1))) [
          | inr e2 ↦ inr (n + 1 + 1 + 1, images-2 k now h e0 e1 e2)
          | inl e2 ↦ elim (Bool-cases (k.grants (n + 1 + 1 + 1))) [
            | inr e3 ↦ inr (n + 1 + 1 + 1 + 1, images-3 k now h e0 e1 e2 e3)
            | inl e3 ↦ inl (images-4 k now h e0 e1 e2 e3)
          ]
        ]
      ]
    ]
