-- ===== src/Hal/Buffers/Blocks.antt =====
-- The buffer of the blocks with its table of pages, usb_hal/usb_hal_interface.c.
use lenovo_magicbay_hud_linu.Base.{
  ◌⊎◌, ℕ, ◌+◌, ◌≡◌, ◌∙◌, ap, enomem, inl, inr, true, false, Bool-cases, ◌∷◌, Option, none, some,
  arith, fail, ok, Errno,
}
use lenovo_magicbay_hud_linu.Hal.Buffers.{
  Kernel, Heap, Buffers, alloc, release, free, usb_fail, free_pages, vmalloc_usb,
}
use lenovo_magicbay_hud_linu.Hal.Buffers.Frees.{release-1, release-2, releases-3}

-- Without a buffer for blocks.
abbrev unsent : Buffers → Buffers
unsent b = record b { usb_buf = none; sgt = none; sg_list = none }

abbrev pub with_block : Buffers → Buffers
with_block b =
    let n = b.heap.requests in
    record b {
      heap = record b.heap {
        requests = n + 1 + 1 + 1 + 1;
        live = (n + 1 + 1 + 1) ∷ (n + 1) ∷ n ∷ b.heap.live;
      };
      usb_buf = some n;
      sgt = some (n + 1);
      sg_list = some (n + 1 + 1 + 1);
    }

abbrev pub without_block : Buffers → ℕ → Buffers
without_block b m = record (unsent b) { heap = record b.heap { requests = m }; size = 0; len = 0 }

blocks-4 :
    (k : Kernel) (b : Buffers)
    → let n = b.heap.requests in
      k.grants n ≡ true
      → k.grants (n + 1) ≡ true
      → k.grants (n + 1 + 1) ≡ true
      → k.grants (n + 1 + 1 + 1) ≡ true
      → vmalloc_usb k (unsent b) ≡ (ok tt, with_block b)
unfolding vmalloc_usb alloc
blocks-4 k b e0 e1 e2 e3 =
    let n = b.heap.requests in
    let live = (n + 1) ∷ n ∷ b.heap.live in
    let g : Heap = record b.heap { requests = n + 1 + 1 + 1 + 1 } in
    let step : vmalloc_usb k (unsent b) ≡ (
      ok tt,
      record (with_block b) {
        heap = release (n + 1 + 1) (record g { live = (n + 1 + 1 + 1) ∷ (n + 1 + 1) ∷ live });
      },
    ) =
      rw (vmalloc_usb, alloc, e0, e1, e2, e3) in
    step
    ∙ ap (λ (x : Heap). (ok tt, record (with_block b) { heap = x }))
        (release-2 (n + 1 + 1) (n + 1 + 1 + 1) g live (omega arith))

-- The buffers after a failure, when `h` is what is left of the heap.
usb_fail-lem :
    (b : Buffers) (g g' : Heap) (buf sgt : Option ℕ)
    → free sgt (free buf g) ≡ g'
    → usb_fail (record b { heap = g; usb_buf = buf; sgt = sgt; sg_list = none })
      ≡ record (unsent b) { heap = g'; size = 0; len = 0 }
unfolding usb_fail
usb_fail-lem b g g' buf sgt e =
    ap (λ (x : Heap). record (unsent b) { heap = x; size = 0; len = 0 }) e

blocks-0 :
    (k : Kernel) (b : Buffers)
    → k.grants b.heap.requests ≡ false
    → vmalloc_usb k (unsent b) ≡ (fail enomem, without_block b (b.heap.requests + 1))
unfolding vmalloc_usb alloc usb_fail
blocks-0 k b e0 = rw (vmalloc_usb, alloc, e0)

blocks-1 :
    (k : Kernel) (b : Buffers)
    → let n = b.heap.requests in
      k.grants n ≡ true
      → k.grants (n + 1) ≡ false
      → vmalloc_usb k (unsent b) ≡ (fail enomem, without_block b (n + 1 + 1))
unfolding vmalloc_usb alloc
blocks-1 k b e0 e1 =
    let n = b.heap.requests in
    let g : Heap = record b.heap { requests = n + 1 + 1; live = n ∷ b.heap.live } in
    let step : vmalloc_usb k (unsent b) ≡ (
      fail enomem,
      usb_fail (record b { heap = g; usb_buf = some n; sgt = none; sg_list = none }),
    ) =
      rw (vmalloc_usb, alloc, e0, e1) in
    step
    ∙ ap (λ x. (fail enomem, x))
        (usb_fail-lem b g (record b.heap { requests = n + 1 + 1 }) (some n) none
          (release-1 n g b.heap.live))

blocks-2 :
    (k : Kernel) (b : Buffers)
    → let n = b.heap.requests in
      k.grants n ≡ true
      → k.grants (n + 1) ≡ true
      → k.grants (n + 1 + 1) ≡ false
      → vmalloc_usb k (unsent b) ≡ (fail enomem, without_block b (n + 1 + 1 + 1))
unfolding vmalloc_usb alloc
blocks-2 k b e0 e1 e2 =
    let n = b.heap.requests in
    let g : Heap = record b.heap { requests = n + 1 + 1 + 1; live = (n + 1) ∷ n ∷ b.heap.live } in
    let step : vmalloc_usb k (unsent b) ≡ (
      fail enomem,
      usb_fail (record b { heap = g; usb_buf = some n; sgt = some (n + 1); sg_list = none }),
    ) =
      rw (vmalloc_usb, alloc, e0, e1, e2) in
    step
    ∙ ap (λ x. (fail enomem, x))
        (usb_fail-lem b g (record b.heap { requests = n + 1 + 1 + 1 }) (some n) (some (n + 1))
          (ap (release (n + 1)) (release-2 n (n + 1) g b.heap.live (omega arith))
            ∙ release-1 (n + 1) g b.heap.live))

blocks-3 :
    (k : Kernel) (b : Buffers)
    → let n = b.heap.requests in
      k.grants n ≡ true
      → k.grants (n + 1) ≡ true
      → k.grants (n + 1 + 1) ≡ true
      → k.grants (n + 1 + 1 + 1) ≡ false
      → vmalloc_usb k (unsent b) ≡ (fail k.sg_error, without_block b (n + 1 + 1 + 1 + 1))
unfolding vmalloc_usb alloc usb_fail
blocks-3 k b e0 e1 e2 e3 =
    let n = b.heap.requests in
    let g : Heap = record b.heap {
      requests = n + 1 + 1 + 1 + 1;
      live = (n + 1 + 1) ∷ (n + 1) ∷ n ∷ b.heap.live;
    } in
    let step : vmalloc_usb k (unsent b) ≡ (
      fail k.sg_error,
      free_pages (n + 1 + 1)
          (usb_fail (record b { heap = g; usb_buf = some n; sgt = some (n + 1); sg_list = none })),
    ) =
      rw (vmalloc_usb, alloc, e0, e1, e2, e3) in
    step
    ∙ ap (λ (x : Heap). (fail k.sg_error, record (unsent b) { heap = x; size = 0; len = 0 }))
        (releases-3 n (n + 1) (n + 1 + 1) g b.heap.live (omega arith) (omega arith))

-- A request is refused.
abbrev pub Refuses : Kernel → Type 0
Refuses k = (j : ℕ) × (k.grants j ≡ false)

-- The buffer for blocks and its table are there, or a request was refused and nothing of them is.
pub vmalloc_usb_all_or_none :
    (k : Kernel) (b : Buffers)
    → (vmalloc_usb k (unsent b) ≡ (ok tt, with_block b))
      ⊎ ((e : Errno) × (m : ℕ) × (vmalloc_usb k (unsent b) ≡ (fail e, without_block b m))
          × Refuses k)
vmalloc_usb_all_or_none k b =
    let n = b.heap.requests in
    elim (Bool-cases (k.grants n)) [
      | inr e0 ↦ inr (enomem, n + 1, blocks-0 k b e0, (n, e0))
      | inl e0 ↦ elim (Bool-cases (k.grants (n + 1))) [
        | inr e1 ↦ inr (enomem, n + 1 + 1, blocks-1 k b e0 e1, (n + 1, e1))
        | inl e1 ↦ elim (Bool-cases (k.grants (n + 1 + 1))) [
          | inr e2 ↦ inr (enomem, n + 1 + 1 + 1, blocks-2 k b e0 e1 e2, (n + 1 + 1, e2))
          | inl e2 ↦ elim (Bool-cases (k.grants (n + 1 + 1 + 1))) [
            | inr e3 ↦
                inr (k.sg_error, n + 1 + 1 + 1 + 1, blocks-3 k b e0 e1 e2 e3, (n + 1 + 1 + 1, e3))
            | inl e3 ↦ inl (blocks-4 k b e0 e1 e2 e3)
          ]
        ]
      ]
    ]
