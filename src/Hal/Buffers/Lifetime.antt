-- ===== src/Hal/Buffers/Lifetime.antt =====
-- The buffers from `usb_dev_alloc_buf` to `usb_hal_free_buf`, usb_hal/usb_hal_interface.c.
use mathlib.Core.Path.{subst}
use lenovo_magicbay_hud_linu.Base.{
  ◌⊎◌, ℕ, ◌+◌, ◌≡◌, ◌∙◌, refl, sym, ap, enomem, inl, inr, List, ◌∷◌, none, arith, fail, ok, Errno,
  Outcome,
}
use lenovo_magicbay_hud_linu.Hal.Buffers.{
  Kernel, Heap, Buffers, Step, with_usb, zeroed, release, vmalloc_image, vmalloc_usb, alloc_buf,
  free_buf, buf_size, buf_def_len, type_vmalloc,
}
use lenovo_magicbay_hud_linu.Hal.Buffers.Frees.{release-1, releases-4, holding}
use lenovo_magicbay_hud_linu.Hal.Buffers.Images.{
  with_images, without_images, vmalloc_image_all_or_none,
}
use lenovo_magicbay_hud_linu.Hal.Buffers.Blocks.{
  Refuses, with_block, without_block, vmalloc_usb_all_or_none,
}

abbrev sized : Buffers → Buffers
sized b = record b { size = buf_size; len = buf_def_len }

abbrev finished : Buffers → Buffers
finished b = record b { type = type_vmalloc }

abbrev failed : Buffers → Buffers
failed b = record b { usb_buf = none; size = 0; len = 0 }

alloc_buf-ok :
    (k : Kernel) (now : ℕ) (b : Buffers) {o : Outcome (Unit {0})} {b1 b2 : Buffers}
    → vmalloc_image k now b ≡ (o, b1)
    → vmalloc_usb k (sized b1) ≡ (ok tt, b2)
    → alloc_buf k now b ≡ (ok tt, finished b2)
unfolding alloc_buf
alloc_buf-ok k now b e e' =
    ap (λ (s : Step). with_usb (vmalloc_usb k (sized s.1))) e ∙ ap with_usb e'

alloc_buf-fail :
    (k : Kernel) (now : ℕ) (b : Buffers) {o : Outcome (Unit {0})} {b1 b2 : Buffers} {c : Errno}
    → vmalloc_image k now b ≡ (o, b1)
    → vmalloc_usb k (sized b1) ≡ (fail c, b2)
    → alloc_buf k now b ≡ (fail enomem, failed b2)
unfolding alloc_buf
alloc_buf-fail k now b e e' =
    ap (λ (s : Step). with_usb (vmalloc_usb k (sized s.1))) e ∙ ap with_usb e'

-- The three allocations of the buffer for blocks are freed, latest first.
releases-block :
    (p q r : ℕ) (h : Heap) (xs : List ℕ)
    → release p (release q (release r (holding h (r ∷ q ∷ p ∷ xs)))) ≡ holding h xs
releases-block p q r h xs =
    ap (λ g. release p (release q g)) (release-1 r h (q ∷ p ∷ xs))
    ∙ ap (release p) (release-1 q h (p ∷ xs))
    ∙ release-1 p h xs

-- The heap as it was, but for the number of requests.
abbrev pub restored : Heap → ℕ → Heap
restored h m = record h { requests = m }

free_with :
    (now : ℕ) (h : Heap)
    → (free_buf (finished (with_block (sized (with_images now h))))).heap
      ≡ restored h (h.requests + 1 + 1 + 1 + 1 + 1 + 1 + 1 + 1)
unfolding free_buf
free_with now h =
    let n = h.requests in
    let m = n + 1 + 1 + 1 + 1 in
    let g = restored h (m + 1 + 1 + 1 + 1) in
    let images = (n + 1 + 1 + 1) ∷ (n + 1 + 1) ∷ (n + 1) ∷ n ∷ h.live in
    ap (λ x. release (n + 1 + 1 + 1) (release (n + 1 + 1) (release (n + 1) (release n x))))
      (releases-block m (m + 1) (m + 1 + 1 + 1) g images)
    ∙ releases-4 n (n + 1) (n + 1 + 1) (n + 1 + 1 + 1) g h.live (omega arith) (omega arith)
        (omega arith)

free_without :
    (now m : ℕ) (h : Heap)
    → (free_buf (finished (with_block (sized (without_images now h m))))).heap
      ≡ restored h (m + 1 + 1 + 1 + 1)
unfolding free_buf
free_without now m h =
    releases-block m (m + 1) (m + 1 + 1 + 1) (restored h (m + 1 + 1 + 1 + 1)) h.live

-- What is known of the result of `usb_dev_alloc_buf`, if `image` is what the buffers of the
-- pictures were like before.
abbrev pub IsAccounted : Kernel → Heap → Buffers → Step → Type 0
IsAccounted k h image (made, b) =
    (b.cursor_buf ≡ image.cursor_buf)
    × (b.old_cursor_buf ≡ image.old_cursor_buf)
    × (b.desktop_buf ≡ image.desktop_buf)
    × (b.image_buf ≡ image.image_buf)
    × (b.heap.bad_frees ≡ h.bad_frees)
    × (((made ≡ ok tt) × (m : ℕ) × ((free_buf b).heap ≡ restored h m))
        ⊎ ((made ≡ fail enomem) × (b.heap.live ≡ image.heap.live) × Refuses k))

accounted :
    (k : Kernel) (now : ℕ) (h : Heap) {o : Outcome (Unit {0})} (b : Buffers) (m : ℕ)
    → vmalloc_image k now (zeroed h) ≡ (o, b)
    → b.heap.bad_frees ≡ h.bad_frees
    → vmalloc_usb k (sized b) ≡ (ok tt, with_block (sized b))
      ⊎ (e : Errno) × (r : ℕ) × (vmalloc_usb k (sized b) ≡ (fail e, without_block (sized b) r))
        × Refuses k
    → (free_buf (finished (with_block (sized b)))).heap ≡ restored h m
    → IsAccounted k h (vmalloc_image k now (zeroed h)).1 (alloc_buf k now (zeroed h))
accounted k now h b m image_is bad (inl e) back =
    subst (λ (s : Step). IsAccounted k h (vmalloc_image k now (zeroed h)).1 s)
      (sym (alloc_buf-ok k now (zeroed h) image_is e))
      (
        sym (ap (λ (s : Step). s.1.cursor_buf) image_is),
        sym (ap (λ (s : Step). s.1.old_cursor_buf) image_is),
        sym (ap (λ (s : Step). s.1.desktop_buf) image_is),
        sym (ap (λ (s : Step). s.1.image_buf) image_is),
        bad,
        inl (refl, m, back),
      )
accounted k now h b m image_is bad (inr (c, r, e, j)) back =
    subst (λ (s : Step). IsAccounted k h (vmalloc_image k now (zeroed h)).1 s)
      (sym (alloc_buf-fail k now (zeroed h) image_is e))
      (
        sym (ap (λ (s : Step). s.1.cursor_buf) image_is),
        sym (ap (λ (s : Step). s.1.old_cursor_buf) image_is),
        sym (ap (λ (s : Step). s.1.desktop_buf) image_is),
        sym (ap (λ (s : Step). s.1.image_buf) image_is),
        bad,
        inr (refl, sym (ap (λ (s : Step). s.1.heap.live) image_is), j),
      )

-- From the zeroed buffers of a new display, `usb_dev_alloc_buf` leaves the pointers to the
-- pictures' buffers as `usb_dev_vmalloc_image` has left them, NULL if that has failed, and frees
-- nothing twice. If it returns 0, `usb_hal_free_buf` then gives back all that was allocated, and
-- only that. If not, a request was refused, its code is -ENOMEM and the buffers of the pictures,
-- if there are any, stay allocated.
pub alloc_buf-IsAccounted :
    (k : Kernel) (now : ℕ) (h : Heap)
    → IsAccounted k h (vmalloc_image k now (zeroed h)).1 (alloc_buf k now (zeroed h))
alloc_buf-IsAccounted k now h = elim (vmalloc_image_all_or_none k now h) [
  | inl e ↦
      accounted k now h (with_images now h) _ e refl
        (vmalloc_usb_all_or_none k (sized (with_images now h))) (free_with now h)
  | inr (m, e) ↦
      accounted k now h (without_images now h m) _ e refl
        (vmalloc_usb_all_or_none k (sized (without_images now h m))) (free_without now m h)
]
