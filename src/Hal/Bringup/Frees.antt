-- ===== src/Hal/Bringup/Frees.antt =====
-- Freeing the two structures of a display, alone and from under the buffers of its pictures.
use lenovo_magicbay_hud_linu.Base.{ℕ, ◌+◌, ◌<◌, ◌≡◌, ◌∙◌, ap, List, ◌∷◌, some, arith}
use lenovo_magicbay_hud_linu.Hal.Buffers.{Heap, release, remove}
use lenovo_magicbay_hud_linu.Hal.Buffers.Frees.{
  holding, release-1, release-remove, remove-here, remove-past,
}
use lenovo_magicbay_hud_linu.Hal.Buffers.Lifetime.{restored}

-- The heap after the first two requests, which are `n` and `n + 1`, and `m` in all.
abbrev pub two : Heap → ℕ → Heap
two h m = record h { requests = m; live = (h.requests + 1) ∷ h.requests ∷ h.live }

pub releases-two :
    (h : Heap) (m : ℕ) → release h.requests (release (h.requests + 1) (two h m)) ≡ restored h m
releases-two h m =
    ap (release h.requests) (release-1 (h.requests + 1) (restored h m) (h.requests ∷ h.live))
    ∙ release-1 h.requests (restored h m) h.live

-- They are freed from under the buffers of the pictures.
remove-under :
    (p n : ℕ) (xs : List ℕ)
    → p < n
    → remove p ((n + 1 + 1 + 1) ∷ (n + 1 + 1) ∷ (n + 1) ∷ n ∷ p ∷ xs)
      ≡ some ((n + 1 + 1 + 1) ∷ (n + 1 + 1) ∷ (n + 1) ∷ n ∷ xs)
remove-under p n xs lt =
    remove-past p (n + 1 + 1 + 1) ((n + 1 + 1) ∷ (n + 1) ∷ n ∷ p ∷ xs) (omega arith) (
      remove-past p (n + 1 + 1) ((n + 1) ∷ n ∷ p ∷ xs) (omega arith) (
        remove-past p (n + 1) (n ∷ p ∷ xs) (omega arith)
          (remove-past p n (p ∷ xs) lt (remove-here p xs))))

abbrev pub under : ℕ → List ℕ → List ℕ
under n xs = (n + 1 + 1 + 1) ∷ (n + 1 + 1) ∷ (n + 1) ∷ n ∷ xs

pub releases-under :
    (h : Heap) (m n : ℕ)
    → h.requests + 1 < n
    → release h.requests (
        release
          (h.requests + 1)
          (record h { requests = m; live = under n ((h.requests + 1) ∷ h.requests ∷ h.live) }))
      ≡ record h { requests = m; live = under n h.live }
releases-under h m n lt =
    let p = h.requests in
    let g = restored h m in
    ap (release p) (
      release-remove (p + 1) (holding g (under n ((p + 1) ∷ p ∷ h.live)))
        (remove-under (p + 1) n (p ∷ h.live) lt))
    ∙ release-remove p (holding g (under n (p ∷ h.live))) (remove-under p n h.live (omega arith))
