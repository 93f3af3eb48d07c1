-- ===== src/Hal/Buffers/Frees.antt =====
-- Freeing what was allocated, oldest first, in the heap of Hal/Buffers.antt.
use lenovo_magicbay_hud_linu.Base.{ℕ, ◌<◌, ◌≡◌, ◌∙◌, ap, true, false, List, ◌∷◌, some, ◌==◌, arith}
use lenovo_magicbay_hud_linu.Hal.Buffers.{Heap, remove, release}

later : (p x : ℕ) → p < x → (x == p) ≡ false
later p x lt = ground arith

same : (p : ℕ) → (p == p) ≡ true
same p = ground arith

pub remove-here : (p : ℕ) (xs : List ℕ) → remove p (p ∷ xs) ≡ some xs
unfolding remove
remove-here p xs = rw (same p)

-- A later allocation is passed over.
pub remove-past :
    (p x : ℕ) (xs : List ℕ) {ys : List ℕ}
    → p < x
    → remove p xs ≡ some ys
    → remove p (x ∷ xs) ≡ some (x ∷ ys)
unfolding remove
remove-past p x xs lt e = rw (later p x lt, e)

pub release-remove :
    (p : ℕ) (h : Heap) {xs : List ℕ}
    → remove p h.live ≡ some xs
    → release p h ≡ record h { live = xs }
unfolding release
release-remove p h e = rw (release, e)

abbrev pub holding : Heap → List ℕ → Heap
holding h xs = record h { live = xs }

pub release-1 : (p : ℕ) (h : Heap) (xs : List ℕ) → release p (holding h (p ∷ xs)) ≡ holding h xs
release-1 p h xs = release-remove p (holding h (p ∷ xs)) (remove-here p xs)

pub release-2 :
    (p q : ℕ) (h : Heap) (xs : List ℕ)
    → p < q
    → release p (holding h (q ∷ p ∷ xs)) ≡ holding h (q ∷ xs)
release-2 p q h xs lt =
    release-remove p (holding h (q ∷ p ∷ xs)) (remove-past p q (p ∷ xs) lt (remove-here p xs))

release-3 :
    (p q r : ℕ) (h : Heap) (xs : List ℕ)
    → p < q
    → p < r
    → release p (holding h (r ∷ q ∷ p ∷ xs)) ≡ holding h (r ∷ q ∷ xs)
release-3 p q r h xs lt lt' =
    release-remove p (holding h (r ∷ q ∷ p ∷ xs))
      (remove-past p r (q ∷ p ∷ xs) lt' (remove-past p q (p ∷ xs) lt (remove-here p xs)))

release-4 :
    (p q r s : ℕ) (h : Heap) (xs : List ℕ)
    → p < q
    → p < r
    → p < s
    → release p (holding h (s ∷ r ∷ q ∷ p ∷ xs)) ≡ holding h (s ∷ r ∷ q ∷ xs)
release-4 p q r s h xs lt lt' lt'' = release-remove p (holding h (s ∷ r ∷ q ∷ p ∷ xs)) (
    remove-past p s (r ∷ q ∷ p ∷ xs) lt''
      (remove-past p r (q ∷ p ∷ xs) lt' (remove-past p q (p ∷ xs) lt (remove-here p xs))))

-- The pictures' buffers are freed in the order in which they were allocated.
pub releases-3 :
    (p q r : ℕ) (h : Heap) (xs : List ℕ)
    → p < q
    → q < r
    → release r (release q (release p (holding h (r ∷ q ∷ p ∷ xs)))) ≡ holding h xs
releases-3 p q r h xs lt lt' =
    ap (λ g. release r (release q g)) (release-3 p q r h xs lt (omega arith))
    ∙ ap (release r) (release-2 q r h xs lt')
    ∙ release-1 r h xs

pub releases-4 :
    (p q r s : ℕ) (h : Heap) (xs : List ℕ)
    → p < q
    → q < r
    → r < s
    → release s (release r (release q (release p (holding h (s ∷ r ∷ q ∷ p ∷ xs))))) ≡ holding h xs
releases-4 p q r s h xs lt lt' lt'' =
    ap (λ g. release s (release r (release q g)))
      (release-4 p q r s h xs lt (omega arith) (omega arith))
    ∙ releases-3 q r s h xs lt' lt''
