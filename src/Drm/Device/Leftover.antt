-- ===== src/Drm/Device/Leftover.antt =====
-- Which FIFOs are left when a card cannot be made, and when it is removed.
use mathlib.Core.Path.{subst}
use lenovo_magicbay_hud_linu.Base.{
  ℕ, zero, suc, ◌+◌, ◌-◌, ◌≤◌, ◌<◌, ◌≡◌, ◌∙◌, ◌⊎◌, sym, ap, ap₂, refl, Bool, true, false,
  Bool-cases, ◌==◌, ==_iff, List, [], ◌∷◌, Option, none, some, ltb, arith, Errno, enomem, fault, ok,
  fail, inl, inr,
}
use lenovo_magicbay_hud_linu.Drm.{max_pipeline_cnt}
use lenovo_magicbay_hud_linu.Drm.Device.{
  err_free, Making, Fifos, Created, null_pointer, error_pointer, made, alloc_fifos, free_fifos,
  after_fifos, after_init, after_register, device_create, device_probe, device_remove,
}

-- The pipelines below `n`, latest first.
pub below : ℕ → List ℕ
below zero = []
below (suc n) = n ∷ below n

-- What the loop has done after `n` rounds.
abbrev after_rounds : ℕ → Fifos
after_rounds n = record { live = below n; alloc_fifo_cnt = n - 1 }

below-suc : (i : ℕ) → below (i + 1) ≡ i ∷ below i
unfolding below
below-suc i = let e : i + 1 ≡ suc i = omega arith in ap below e

-- One round more.
next_round : (i : ℕ) → record { live = i ∷ below i; alloc_fifo_cnt = i } ≡ after_rounds (i + 1)
next_round i =
    let e : i ≡ i + 1 - 1 = omega arith in
    ap₂ (λ l n. record { live = l; alloc_fifo_cnt = n }) (sym (below-suc i)) e

alloc_fifos-granted :
    (n i : ℕ) (fifo : ℕ → Bool)
    → fifo i ≡ true
    → alloc_fifos (suc n) i fifo (after_rounds i)
      ≡ alloc_fifos n (i + 1) fifo (after_rounds (i + 1))
unfolding alloc_fifos
alloc_fifos-granted n i fifo e =
    rw (alloc_fifos, e) (ap (alloc_fifos n (i + 1) fifo) (next_round i))

-- The kernel has memory for the FIFOs of the pipelines from `i` up to `n`.
abbrev Granted : (ℕ → Bool) → ℕ → ℕ → Type 0
Granted fifo i n = (j : ℕ) → i ≤ j → j < n → fifo j ≡ true

Granted-first :
    (fifo : ℕ → Bool) (i n : ℕ) → fifo i ≡ true → Granted fifo (i + 1) n → Granted fifo i n
Granted-first fifo i n e g j le lt = elim (Bool-cases (i == j)) [
  | inl q ↦ let z : i ≡ j = (==_iff i j).0 q in ap fifo (sym z) ∙ e
  | inr q ↦ g j (ground (arith, q, le)) lt
]

-- All of the next `n` are allocated, or the first that is refused ends the loop.
alloc_fifos-rounds :
    (n i : ℕ) (fifo : ℕ → Bool)
    → (Granted fifo i (i + n)
        × (alloc_fifos n i fifo (after_rounds i) ≡ (ok tt, after_rounds (i + n))))
      ⊎ ((k : ℕ) × (k < i + n)
          × Granted fifo i k
          × (fifo k ≡ false)
          × (alloc_fifos n i fifo (after_rounds i) ≡ (fail enomem, after_rounds k)))
unfolding alloc_fifos
alloc_fifos-rounds zero i fifo =
    inl ((λ j le lt. absurd (omega arith)), ap (λ k. (ok tt, after_rounds k)) (omega arith))
alloc_fifos-rounds (suc n) i fifo = elim (Bool-cases (fifo i)) [
  | inr e ↦ inr (i, omega arith, (λ j le lt. absurd (omega arith)), e, rw (alloc_fifos, e) refl)
  | inl e ↦ elim (alloc_fifos-rounds n (i + 1) fifo) [
    | inl (g, r) ↦
        let same : i + 1 + n ≡ i + suc n = omega arith in
        inl (
          Granted-first fifo i (i + suc n) e (subst (λ k. Granted fifo (i + 1) k) same g),
          alloc_fifos-granted n i fifo e ∙ r ∙ ap (λ k. (ok tt, after_rounds k)) same,
        )
    | inr (k, lt, g, refused, r) ↦
        inr
          (k, omega arith, Granted-first fifo i k e g, refused, alloc_fifos-granted n i fifo e ∙ r)
  ]
]

-- Freeing the pipelines below `m` frees all of the first `n` if they are no more.
free_fifos-below : (m n : ℕ) → n ≤ m → free_fifos m (below n) ≡ []
unfolding free_fifos below
free_fifos-below m zero le = refl
free_fifos-below m (suc n) le = ground (arith, free_fifos-below m n)

free_fifos-last : (n : ℕ) → free_fifos n (below (suc n)) ≡ n ∷ []
unfolding free_fifos below
free_fifos-last n = let r = free_fifos-below n n (omega arith) in ground arith

-- The FIFO that is left when `k` were allocated and a later step fails.
abbrev leftover : ℕ → List ℕ
leftover zero = []
leftover (suc k) = k ∷ []

err_free-leftover : (k : ℕ) → free_fifos (k - 1) (below k) ≡ leftover k
unfolding free_fifos below
err_free-leftover zero = refl
err_free-leftover (suc k) =
    let e : suc k - 1 ≡ k = omega arith in
    ap (λ n. free_fifos n (below (suc k))) e ∙ free_fifos-last k

-- How the making of a card with `count` pipelines ends, by the first step that fails, and which
-- FIFOs are allocated then.
pub data Made (m : Making) (count : ℕ) : Created × List ℕ → Type 0 where
  whole :
      Granted m.fifo 0 count → m.init ≡ none → m.register ≡ none → Made m count (made, below count)
  no_fifo :
      (k : ℕ)
      → k < count
      → Granted m.fifo 0 k
      → m.fifo k ≡ false
      → Made m count (error_pointer enomem, leftover k)
  no_init :
      (e : Errno)
      → Granted m.fifo 0 count
      → m.init ≡ some e
      → Made m count (error_pointer e, leftover count)
  no_register :
      (e : Errno)
      → Granted m.fifo 0 count
      → m.init ≡ none
      → m.register ≡ some e
      → Made m count (error_pointer e, leftover count)

err_free-after : (k : ℕ) (e : Errno) → err_free e (after_rounds k) ≡ (error_pointer e, leftover k)
err_free-after k e = ap (λ l. (error_pointer e, l)) (err_free-leftover k)

module _ (m : Making) (count : ℕ) (g : Granted m.fifo 0 count) where
  register-Made :
      (register : Option Errno)
      → m.init ≡ none
      → m.register ≡ register
      → Made m count (after_register register (after_rounds count))
  register-Made none i r = whole g i r
  register-Made (some e) i r =
      subst (Made m count) (sym (err_free-after count e)) (no_register e g i r)

  init-Made :
      (init : Option Errno) → m.init ≡ init → Made m count (after_init m init (after_rounds count))
  init-Made none i = register-Made m.register i refl
  init-Made (some e) i = subst (Made m count) (sym (err_free-after count e)) (no_init e g i)

fifos-Made :
    (m : Making) (count : ℕ)
    → Made m count (after_fifos m (alloc_fifos count 0 m.fifo (after_rounds 0)))
fifos-Made m count = elim (alloc_fifos-rounds count 0 m.fifo) [
  | inl (g, e) ↦
      let same : 0 + count ≡ count = omega arith in
      subst (λ r. Made m count (after_fifos m r)) (sym (e ∙ ap (λ k. (ok tt, after_rounds k)) same))
        (init-Made m count (subst (Granted m.fifo 0) same g) m.init refl)
  | inr (k, lt, g, refused, e) ↦
      subst (λ r. Made m count (after_fifos m r)) (sym e)
        (subst (Made m count) (sym (err_free-after k enomem)) (no_fifo k (omega arith) g refused))
]

create-fits :
    (m : Making) (count : ℕ)
    → count ≤ max_pipeline_cnt
    → m.card ≡ true
    → device_create m count ≡ ok (after_fifos m (alloc_fifos count 0 m.fifo (after_rounds 0)))
unfolding device_create below
create-fits m count le c =
    let e : ltb max_pipeline_cnt count ≡ false = ground arith in rw (device_create, e, c) refl

create-too_many :
    (m : Making) (count : ℕ)
    → max_pipeline_cnt < count
    → device_create m count ≡ ok (null_pointer, [])
unfolding device_create
create-too_many m count lt =
    let e : ltb max_pipeline_cnt count ≡ true = ground arith in rw (device_create, e) refl

-- For at most three pipelines and with memory for the card, `msdisp_drm_device_create` makes the
-- card with the FIFOs of all its pipelines if no step fails. If the FIFO of a pipeline is refused,
-- it returns -ENOMEM, and of the FIFOs of the pipelines before it that of the last stays
-- allocated; if the next steps fail, it returns the code of the first that does, and the FIFO of
-- the last pipeline stays allocated. Removing a card with all its FIFOs frees them all.
pub device_create-Made :
    (m : Making) (count : ℕ)
    → count ≤ max_pipeline_cnt
    → m.card ≡ true
    → ((r : Created × List ℕ) × (device_create m count ≡ ok r) × Made m count r)
      × (device_remove true count (below count) ≡ (ok tt, []))
unfolding device_remove
device_create-Made m count le c = (
  (
    after_fifos m (alloc_fifos count 0 m.fifo (after_rounds 0)),
    create-fits m count le c,
    fifos-Made m count,
  ),
  ap (λ l. (ok tt, l)) (free_fifos-below count count (omega arith)),
)

-- For more than three pipelines the device is probed with success, without a card, and removing it
-- reads through NULL.
device_probe-too_many :
    (m : Making) (count : ℕ)
    → max_pipeline_cnt < count
    → (c : Created) × (live : List ℕ) × (device_create m count ≡ ok (c, live))
      × (device_probe c ≡ (ok tt, false))
      × (device_remove (device_probe c).1 count live ≡ (fail fault, live))
unfolding device_probe device_remove
device_probe-too_many m count lt = (null_pointer, [], create-too_many m count lt, refl, refl)
