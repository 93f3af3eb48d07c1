-- ===== src/Drm/Usb/Runs.antt =====
-- Displays that are plugged in and taken away, in any order.
use mathlib.Core.Path.{subst}
use lenovo_magicbay_hud_linu.Base.{
  ℕ, zero, suc, ◌≤◌, ◌≡◌, ◌∙◌, ◌⊎◌, sym, ap, refl, Bool, true, false, Bool-cases, List, [], ◌∷◌,
  Option, none, some, Option-cases, inl, inr, arith, get_elem?, set, leb, Outcome, ok, fail,
}
use lenovo_magicbay_hud_linu.Device.{Usb}
use lenovo_magicbay_hud_linu.Device.Ids.{HalId}
use lenovo_magicbay_hud_linu.Drm.{
  Pipeline, Card, max_pipeline_cnt, unregister_usb_hal, with_pipeline, card_index,
}
use lenovo_magicbay_hud_linu.Drm.Usb.{
  Surroundings, Driver, Attached, Probed, probe, disconnect, put_card, card_at, leave_card,
}
use lenovo_magicbay_hud_linu.Drm.Usb.Cards.{IsAt, put_card-IsAt, card_index-set}
use lenovo_magicbay_hud_linu.Drm.Usb.Probe.{
  IsReady, Ended, attached, refused, lost, taken_by, probe-Ended,
}

pub data Step : Driver → Driver → Type 0 where
  plug :
      (s : Surroundings) (id : HalId) (usb_hal : ℕ) (d : Driver) (u : Usb)
      → Step d (probe s id usb_hal d u).0.1
  unplug : (a : Attached) (d d' : Driver) → disconnect a d ≡ ok d' → Step d d'

pub data Run (d : Driver) : Driver → Type 0 where
  start : Run d d
  later : {e f : Driver} → Run d e → Step e f → Run d f

get-set-cases :
    {A : Type 0} (xs : List A) (i j : ℕ) (v y : A)
    → get_elem? (set xs i v) j ≡ some y
    → ((j ≡ i) × (v ≡ y)) ⊎ (get_elem? xs j ≡ some y)
get-set-cases [] i j v y e = inr e
get-set-cases (x ∷ xs) zero zero v y e = inl (refl, cc)
get-set-cases (x ∷ xs) zero (suc j) v y e = inr e
get-set-cases (x ∷ xs) (suc i) zero v y e = inr e
get-set-cases (x ∷ xs) (suc i) (suc j) v y e = elim (get-set-cases xs i j v y e) [
  | inl (q, r) ↦ inl (ap suc q, r)
  | inr f ↦ inr f
]

-- The free pipelines have no display.
abbrev Unused : List Pipeline → Type 0
Unused ps = (j : ℕ) (p : Pipeline) → get_elem? ps j ≡ some p → p.reg_flag ≡ false → p.usb_hal ≡ none

-- A card that takes the place of another with as many pipelines.
set-IsReady :
    (cards : List (Option Card)) (i : ℕ) (c c' : Card)
    → IsReady cards
    → get_elem? cards i ≡ some (some c)
    → c'.address ≡ c.address
    → c'.pipeline_cnt ≡ c.pipeline_cnt
    → Unused c'.pipeline
    → IsReady (set cards i (some c'))
set-IsReady cards i c c' ready here a n unused = record {
  own = λ j x e. elim (get-set-cases cards i j (some c') (some x) e) [
    | inl (q, r) ↦
        let same : c' ≡ x = cc in
        let at = put_card-IsAt cards i c c' (ready.own i c here) a in
        subst (λ k. IsAt (set cards i (some c')) k x) (sym q)
          (subst (IsAt (set cards i (some c')) i) same (subst (λ cs. IsAt cs i c') at.0 at.1))
    | inr f ↦ (e, card_index-set cards i c c' x.address 0 here a ∙ (ready.own j x f).1)
  ];
  few = λ j x e. elim (get-set-cases cards i j (some c') (some x) e) [
    | inl (q, r) ↦
        let same : c' ≡ x = cc in
        subst (λ y. y.pipeline_cnt ≤ max_pipeline_cnt) same (omega (arith, ready.few i c here))
    | inr f ↦ ready.few j x f
  ];
  unused = λ j k x p e g free. elim (get-set-cases cards i j (some c') (some x) e) [
    | inl (q, r) ↦
        let same : c' ≡ x = cc in
        unused k p (subst (λ y. get_elem? y.pipeline k ≡ some p) (sym same) g) free
    | inr f ↦ ready.unused j k x p f g free
  ];
}

set-Unused :
    (ps : List Pipeline) (i : ℕ) (p : Pipeline)
    → Unused ps
    → (p.reg_flag ≡ true) ⊎ (p.usb_hal ≡ none)
    → Unused (set ps i p)
set-Unused ps i p unused which j q e free = elim (get-set-cases ps i j p q e) [
  | inr f ↦ unused j q f free
  | inl (n, r) ↦ elim which [
    | inl busy ↦
        absurd (
          let x : Path Bool true false = sym busy ∙ ap (λ (y : Pipeline). y.reg_flag) r ∙ free in
          cc)
    | inr none_there ↦ sym (ap (λ (y : Pipeline). y.usb_hal) r) ∙ none_there
  ]
]

Ended-IsReady :
    {s : Surroundings} {id : HalId} {usb_hal : ℕ} {d : Driver} {u : Usb} {r : Probed}
    → Ended s id usb_hal d u r
    → IsReady d.cards
    → IsReady r.1.cards
Ended-IsReady (attached c i j p a d' m (here, at) (there, free) cards is gone) ready =
    subst IsReady (sym cards) (
      set-IsReady _ i c (with_pipeline c j (taken_by _ p)) ready here refl refl (
        set-Unused c.pipeline j (taken_by _ p) (λ k q e f. ready.unused i k c q here e f)
          (inl refl)))
Ended-IsReady (refused e m why) ready = ready
Ended-IsReady (lost m n why) ready = ready

-- What the unregistration leaves of a card.
unregister-cases :
    (j : ℕ) (c : Card)
    → ((unregister_usb_hal j c).1 ≡ c)
      ⊎ ((p : Pipeline) × ((unregister_usb_hal j c).1
            ≡ with_pipeline c j (record p { usb_hal = none; reg_flag = false })))
unfolding unregister_usb_hal
unregister-cases j c = elim (Bool-cases (leb max_pipeline_cnt j)) [
  | inl e ↦ inl (rw (unregister_usb_hal, e) refl)
  | inr e ↦ elim (Option-cases (get_elem? c.pipeline j)) [
    | inl n ↦ inl (rw (unregister_usb_hal, e, n) refl)
    | inr (p, n) ↦ inr (p, rw (unregister_usb_hal, e, n) refl)
  ]
]

card_at-found :
    (cards : List (Option Card)) (address : ℕ) (c : Card)
    → card_at cards address ≡ some c
    → (i : ℕ) × (get_elem? cards i ≡ some (some c))
unfolding card_at
card_at-found cards address c e = elim (Option-cases (card_index cards address 0)) [
  | inl n ↦ let q : Path (Option Card) none (some c) = sym (rw (card_at, n) refl) ∙ e in absurd (cc)
  | inr (i, n) ↦ elim (Option-cases (get_elem? cards i)) [
    | inl g ↦
        let q : Path (Option Card) none (some c) = sym (rw (card_at, n, g) refl) ∙ e in absurd (cc)
    | inr (x, g) ↦ let q : x ≡ some c = sym (rw (card_at, n, g) refl) ∙ e in (i, g ∙ ap some q)
  ]
]

put-IsReady :
    (cards : List (Option Card)) (i : ℕ) (c c' : Card)
    → IsReady cards
    → get_elem? cards i ≡ some (some c)
    → c'.address ≡ c.address
    → c'.pipeline_cnt ≡ c.pipeline_cnt
    → Unused c'.pipeline
    → IsReady (put_card cards c')
put-IsReady cards i c c' ready here a n unused =
    subst IsReady (sym (put_card-IsAt cards i c c' (ready.own i c here) a).0)
      (set-IsReady cards i c c' ready here a n unused)

leave-IsReady :
    (a : Attached) (d d' : Driver) (o : Option Card)
    → card_at d.cards a.drm ≡ o
    → leave_card a d o ≡ ok d'
    → IsReady d.cards
    → IsReady d'.cards
leave-IsReady a d d' none e q ready = cc
leave-IsReady a d d' (some c) e q ready =
    let c' = (unregister_usb_hal a.pipeline_index c).1 in
    let cards : put_card d.cards c' ≡ d'.cards =
      ap (λ (r : Outcome Driver). elim r [ ok x ↦ x.cards | fail x ↦ [] ]) q in
    let (i, here) = card_at-found d.cards a.drm c e in
    let unused : Unused c.pipeline = λ k p g f. ready.unused i k c p here g f in
    subst IsReady cards (elim (unregister-cases a.pipeline_index c) [
      | inl same ↦
          subst (λ x. IsReady (put_card d.cards x)) (sym same)
            (put-IsReady d.cards i c c ready here refl refl unused)
      | inr (p, out) ↦
          let off : Pipeline = record p { usb_hal = none; reg_flag = false } in
          subst (λ x. IsReady (put_card d.cards x)) (sym out)
            (put-IsReady d.cards i c (with_pipeline c a.pipeline_index off) ready here refl refl
              (set-Unused c.pipeline a.pipeline_index off unused (inr refl)))
    ])

Step-IsReady : {d d' : Driver} → Step d d' → IsReady d.cards → IsReady d'.cards
unfolding disconnect
Step-IsReady (plug s id usb_hal d u) ready =
    Ended-IsReady (probe-Ended s id usb_hal d u ready) ready
Step-IsReady (unplug a d d' e) ready = leave-IsReady a d d' (card_at d.cards a.drm) refl e ready

-- In every run the cards stay ready.
Run-IsReady : {d d' : Driver} → Run d d' → IsReady d.cards → IsReady d'.cards
Run-IsReady start ready = ready
Run-IsReady (later r s) ready = Step-IsReady s (Run-IsReady r ready)

-- Let each card have an address of its own and at most three pipelines, and let the free ones be
-- without a display. Then after any run of probes, whatever becomes of each, and of displays taken
-- away, a probe ends in one of three ways. The display is attached to a free pipeline of a card,
-- which is then its own, `enable` is called with the pipeline's mode if that is on, and
-- `msdisp_usb_disconnect` afterwards restores the cards, the heap and the references, but for the
-- number of requests. Or the probe returns an error and changes nothing but that number, and then
-- there is no memory, no support for the device or no free pipeline, or the display was not
-- brought up. Or a request was refused and the buffers of the pictures stay allocated.
pub probe-Run :
    (s : Surroundings) (id : HalId) (usb_hal : ℕ) (d d' : Driver) (u : Usb)
    → IsReady d.cards
    → Run d d'
    → Ended s id usb_hal d' u (probe s id usb_hal d' u).0
probe-Run s id usb_hal d d' u ready r = probe-Ended s id usb_hal d' u (Run-IsReady r ready)
