-- ===== src/Drm/Usb/Probe.antt =====
-- What becomes of a display that is plugged in, and that taking it away undoes this.
use mathlib.Core.Path.{subst}
use lenovo_magicbay_hud_linu.Base.{
  set, ℕ, ◌≤◌, ◌<◌, ◌≡◌, ◌∙◌, ◌⊎◌, sym, ap, ap₂, refl, true, false, not, ◌||◌, Bool-cases, List, [],
  Option, none, some, inl, inr, arith, get_elem?, leb, Errno, enodev, enoent, enomem, ok, fail,
}
use lenovo_magicbay_hud_linu.Device.{Usb}
use lenovo_magicbay_hud_linu.Device.Ids.{HalId, find_usb_hal}
use lenovo_magicbay_hud_linu.Hal.Buffers.Blocks.{Refuses}
use lenovo_magicbay_hud_linu.Hal.Bringup.{Resources, Brought, hal_destroy}
use lenovo_magicbay_hud_linu.Hal.Bringup.Ends.{
  Balanced, Cause, back, with_pictures, up, down, leaking,
}
use lenovo_magicbay_hud_linu.Hal.Bringup.Balance.{hal_init-Balanced}
use lenovo_magicbay_hud_linu.Drm.{
  Pipeline, Card, max_pipeline_cnt, enable_calls, unregister_usb_hal, with_pipeline,
  get_free_device,
}
use lenovo_magicbay_hud_linu.Drm.Registry.{register_round_trip, register-free}
use lenovo_magicbay_hud_linu.Drm.Usb.{
  Surroundings, Driver, Attached, Probed, probe, disconnect, put_card, card_at, registered, refuse,
  with_display, with_index, with_card, leave_card, hal_or, usb_add_custom_mode,
}
use lenovo_magicbay_hud_linu.Drm.Usb.Cards.{
  IsAt, put_card-IsAt, put_card-back, card_at-IsAt, free_device-found, free_pipeline-found,
}

-- Each card has an address of its own and at most three pipelines, and a free one has no display.
pub record IsReady (cards : List (Option Card)) : Type 0 where
  pub own : (i : ℕ) (c : Card) → get_elem? cards i ≡ some (some c) → IsAt cards i c
  pub few :
      (i : ℕ) (c : Card) → get_elem? cards i ≡ some (some c) → c.pipeline_cnt ≤ max_pipeline_cnt
  pub unused :
      (i j : ℕ) (c : Card) (p : Pipeline)
      → get_elem? cards i ≡ some (some c)
      → get_elem? c.pipeline j ≡ some p
      → p.reg_flag ≡ false
      → p.usb_hal ≡ none

-- Why a display is not attached.
pub data Why (s : Surroundings) (id : HalId) (d : Driver) (u : Usb) : Type 0 where
  no_memory : (s.usb_dev ≡ false) ⊎ (s.usb_hal ≡ false) → Why s id d u
  unsupported : find_usb_hal id ≡ false → Why s id d u
  no_pipeline : get_free_device d.cards ≡ none → Why s id d u
  not_brought_up : Cause s.kernel id u → Why s id d u

abbrev pub taken_by : ℕ → Pipeline → Pipeline
taken_by usb_hal p = record p { usb_hal = some usb_hal; reg_flag = true }

-- How a probe may end.
pub data Ended (s : Surroundings) (id : HalId) (usb_hal : ℕ) (d : Driver) (u : Usb)
    : Probed → Type 0 where
  attached :
      (c : Card) (i j : ℕ) (p : Pipeline) (a : Attached) (d' : Driver) (m : ℕ)
      → IsAt d.cards i c
      → (get_elem? c.pipeline j ≡ some p) × (p.reg_flag ≡ false)
      → d'.cards ≡ set d.cards i (some (with_pipeline c j (taken_by usb_hal p)))
      → (a.pipeline_index ≡ j) × (a.drm ≡ c.address) × (a.usb_hal ≡ usb_hal)
      → disconnect a d' ≡ ok (record d { resources = back d.resources m })
      → Ended s id usb_hal d u (ok a, d', enable_calls p usb_hal)
  refused :
      (e : Errno) (m : ℕ)
      → Why s id d u
      → Ended s id usb_hal d u (fail e, record d { resources = back d.resources m }, [])
  lost :
      (m n : ℕ)
      → Refuses s.kernel
      → Ended s id usb_hal d u
          (fail enodev, record d { resources = with_pictures d.resources m n }, [])

module _ (s : Surroundings) (id : HalId) (usb_hal : ℕ) (d : Driver) (u : Usb) (c : Card) (i j : ℕ)
    (p : Pipeline) (at : IsAt d.cards i c) (lt : j < max_pipeline_cnt)
    (there : get_elem? c.pipeline j ≡ some p) (free : p.reg_flag ≡ false)
    (unused : p.usb_hal ≡ none) where
  disconnect-put :
      (a : Attached) (w : Resources) (m : ℕ)
      → a.pipeline_index ≡ j
      → a.drm ≡ c.address
      → hal_destroy a.display w ≡ back d.resources m
      → disconnect a (record d {
        cards = put_card d.cards (with_pipeline c j (taken_by usb_hal p));
        resources = w;
      })
        ≡ ok (record d { resources = back d.resources m })
  unfolding disconnect
  disconnect-put a w m e f g =
      let c' = with_pipeline c j (taken_by usb_hal p) in
      let l : leb max_pipeline_cnt j ≡ false = ground arith in
      let (put, at') = put_card-IsAt d.cards i c c' at refl in
      let (one, two, three, gone) = register_round_trip j usb_hal 0 c p lt there free unused in
      let left : unregister_usb_hal j c' ≡ (ok tt, c) =
        ap (λ r. unregister_usb_hal j r.1) (sym (register-free j usb_hal c p l there free))
        ∙ gone in
      let here : card_at (put_card d.cards c') a.drm ≡ some c' =
        ap (card_at (put_card d.cards c')) f ∙ card_at-IsAt (put_card d.cards c') i c' at' in
      let out : (unregister_usb_hal a.pipeline_index c').1 ≡ c =
        ap (λ n. (unregister_usb_hal n c').1) e ∙ ap (λ r. r.1) left in
      ap (leave_card a (record d { cards = put_card d.cards c'; resources = w })) here
      ∙ ap₂ (λ cs r. ok (record d { cards = cs; resources = r }))
          (ap (put_card (put_card d.cards c')) out ∙ put_card-back d.cards i c c' at refl) g

  display-Ended :
      (x : Brought) (v : Usb)
      → Balanced s.kernel id u d.resources x
      → Ended s id usb_hal d u (with_display s usb_hal d c j (x, v)).0
  unfolding hal_destroy
  display-Ended _ v (up q w m e) =
      let r = (usb_add_custom_mode s d.modes q.hal v).0 in
      let a : Attached = record {
        usb_hal = usb_hal;
        drm = c.address;
        pipeline_index = j;
        display = record q { hal = hal_or q.hal r };
      } in
      let l : leb max_pipeline_cnt j ≡ false = ground arith in
      let c' = with_pipeline c j (taken_by usb_hal p) in
      subst (λ x. Ended s id usb_hal d u (registered a (record d { resources = w }) x))
        (sym (register-free j usb_hal c p l there free))
        (attached c i j p a (record d { cards = put_card d.cards c'; resources = w }) m at
          (there, free) (put_card-IsAt d.cards i c c' at refl).0 (refl, refl, refl)
          (disconnect-put a w m refl refl e))
  display-Ended _ v (down m why) = refused enodev m (not_brought_up why)
  display-Ended _ v (leaking m n why) = lost m n why

-- What is refused before anything is taken leaves everything as it was.
refuse-Ended :
    (s : Surroundings) (id : HalId) (usb_hal : ℕ) (d : Driver) (u : Usb) (e : Errno)
    → Why s id d u
    → Ended s id usb_hal d u (refuse e d u).0
refuse-Ended s id usb_hal d u e why = refused e d.resources.heap.requests why

index-Ended :
    (s : Surroundings) (id : HalId) (usb_hal : ℕ) (d : Driver) (u : Usb) (c : Card) (i j : ℕ)
    (p : Pipeline)
    → IsReady d.cards
    → get_elem? d.cards i ≡ some (some c)
    → j < c.pipeline_cnt
    → get_elem? c.pipeline j ≡ some p
    → p.reg_flag ≡ false
    → Ended s id usb_hal d u (with_index s id usb_hal d u c (some j)).0
index-Ended s id usb_hal d u c i j p ready here lt there free =
    let below : j < max_pipeline_cnt = omega (arith, ready.few i c here) in
    let l : leb max_pipeline_cnt j ≡ false = ground arith in
    rw l (
      display-Ended s id usb_hal d u c i j p (ready.own i c here) below there free
        (ready.unused i j c p here there free) _ _
        (hal_init-Balanced s.kernel s.now id _ s.dma_dev d.resources u))

card-Ended :
    (s : Surroundings) (id : HalId) (usb_hal : ℕ) (d : Driver) (u : Usb)
    → IsReady d.cards
    → (o : Option Card) → get_free_device d.cards ≡ o
    → Ended s id usb_hal d u (with_card s id usb_hal d u o).0
card-Ended s id usb_hal d u ready none e = refuse-Ended s id usb_hal d u enodev (no_pipeline e)
card-Ended s id usb_hal d u ready (some c) e =
    let (i, here, has) = free_device-found d.cards c e in
    let (j, p, found, lt, there, free) = free_pipeline-found c has in
    subst (λ o. Ended s id usb_hal d u (with_index s id usb_hal d u c o).0) (sym found)
      (index-Ended s id usb_hal d u c i j p ready here lt there free)

-- From ready cards a probe ends in one of the three ways of `Ended`.
pub probe-Ended :
    (s : Surroundings) (id : HalId) (usb_hal : ℕ) (d : Driver) (u : Usb)
    → IsReady d.cards
    → Ended s id usb_hal d u (probe s id usb_hal d u).0
unfolding probe
probe-Ended s id usb_hal d u ready = elim (Bool-cases (not s.usb_dev || not s.usb_hal)) [
  | inl e ↦ rw (probe, e) (refuse-Ended s id usb_hal d u enomem (no_memory (ground arith)))
  | inr e ↦ elim (Bool-cases (find_usb_hal id)) [
    | inl f ↦ rw (probe, e, f) (card-Ended s id usb_hal d u ready (get_free_device d.cards) refl)
    | inr f ↦ rw (probe, e, f) (refuse-Ended s id usb_hal d u enoent (unsupported f))
  ]
]
