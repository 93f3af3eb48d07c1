-- ===== src/Drm/Registry.antt =====
-- Taking and giving back the pipelines.
use lenovo_magicbay_hud_linu.Base.{
  ℕ, zero, suc, ◌+◌, ◌*◌, ◌<◌, ◌≤◌, ◌≡◌, ◌∙◌, refl, sym, ap, Bool, true, false, List, [], ◌∷◌,
  get_elem?, set, Option, none, some, leb, Bool-cases, Option-cases, inl, inr, Outcome, ok, fail,
  ebusy, arith, ==_iff, ◌==◌, if◌then◌else◌,
}
use lenovo_magicbay_hud_linu.Drm.{
  EnableCall, Pipeline, Card, max_pipeline_cnt, card_index, get_pipeline_global_id,
  register_usb_hal, unregister_usb_hal, with_pipeline, enable_calls,
}

some-inj : (a b : ℕ) → Path (Option ℕ) (some a) (some b) → a ≡ b
some-inj a b p = cc

card_index-hit :
    (c : Card) (cs : List (Option Card)) (a i : ℕ)
    → (c.address == a) ≡ true
    → card_index (some c ∷ cs) a i ≡ some i
unfolding card_index
card_index-hit c cs a i e = rw (card_index, e)

card_index-miss :
    (c : Card) (cs : List (Option Card)) (a i : ℕ)
    → (c.address == a) ≡ false
    → card_index (some c ∷ cs) a i ≡ card_index cs a (i + 1)
unfolding card_index
card_index-miss c cs a i e = rw (card_index, e)

card_index-from : (cards : List (Option Card)) (a i j : ℕ) → card_index cards a i ≡ some j → i ≤ j
unfolding card_index
card_index-from [] a i j p = ground (arith, p)
card_index-from (none ∷ cs) a i j p = omega (arith, card_index-from cs a (i + 1) j p)
card_index-from (some c ∷ cs) a i j p = elim (Bool-cases (c.address == a)) [
  | inl e ↦ let q = some-inj i j (sym (card_index-hit c cs a i e) ∙ p) in omega arith
  | inr e ↦ omega (arith, card_index-from cs a (i + 1) j (sym (card_index-miss c cs a i e) ∙ p))
]

-- A number of a card is that of one address only.
card_index_unique :
    (cards : List (Option Card)) (a b i j : ℕ)
    → card_index cards a i ≡ some j
    → card_index cards b i ≡ some j
    → a ≡ b
unfolding card_index
card_index_unique [] a b i j p q = ground (arith, p)
card_index_unique (none ∷ cs) a b i j p q = card_index_unique cs a b (i + 1) j p q
card_index_unique (some c ∷ cs) a b i j p q = elim (Bool-cases (c.address == a)) [
  | inl e ↦ elim (Bool-cases (c.address == b)) [
    | inl f ↦ sym ((==_iff _ _).0 e) ∙ (==_iff _ _).0 f
    | inr f ↦
        let x = some-inj i j (sym (card_index-hit c cs a i e) ∙ p) in
        absurd
          (omega (arith, x, card_index-from cs b (i + 1) j (sym (card_index-miss c cs b i f) ∙ q)))
  ]
  | inr e ↦ elim (Bool-cases (c.address == b)) [
    | inl f ↦
        let x = some-inj i j (sym (card_index-hit c cs b i f) ∙ q) in
        absurd
          (omega (arith, x, card_index-from cs a (i + 1) j (sym (card_index-miss c cs a i e) ∙ p)))
    | inr f ↦
        card_index_unique cs a b (i + 1) j (sym (card_index-miss c cs a i e) ∙ p)
          (sym (card_index-miss c cs b i f) ∙ q)
  ]
]

global_id-parts :
    (cards : List (Option Card)) (a x id : ℕ)
    → get_pipeline_global_id cards a x ≡ some id
    → (x < 3) × ((i : ℕ) × (card_index cards a 0 ≡ some i) × (i * 3 + x ≡ id))
unfolding get_pipeline_global_id
global_id-parts cards a x id p = elim (Bool-cases (leb 3 x)) [
  | inl e ↦
      let z : get_pipeline_global_id cards a x ≡ none = rw (get_pipeline_global_id, e) in
      absurd (ground (arith, sym z ∙ p))
  | inr e ↦ elim (Option-cases (card_index cards a 0)) [
    | inl n ↦
        let z : get_pipeline_global_id cards a x ≡ none = rw (get_pipeline_global_id, e, n) in
        absurd (ground (arith, sym z ∙ p))
    | inr (i, n) ↦
        let z : get_pipeline_global_id cards a x ≡ some (i * 3 + x) =
          rw (get_pipeline_global_id, e, n) in
        (ground arith, (i, n, some-inj _ _ (sym z ∙ p)))
  ]
]

-- If two pipelines have the same global identifier, they have the same number on the same card.
global_id_injective :
    (cards : List (Option Card)) (a b x y id : ℕ)
    → get_pipeline_global_id cards a x ≡ some id
    → get_pipeline_global_id cards b y ≡ some id
    → (a ≡ b) × (x ≡ y)
global_id_injective cards a b x y id p q =
    let (lx, (i, ci, e)) = global_id-parts cards a x id p in
    let (ly, (j, cj, f)) = global_id-parts cards b y id q in
    let ij : i ≡ j = omega arith in
    (card_index_unique cards a b 0 j (ci ∙ ap some ij) cj, omega arith)

pub set-set : {A : Type 0} (xs : List A) (i : ℕ) (v w : A) → set (set xs i v) i w ≡ set xs i w
set-set [] i v w = refl
set-set (x ∷ xs) zero v w = refl
set-set (x ∷ xs) (suc i) v w = ap (λ l. x ∷ l) (set-set xs i v w)

pub set-same :
    {A : Type 0} (xs : List A) (i : ℕ) (v : A) → get_elem? xs i ≡ some v → set xs i v ≡ xs
set-same [] i v e = refl
set-same (x ∷ xs) zero v e = let q : x ≡ v = cc in rw q
set-same (x ∷ xs) (suc i) v e = ap (λ l. x ∷ l) (set-same xs i v e)

pub get-set :
    {A : Type 0} (xs : List A) (i : ℕ) (v w : A)
    → get_elem? xs i ≡ some v
    → get_elem? (set xs i w) i ≡ some w
get-set [] i v w e = ground (arith, e)
get-set (x ∷ xs) zero v w e = refl
get-set (x ∷ xs) (suc i) v w e = get-set xs i v w e

-- What the registration does with a pipeline, by its `reg_flag`.
abbrev taken_if : ℕ → ℕ → Card → Pipeline → Bool → Outcome (Unit {0}) × Card × List EnableCall
taken_if index usb_hal c p busy = if busy then (fail ebusy, c, []) else (
  ok tt,
  with_pipeline c index (record p { usb_hal = some usb_hal; reg_flag = true }),
  enable_calls p usb_hal,
)

register-known :
    (index usb_hal : ℕ) (c : Card) (p : Pipeline)
    → leb max_pipeline_cnt index ≡ false
    → get_elem? c.pipeline index ≡ some p
    → register_usb_hal index usb_hal c ≡ taken_if index usb_hal c p p.reg_flag
unfolding register_usb_hal
register-known index usb_hal c p lt e = rw (register_usb_hal, lt, e)

pub register-free :
    (index usb_hal : ℕ) (c : Card) (p : Pipeline)
    → leb max_pipeline_cnt index ≡ false
    → get_elem? c.pipeline index ≡ some p
    → p.reg_flag ≡ false
    → register_usb_hal index usb_hal c ≡ (
      ok tt,
      with_pipeline c index (record p { usb_hal = some usb_hal; reg_flag = true }),
      enable_calls p usb_hal,
    )
register-free index usb_hal c p lt e f =
    register-known index usb_hal c p lt e ∙ ap (taken_if index usb_hal c p) f

register-busy :
    (index usb_hal : ℕ) (c : Card) (p : Pipeline)
    → leb max_pipeline_cnt index ≡ false
    → get_elem? c.pipeline index ≡ some p
    → p.reg_flag ≡ true
    → register_usb_hal index usb_hal c ≡ (fail ebusy, c, [])
register-busy index usb_hal c p lt e f =
    register-known index usb_hal c p lt e ∙ ap (taken_if index usb_hal c p) f

unregister-known :
    (index : ℕ) (c : Card) (p : Pipeline)
    → leb max_pipeline_cnt index ≡ false
    → get_elem? c.pipeline index ≡ some p
    → unregister_usb_hal index c
      ≡ (ok tt, with_pipeline c index (record p { usb_hal = none; reg_flag = false }))
unfolding unregister_usb_hal
unregister-known index c p lt e = rw (unregister_usb_hal, lt, e)

-- A free pipeline without a display takes one, is then busy for any other, and is as before once
-- the display is gone; `enable` is called with the pipeline's own mode if it is on, and not
-- otherwise.
pub register_round_trip :
    (index usb_hal other : ℕ) (c : Card) (p : Pipeline)
    → index < max_pipeline_cnt
    → get_elem? c.pipeline index ≡ some p
    → p.reg_flag ≡ false
    → p.usb_hal ≡ none
    → let r = register_usb_hal index usb_hal c in
      (r.0 ≡ ok tt)
      × (r.2 ≡ enable_calls p usb_hal)
      × (register_usb_hal index other r.1 ≡ (fail ebusy, r.1, []))
      × (unregister_usb_hal index r.1 ≡ (ok tt, c))
register_round_trip index usb_hal other c p lt e f n =
    let taken : Pipeline = record p { usb_hal = some usb_hal; reg_flag = true } in
    let l : leb max_pipeline_cnt index ≡ false = ground arith in
    let s = register-free index usb_hal c p l e f in
    let g = get-set c.pipeline index p taken e in
    let c' = with_pipeline c index taken in
    let b = register-busy index other c' taken l g refl in
    let u = unregister-known index c' taken l g in
    let z : record p { usb_hal = none; reg_flag = false } ≡ p = rw⁻¹ (f, n) in
    (
      ap (λ r. r.0) s,
      ap (λ r. r.2) s,
      ap (λ r. register_usb_hal index other r.1) s
          ∙ b
          ∙ ap (λ k. (fail ebusy, k, [])) (sym (ap (λ r. r.1) s)),
      ap (λ r. unregister_usb_hal index r.1) s
          ∙ u
          ∙ ap (λ k. (ok tt, record c { pipeline = k }))
              (set-set c.pipeline index taken (record p { usb_hal = none; reg_flag = false })
                ∙ ap (set c.pipeline index) z
                ∙ set-same c.pipeline index p e),
    )
