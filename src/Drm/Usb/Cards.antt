-- ===== src/Drm/Usb/Cards.antt =====
-- Finding a free pipeline, and putting a card back in its place.
use mathlib.Core.Path.{subst}
use lenovo_magicbay_hud_linu.Base.{
  ℕ, zero, suc, ◌+◌, ◌<◌, ◌≡◌, ◌∙◌, sym, ap, refl, Bool, true, false, Bool-cases, List, [], ◌∷◌,
  Option, none, some, inl, inr, arith, get_elem?, set, take, ◌==◌, if◌then◌else◌,
}
use lenovo_magicbay_hud_linu.Drm.{
  Pipeline, Card, has_free, find_free, has_free_pipeline, get_free_pipeline_index, get_free_device,
  card_index,
}
use lenovo_magicbay_hud_linu.Drm.Registry.{get-set, set-set, set-same}
use lenovo_magicbay_hud_linu.Drm.Usb.{put_card, card_at}

-- A free pipeline is found, and its number.
has_free-found :
    (ps : List Pipeline) (i : ℕ)
    → has_free ps ≡ true
    → (j : ℕ) × (p : Pipeline) × (find_free ps i ≡ some (i + j))
      × (get_elem? ps j ≡ some p)
      × (p.reg_flag ≡ false)
unfolding has_free find_free
has_free-found [] i h = cc
has_free-found (p ∷ ps) i h = elim (Bool-cases p.reg_flag) [
  | inr f ↦ (0, p, rw (find_free, f) (ap some (omega arith)), refl, f)
  | inl f ↦
      let h' : has_free ps ≡ true =
        sym (ap (λ (b : Bool). if b then has_free ps else true) f) ∙ h in
      let (j, q, e, g, free) = has_free-found ps (i + 1) h' in
      (suc j, q, rw (find_free, f) (e ∙ ap some (omega arith)), g, free)
]

get-take :
    {A : Type 0} (n : ℕ) (xs : List A) (j : ℕ) (x : A)
    → get_elem? (take n xs) j ≡ some x
    → (j < n) × (get_elem? xs j ≡ some x)
get-take zero xs j x e = cc
get-take (suc n) [] j x e = cc
get-take (suc n) (y ∷ ys) zero x e = (omega arith, e)
get-take (suc n) (y ∷ ys) (suc j) x e = let (lt, g) = get-take n ys j x e in (omega arith, g)

pub free_pipeline-found :
    (c : Card)
    → has_free_pipeline c ≡ true
    → (j : ℕ) × (p : Pipeline) × (get_free_pipeline_index c ≡ some j)
      × (j < c.pipeline_cnt)
      × (get_elem? c.pipeline j ≡ some p)
      × (p.reg_flag ≡ false)
unfolding has_free_pipeline get_free_pipeline_index
free_pipeline-found c h =
    let (j, p, e, g, f) = has_free-found (take c.pipeline_cnt c.pipeline) 0 h in
    let (lt, g') = get-take c.pipeline_cnt c.pipeline j p g in
    (j, p, e ∙ ap some (omega arith), lt, g', f)

-- The card that is found stands among the cards and has a free pipeline.
pub free_device-found :
    (cards : List (Option Card)) (c : Card)
    → get_free_device cards ≡ some c
    → (i : ℕ) × (get_elem? cards i ≡ some (some c)) × (has_free_pipeline c ≡ true)
unfolding get_free_device
free_device-found [] c e = cc
free_device-found (none ∷ cs) c e = let (i, g, h) = free_device-found cs c e in (suc i, g, h)
free_device-found (some x ∷ cs) c e = elim (Bool-cases (has_free_pipeline x)) [
  | inl h ↦
      let q : Path (Option Card) (some x) (some c) =
        sym (ap (λ (b : Bool). if b then some x else get_free_device cs) h) ∙ e in
      (0, ap some q, (let r : x ≡ c = cc in subst (λ y. has_free_pipeline y ≡ true) r h))
  | inr h ↦
      let q : get_free_device cs ≡ some c =
        sym (ap (λ (b : Bool). if b then some x else get_free_device cs) h) ∙ e in
      let (i, g, f) = free_device-found cs c q in (suc i, g, f)
]

-- A card with the same address does not move any.
pub card_index-set :
    (cs : List (Option Card)) (i : ℕ) (c c' : Card) (a k : ℕ)
    → get_elem? cs i ≡ some (some c)
    → c'.address ≡ c.address
    → card_index (set cs i (some c')) a k ≡ card_index cs a k
unfolding card_index
card_index-set [] i c c' a k e q = cc
card_index-set (none ∷ cs) zero c c' a k e q = cc
card_index-set (some x ∷ cs) zero c c' a k e q =
    let r : x ≡ c = cc in
    ap (λ n. if n == a then some k else card_index cs a (k + 1)) (q ∙ sym (ap (λ y. y.address) r))
card_index-set (none ∷ cs) (suc i) c c' a k e q = card_index-set cs i c c' a (k + 1) e q
card_index-set (some x ∷ cs) (suc i) c c' a k e q =
    ap (λ r. if x.address == a then some k else r) (card_index-set cs i c c' a (k + 1) e q)

-- The address of a card is that of no other.
abbrev pub IsAt : List (Option Card) → ℕ → Card → Type 0
IsAt cards i c = (get_elem? cards i ≡ some (some c)) × (card_index cards c.address 0 ≡ some i)

pub put_card-IsAt :
    (cards : List (Option Card)) (i : ℕ) (c c' : Card)
    → IsAt cards i c
    → c'.address ≡ c.address
    → (put_card cards c' ≡ set cards i (some c')) × IsAt (put_card cards c') i c'
unfolding put_card
put_card-IsAt cards i c c' (g, n) q =
    let n' : card_index cards c'.address 0 ≡ some i = ap (λ a. card_index cards a 0) q ∙ n in
    let e : put_card cards c' ≡ set cards i (some c') = rw (put_card, n') refl in
    (
      e,
      subst (λ cs. IsAt cs i c') (sym e)
          (get-set cards i (some c) (some c') g, card_index-set cards i c c' c'.address 0 g q ∙ n'),
    )

-- A card that is put back leaves all cards as they were.
pub put_card-back :
    (cards : List (Option Card)) (i : ℕ) (c c' : Card)
    → IsAt cards i c
    → c'.address ≡ c.address
    → put_card (put_card cards c') c ≡ cards
put_card-back cards i c c' (g, n) q =
    let (e, at) = put_card-IsAt cards i c c' (g, n) q in
    let (e', at') = put_card-IsAt (put_card cards c') i c' c at (sym q) in
    e'
    ∙ ap (λ cs. set cs i (some c)) e
    ∙ set-set cards i (some c') (some c)
    ∙ set-same cards i (some c) g

pub card_at-IsAt :
    (cards : List (Option Card)) (i : ℕ) (c : Card)
    → IsAt cards i c
    → card_at cards c.address ≡ some c
unfolding card_at
card_at-IsAt cards i c (g, n) = rw (card_at, n, g) refl
