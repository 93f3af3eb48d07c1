-- ===== src/Hal/Modes/Accept.antt =====
-- Which modes are accepted, and what the calls leave behind.
use lenovo_magicbay_hud_linu.Base.{
  Errno, ℕ, ◌+◌, ◌^◌, ◌≤◌, ◌<◌, ◌≡◌, ◌∙◌, refl, ap, sym, true, false, List, [], ◌∷◌, ◌++◌, length,
  length-append, none, some, Option-cases, Bool-cases, ◌⊎◌, inl, inr, leb, u8, u16, Outcome, ok,
  fail, erange, if◌then◌else◌, arith,
}
use lenovo_magicbay_hud_linu.Device.Modes.{get_mode_vic}
use lenovo_magicbay_hud_linu.Hal.{Hal, Mode}
use lenovo_magicbay_hud_linu.Hal.Modes.{
  is_support_fourcc, same_mode, find_custom, check_mode_for_custom_mode, video_mode_valid,
  min_sram_size, get_vic, find_desc, FormatDesc, add_custom_mode, max_custom_mode,
}

-- The fields fit the widths that the search of the mode table casts to.
pub record InRange (m : Mode) : Type 0 where
  pub width_lt : m.width < 2 ^ 16
  pub height_lt : m.height < 2 ^ 16
  pub rate_lt : m.rate < 2 ^ 8

pub Outcome-cases :
    {A : Type 0} (o : Outcome A) → ((a : A) × (o ≡ ok a)) ⊎ ((e : Errno) × (o ≡ fail e))
Outcome-cases (ok a) = inl (a, refl)
Outcome-cases (fail e) = inr (e, refl)

-- A mode that `usb_hal_video_mode_valid` accepts, whose fields are not cut off, has a VIC.
pub video_mode_valid-get_vic :
    (h : Hal) (m : Mode)
    → InRange m
    → video_mode_valid h m ≡ ok tt
    → (vic : ℕ) × (get_vic h m.width m.height m.rate ≡ ok vic)
unfolding video_mode_valid get_vic check_mode_for_custom_mode
video_mode_valid-get_vic h m r v =
    let w : u16 m.width ≡ m.width = let p = r.width_lt in omega arith in
    let g : u16 m.height ≡ m.height = let p = r.height_lt in omega arith in
    let q : u8 m.rate ≡ m.rate = let p = r.rate_lt in omega arith in
    elim (Option-cases (find_custom h.custom_mode m.width m.height m.rate)) [
      | inr (c, e) ↦ (c.vic, rw (get_vic, e))
      | inl e ↦ elim (Outcome-cases (get_mode_vic m.width m.height m.rate)) [
        | inl (vic, o) ↦ (vic, rw (get_vic, e, o))
        | inr (x, o) ↦
            let z : video_mode_valid h m ≡ fail x =
              rw (video_mode_valid, check_mode_for_custom_mode, e, w, g, q, o) in
            absurd (ground (arith, (sym v ∙ z)))
      ]
    ]

find_custom-append :
    (ms : List Mode) (m : Mode) (width height rate : ℕ)
    → find_custom (ms ++ (m ∷ [])) width height rate ≡ (elim (find_custom ms width height rate) [
      | some x ↦ some x
      | none ↦ if same_mode m width height rate then some m else none
    ])
unfolding find_custom
find_custom-append [] m width height rate = refl
find_custom-append (x ∷ ms) m width height rate =
    elim (Bool-cases (same_mode x width height rate)) [
      | inl e ↦ rw (find_custom, e)
      | inr e ↦ let ih = find_custom-append ms m width height rate in rw (find_custom, e) ih
    ]

custom-valid :
    (h : Hal) (m c : Mode)
    → find_custom h.custom_mode m.width m.height m.rate ≡ some c
    → video_mode_valid h m ≡ ok tt
unfolding video_mode_valid check_mode_for_custom_mode
custom-valid h m c e = rw (video_mode_valid, check_mode_for_custom_mode, e)

abbrev with_modes : Hal → List Mode → Hal
with_modes h ms = record h { custom_mode = ms }

valid-append :
    (h : Hal) (m n : Mode)
    → video_mode_valid h m ≡ ok tt
    → video_mode_valid (with_modes h (h.custom_mode ++ (n ∷ []))) m ≡ ok tt
unfolding video_mode_valid check_mode_for_custom_mode
valid-append h m n v =
    let a = find_custom-append h.custom_mode n m.width m.height m.rate in
    let h' = with_modes h (h.custom_mode ++ (n ∷ [])) in
    elim (Option-cases (find_custom h.custom_mode m.width m.height m.rate)) [
      | inr (c, e) ↦ custom-valid h' m c (a ∙ rw e)
      | inl e ↦ elim (Bool-cases (same_mode n m.width m.height m.rate)) [
        | inl t ↦ custom-valid h' m n (a ∙ rw (e, t))
        | inr t ↦
            let b : find_custom h'.custom_mode m.width m.height m.rate ≡ none = a ∙ rw (e, t) in
            let q : video_mode_valid h' m ≡ video_mode_valid h m =
              rw (video_mode_valid, check_mode_for_custom_mode, b, e) in
            q ∙ v
      ]
    ]

add_custom_mode-room :
    (width height rate vic : ℕ) (h : Hal)
    → leb max_custom_mode (length h.custom_mode) ≡ false
    → add_custom_mode width height rate vic h ≡ (
      ok tt,
      with_modes h (
          h.custom_mode
          ++ (record { width = u16 width; height = u16 height; rate = u16 rate; vic = u8 vic }
              ∷ [])),
    )
unfolding add_custom_mode
add_custom_mode-room width height rate vic h e = rw (add_custom_mode, e)

add_custom_mode-full :
    (width height rate vic : ℕ) (h : Hal)
    → leb max_custom_mode (length h.custom_mode) ≡ true
    → add_custom_mode width height rate vic h ≡ (fail erange, h)
unfolding add_custom_mode
add_custom_mode-full width height rate vic h e = rw (add_custom_mode, e)

-- The entry of a mode whose fields fit is the mode.
entry-InRange :
    (m : Mode)
    → InRange m
    → m.vic < 2 ^ 8
    → record { width = u16 m.width; height = u16 m.height; rate = u16 m.rate; vic = u8 m.vic } ≡ m
entry-InRange m r lt =
    let w : u16 m.width ≡ m.width = let p = r.width_lt in omega arith in
    let g : u16 m.height ≡ m.height = let p = r.height_lt in omega arith in
    let q : u16 m.rate ≡ m.rate = let p = r.rate_lt in omega arith in
    let v : u8 m.vic ≡ m.vic = omega arith in rw (w, g, q, v)

same_mode_refl : (m : Mode) → same_mode m m.width m.height m.rate ≡ true
same_mode_refl m = ground arith

appended-valid :
    (h : Hal) (m : Mode) → video_mode_valid (with_modes h (h.custom_mode ++ (m ∷ []))) m ≡ ok tt
appended-valid h m =
    let a = find_custom-append h.custom_mode m m.width m.height m.rate in
    let h' = with_modes h (h.custom_mode ++ (m ∷ [])) in
    elim (Option-cases (find_custom h.custom_mode m.width m.height m.rate)) [
      | inr (c, e) ↦ custom-valid h' m c (a ∙ rw e)
      | inl e ↦ custom-valid h' m m (a ∙ rw (e, same_mode_refl m))
    ]

-- While fewer than sixteen custom modes are set, a mode whose fields are not cut off can be added;
-- it is accepted from then on, and so is every mode that was accepted before.
add_custom_mode_accepts :
    (m : Mode) (h : Hal)
    → InRange m
    → m.vic < 2 ^ 8
    → length h.custom_mode < max_custom_mode
    → let r = add_custom_mode m.width m.height m.rate m.vic h in
      (r.0 ≡ ok tt)
      × ((video_mode_valid r.1 m ≡ ok tt)
          × ((n : Mode) → video_mode_valid h n ≡ ok tt → video_mode_valid r.1 n ≡ ok tt))
add_custom_mode_accepts m h r lt room =
    let e =
      add_custom_mode-room m.width m.height m.rate m.vic h (ground arith)
      ∙ ap (λ n. (ok tt, with_modes h (h.custom_mode ++ (n ∷ [])))) (entry-InRange m r lt) in
    let e1 = ap (λ p. p.1) e in
    (
      ap (λ p. p.0) e,
      (
        ap (λ g. video_mode_valid g m) e1 ∙ appended-valid h m,
        λ n v. ap (λ g. video_mode_valid g n) e1 ∙ valid-append h n m v,
      ),
    )

-- If there are at most sixteen custom modes, there are at most sixteen after another is added; if
-- there are sixteen already, it is refused and nothing changes.
add_custom_mode_bound :
    (width height rate vic : ℕ) (h : Hal)
    → length h.custom_mode ≤ max_custom_mode
    → let r = add_custom_mode width height rate vic h in
      (length r.1.custom_mode ≤ max_custom_mode)
      × ((length h.custom_mode ≡ max_custom_mode → r ≡ (fail erange, h)))
add_custom_mode_bound width height rate vic h le =
    elim (Bool-cases (leb max_custom_mode (length h.custom_mode))) [
      | inl e ↦
          let f = add_custom_mode-full width height rate vic h e in
          (let q = ap (λ p. length p.1.custom_mode) f in omega (arith, q, le), λ n. f)
      | inr e ↦
          let f = add_custom_mode-room width height rate vic h e in
          let q : length (add_custom_mode width height rate vic h).1.custom_mode
              ≡ length h.custom_mode + 1 =
            ap (λ p. length p.1.custom_mode) f ∙ length-append h.custom_mode _ in
          let lt : length h.custom_mode < 16 = ground (arith, e) in
          (omega arith, λ n. absurd (omega arith))
    ]

-- The VIC has no part in it.
pub valid-vic :
    (h : Hal) (m : Mode) (vic : ℕ)
    → video_mode_valid h (record m { vic = vic }) ≡ video_mode_valid h m
unfolding video_mode_valid check_mode_for_custom_mode min_sram_size
valid-vic h m vic = refl

pub support-find_desc :
    (fourcc : ℕ) → is_support_fourcc fourcc ≡ true → (d : FormatDesc) × (find_desc fourcc ≡ some d)
unfolding is_support_fourcc
support-find_desc fourcc s = elim (Option-cases (find_desc fourcc)) [
  | inl e ↦
      let z : is_support_fourcc fourcc ≡ false = rw (is_support_fourcc, e) in
      absurd (ground (arith, s, z))
  | inr (d, e) ↦ (d, e)
]
