-- ===== src/Device/Modes/Table.antt =====
-- The search of the mode table against the table.
use lenovo_magicbay_hud_linu.Base.{
  ◌↔◌, ℕ, ◌≡◌, ◌∙◌, refl, ap, sym, Bool, true, false, ◌&&◌, List, [], ◌∷◌, ◌==◌, ==_iff, arith, ok,
  Outcome, fail, inl, inr, ◌⊎◌, Bool-cases,
}
use lenovo_magicbay_hud_linu.Device.Modes.{VideoMode, support_mode, find_vic, get_mode_vic}

-- The mode is an entry of the table.
abbrev Listed : VideoMode → List VideoMode → Type 0
Listed m [] = ⊥
Listed m (x ∷ xs) = (m ≡ x) ⊎ Listed m xs

abbrev every : List VideoMode → (VideoMode → Bool) → Bool
every [] p = true
every (m ∷ ms) p = p m && every ms p

every-Listed :
    (ms : List VideoMode) (p : VideoMode → Bool) (m : VideoMode)
    → every ms p ≡ true
    → Listed m ms
    → p m ≡ true
every-Listed [] p m h l = absurd l
every-Listed (x ∷ xs) p m h (inl e) = rw e (ground (arith, h))
every-Listed (x ∷ xs) p m h (inr l) = every-Listed xs p m (ground (arith, h)) l

abbrev is_vic : ℕ → Outcome ℕ → Bool
is_vic vic (ok v) = v == vic
is_vic vic (fail e) = false

is_vic_sound : (vic : ℕ) (o : Outcome ℕ) → is_vic vic o ≡ true → o ≡ ok vic
is_vic_sound vic (ok v) h = ap ok ((==_iff v vic).0 h)
is_vic_sound vic (fail e) h = ground (arith, h)

each_found :
    every support_mode (λ m. is_vic m.vic (get_mode_vic m.width m.height m.refresh_rate)) ≡ true
unfolding support_mode get_mode_vic find_vic
each_found = refl

find_vic-Listed :
    (ms : List VideoMode) (width height rate vic : ℕ)
    → find_vic ms width height rate ≡ ok vic
    → Listed (record { vic = vic; refresh_rate = rate; width = width; height = height }) ms
unfolding find_vic
find_vic-Listed [] width height rate vic h = ground (arith, h)
find_vic-Listed (m ∷ ms) width height rate vic h =
    let test = width == m.width && (height == m.height && rate == m.refresh_rate) in
    elim (Bool-cases test) [
      | inl e ↦
          let p : width ≡ m.width = (==_iff _ _).0 (ground (arith, e)) in
          let q : height ≡ m.height = (==_iff _ _).0 (ground (arith, e)) in
          let r : rate ≡ m.refresh_rate = (==_iff _ _).0 (ground (arith, e)) in
          let o : ok vic ≡ ok m.vic = sym h ∙ rw (find_vic, e) in
          let v : vic ≡ m.vic = ground (arith, o) in inl (rw (p, q, r, v))
      | inr e ↦
          let o : find_vic ms width height rate ≡ find_vic (m ∷ ms) width height rate =
            rw (find_vic, e) in
          inr (find_vic-Listed ms width height rate vic (o ∙ h))
    ]

-- `ms9132_get_mode_vic` finds a VIC for a mode exactly if the table lists the mode with this VIC.
get_mode_vic_iff :
    (width height rate vic : ℕ)
    → (get_mode_vic width height rate ≡ ok vic)
      ↔ Listed
          (record { vic = vic; refresh_rate = rate; width = width; height = height })
          support_mode
unfolding get_mode_vic
get_mode_vic_iff width height rate vic = (
  find_vic-Listed support_mode width height rate vic,
  λ l. is_vic_sound vic _ (
      every-Listed support_mode (λ m. is_vic m.vic (get_mode_vic m.width m.height m.refresh_rate)) _
        each_found l),
)
