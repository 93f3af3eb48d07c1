-- ===== src/Drm/Gem/Pins.antt =====
-- The pins of the pages of an object.
use mathlib.Core.Path.{subst}
use native.Mathlib.Decide.{dec_lt}
use lenovo_magicbay_hud_linu.Base.{
  sym, ap₂, ◌-◌, none, some, ==_iff, ◌%◌, ℕ, ◌+◌, ◌∙◌, ap, Errno, ok, fail, Option-cases,
  Bool-cases, inl, inr, ◌⊎◌, ◌<◌, ◌^◌, ◌≡◌, ◌==◌, refl, Bool, true, false, arith,
}
use lenovo_magicbay_hud_linu.Drm.Gem.{
  undo_pin, Gem, Memory, created, import, put_pages, pin_pages, unpin_pages, gem_get_pages,
}

abbrev pub one_if : Bool → ℕ
one_if true = 1
one_if false = 0

-- What is held is what the pointers say, and pinned pages are there.
pub record IsCounted (g : Gem) : Type 0 where
  pub held : g.held ≡ one_if g.pages
  pub maps : g.maps ≡ one_if g.vmapping
  pub good : g.bad_puts ≡ 0
  pub small : g.pages_pin_count < 2 ^ 32
  pub pinned : g.pages ≡ false → g.pages_pin_count ≡ 0
  pub mapped : g.vmapping ≡ true → g.imported ≡ false → 0 < g.pages_pin_count

pub created-IsCounted : (size : ℕ) → IsCounted (created size)
created-IsCounted size = record {
  held = refl;
  maps = refl;
  good = refl;
  small = omega arith;
  pinned = λ _. refl;
  mapped = λ e. cc;
}

abbrev pub pinned : Gem → Gem
pinned g = record g { pages_pin_count = g.pages_pin_count + 1; pages = true; held = 1 }

get-granted :
    (m : Memory) (g : Gem)
    → g.pages ≡ false
    → m.get_pages ≡ none
    → gem_get_pages m g ≡ (ok tt, record g { pages = true; held = g.held + 1 })
unfolding gem_get_pages
get-granted m g p q = rw (gem_get_pages, p, q)

get-refused :
    (m : Memory) (g : Gem) (e : Errno)
    → g.pages ≡ false
    → m.get_pages ≡ some e
    → gem_get_pages m g ≡ (fail e, g)
unfolding gem_get_pages
get-refused m g e p q = ground arith

pub import-IsCounted : (size : ℕ) → IsCounted (import size)
import-IsCounted size = record {
  held = refl;
  maps = refl;
  good = refl;
  small = omega arith;
  pinned = λ e. refl;
  mapped = λ e i. cc;
}

counted : Gem → Gem
counted g = record g { pages_pin_count = (g.pages_pin_count + 1) % 2 ^ 32 }

pin-first :
    (m : Memory) (g : Gem)
    → (g.pages_pin_count == 0) ≡ true
    → pin_pages m g ≡ undo_pin (gem_get_pages m (counted g))
unfolding pin_pages counted
pin-first m g z = rw (pin_pages, z)

pin-absent :
    (m : Memory) (g : Gem)
    → g.pages ≡ false
    → g.pages_pin_count ≡ 0
    → g.held ≡ 0
    → ((e : Errno) × (pin_pages m g ≡ (fail e, g))) ⊎ (pin_pages m g ≡ (ok tt, pinned g))
unfolding counted
pin-absent m g p z h =
    let first = pin-first m g ((==_iff _ _).1 z) in
    elim (Option-cases m.get_pages) [
      | inr (e, q) ↦
          let back : ((g.pages_pin_count + 1) % 2 ^ 32 + 2 ^ 32 - 1) % 2 ^ 32 ≡ g.pages_pin_count =
            omega arith in
          inl (
            e,
            first
                ∙ ap undo_pin (get-refused m (counted g) e p q)
                ∙ ap (λ (n : ℕ). (fail e, record g { pages_pin_count = n })) back,
          )
      | inl q ↦
          let one : (g.pages_pin_count + 1) % 2 ^ 32 ≡ g.pages_pin_count + 1 = omega arith in
          let held : g.held + 1 ≡ 1 = omega arith in
          inr (
            first
            ∙ ap undo_pin (get-granted m (counted g) p q)
            ∙ ap₂ (λ (n k : ℕ). (ok tt, record g { pages_pin_count = n; pages = true; held = k }))
                one held)
    ]

pin-present :
    (m : Memory) (g : Gem)
    → g.pages_pin_count + 1 < 2 ^ 32
    → g.pages ≡ true
    → g.held ≡ 1
    → pin_pages m g ≡ (ok tt, pinned g)
unfolding pin_pages gem_get_pages
pin-present m g lt p h =
    let small : (g.pages_pin_count + 1) % 2 ^ 32 ≡ g.pages_pin_count + 1 = omega arith in
    elim (Bool-cases (g.pages_pin_count == 0)) [
      | inl z ↦ rw (pin_pages, gem_get_pages, z, p, small, h)
      | inr z ↦ rw (pin_pages, z, p, small, h)
    ]

-- A pin fails and changes nothing, or the pages are there and one more pin is counted.
pub pin-cases :
    (m : Memory) (g : Gem)
    → g.pages_pin_count + 1 < 2 ^ 32
    → IsCounted g
    → ((e : Errno) × (pin_pages m g ≡ (fail e, g))) ⊎ (pin_pages m g ≡ (ok tt, pinned g))
pin-cases m g lt c = elim (Bool-cases g.pages) [
  | inl p ↦ inr (pin-present m g lt p (c.held ∙ ap one_if p))
  | inr p ↦ pin-absent m g p (c.pinned p) (c.held ∙ ap one_if p)
]

pub pinned-IsCounted :
    (g : Gem) → g.pages_pin_count + 1 < 2 ^ 32 → IsCounted g → IsCounted (pinned g)
pinned-IsCounted g lt c = record {
  held = refl;
  maps = c.maps;
  good = c.good;
  small = omega arith;
  pinned = λ e. cc;
  mapped = λ v i. omega arith;
}

pub present : (g : Gem) → 0 < g.pages_pin_count → IsCounted g → (g.pages ≡ true) × (g.held ≡ 1)
present g lt c = elim (Bool-cases g.pages) [
  | inl e ↦ (e, c.held ∙ ap one_if e)
  | inr e ↦ absurd (omega (arith, c.pinned e))
]

abbrev released : Gem → Gem
released g = record g { pages_pin_count = 0; pages = false; held = 0 }

unpin-last : (g : Gem) → g.pages_pin_count ≡ 1 → g.held ≡ 1 → unpin_pages g ≡ released g
unfolding unpin_pages put_pages
unpin-last g e h = ground arith

unpin-other :
    (g : Gem)
    → 1 < g.pages_pin_count
    → g.pages_pin_count < 2 ^ 32
    → unpin_pages g ≡ record g { pages_pin_count = g.pages_pin_count - 1 }
unfolding unpin_pages
unpin-other g lt s =
    let e : (g.pages_pin_count + 2 ^ 32 - 1) % 2 ^ 32 ≡ g.pages_pin_count - 1 = omega arith in
    ground arith

-- One pin less.
pub unpin-IsCounted :
    (g : Gem)
    → 0 < g.pages_pin_count
    → (g.vmapping ≡ true → g.imported ≡ false → 1 < g.pages_pin_count)
    → IsCounted g
    → IsCounted (unpin_pages g)
unpin-IsCounted g lt v c =
    let (p, h) = present g lt c in
    elim (dec_lt 1 g.pages_pin_count) [
      | yes more ↦ subst IsCounted (sym (unpin-other g more c.small)) (record {
        held = c.held;
        maps = c.maps;
        good = c.good;
        small = omega (arith, c.small);
        pinned = λ e. cc;
        mapped = λ e i. omega (arith, v e i);
      })
      | no last ↦ subst IsCounted (sym (unpin-last g (omega arith) h)) (record {
        held = refl;
        maps = c.maps;
        good = c.good;
        small = omega arith;
        pinned = λ e. refl;
        mapped = λ e i. absurd (omega (arith, v e i));
      })
    ]
