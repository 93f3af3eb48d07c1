-- ===== src/Drm/Gem/Mapping.antt =====
-- The mapping of an object, and what is left when it is freed.
use mathlib.Core.Path.{subst}
use lenovo_magicbay_hud_linu.Base.{
  ◌-◌, ◌+◌, ◌<◌, ◌^◌, ◌≡◌, ◌∙◌, sym, ap, refl, Bool, true, false, arith, Errno, enomem, Outcome, ok,
  fail, Bool-cases, inl, inr, if◌then◌else◌,
}
use lenovo_magicbay_hud_linu.Drm.Gem.{
  Gem, Memory, Call, gem_get_pages, and_then, pin_pages, unpin_pages, gem_vmap, gem_vunmap,
  unmapped,
}
use lenovo_magicbay_hud_linu.Drm.Gem.Pins.{
  IsCounted, one_if, pin-cases, pinned, pinned-IsCounted, unpin-IsCounted,
}

abbrev pub mapped : Gem → Gem
mapped g = record g { vmapping = true; maps = g.maps + 1 }

mapped-IsCounted :
    (g : Gem)
    → g.vmapping ≡ false
    → (g.imported ≡ false → 0 < g.pages_pin_count)
    → IsCounted g
    → IsCounted (mapped g)
mapped-IsCounted g v pos c = record {
  held = c.held;
  maps = ap (λ n. n + 1) (c.maps ∙ ap one_if v);
  good = c.good;
  small = c.small;
  pinned = c.pinned;
  mapped = λ _ i. pos i;
}

abbrev pub cleared : Gem → Gem
cleared g = record g { vmapping = false }

cleared-IsCounted : (g : Gem) → g.vmapping ≡ false → IsCounted g → IsCounted (cleared g)
cleared-IsCounted g v c = record {
  held = c.held;
  maps = c.maps ∙ ap one_if v;
  good = c.good;
  small = c.small;
  pinned = c.pinned;
  mapped = λ e i. cc;
}

vmap-imported :
    (m : Memory) (g : Gem)
    → g.imported ≡ true
    → gem_vmap m g ≡ (if m.dma_vmap then (ok tt, mapped g) else (fail enomem, g))
unfolding gem_vmap
vmap-imported m g i = rw (gem_vmap, i)

vmap-own :
    (m : Memory) (g : Gem)
    → g.imported ≡ false
    → gem_vmap m g
      ≡ and_then
          (pin_pages m g)
          (λ g'. if m.vmap then (ok tt, mapped g') else (fail enomem, cleared g'))
unfolding gem_vmap
vmap-own m g i = rw (gem_vmap, i)

-- Mapping does not make an object lent or change its size.
abbrev Alike : Gem → Gem → Type 0
Alike g h = (h.imported ≡ g.imported) × (h.size ≡ g.size)

pin-Alike : (m : Memory) (g : Gem) → Alike g (pin_pages m g).1
unfolding pin_pages gem_get_pages
pin-Alike m g = (ground arith, ground arith)

and_then-Alike :
    (g : Gem) (r : Call) (next : Gem → Call)
    → Alike g r.1
    → ((h : Gem) → Alike h (next h).1)
    → Alike g (and_then r next).1
and_then-Alike g (ok t, h) next (p, q) e = let (p', q') = e h in (p' ∙ p, q' ∙ q)
and_then-Alike g (fail x, h) next p e = p

if-Alike :
    (b : Bool) (g : Gem) (r s : Call) → Alike g r.1 → Alike g s.1 → Alike g (if b then r else s).1
if-Alike true g r s p q = p
if-Alike false g r s p q = q

vmap-Alike : (m : Memory) (g : Gem) → Alike g (gem_vmap m g).1
vmap-Alike m g = elim (Bool-cases g.imported) [
  | inl i ↦
      subst (λ r. Alike g r.1) (sym (vmap-imported m g i))
        (if-Alike m.dma_vmap g (ok tt, mapped g) (fail enomem, g) (refl, refl) (refl, refl))
  | inr i ↦
      subst (λ r. Alike g r.1) (sym (vmap-own m g i))
        (and_then-Alike g (pin_pages m g) _ (pin-Alike m g) (λ h.
          if-Alike m.vmap h (ok tt, mapped h) (fail enomem, cleared h) (refl, refl) (refl, refl)))
]

pub vmap-imported_same : (m : Memory) (g : Gem) → (gem_vmap m g).1.imported ≡ g.imported
vmap-imported_same m g = (vmap-Alike m g).0

pub vmap-size : (m : Memory) (g : Gem) → (gem_vmap m g).1.size ≡ g.size
vmap-size m g = (vmap-Alike m g).1

-- How `msdisp_drm_gem_vmap` ends on an object that is not mapped: an error that changes nothing,
-- an address, for which an object of the card's own is pinned once more, or -ENOMEM with that pin.
pub data Vmapped (g : Gem) : Outcome (Unit {0}) × Gem → Type 0 where
  refused : (e : Errno) → Vmapped g (fail e, g)
  attached : g.imported ≡ true → Vmapped g (ok tt, mapped g)
  done : g.imported ≡ false → Vmapped g (ok tt, mapped (pinned g))
  leaked : g.imported ≡ false → Vmapped g (fail enomem, cleared (pinned g))

pub gem_vmap-Vmapped :
    (m : Memory) (g : Gem) → g.pages_pin_count + 1 < 2 ^ 32 → IsCounted g → Vmapped g (gem_vmap m g)
gem_vmap-Vmapped m g lt c = elim (Bool-cases g.imported) [
  | inl i ↦
      subst (Vmapped g) (sym (vmap-imported m g i))
        (elim (Bool-cases m.dma_vmap) [ inl d ↦ rw d (attached i) | inr d ↦ rw d (refused enomem) ])
  | inr i ↦
      let next : Gem → Call =
        λ g'. if m.vmap then (ok tt, mapped g') else (fail enomem, cleared g') in
      subst (Vmapped g) (sym (vmap-own m g i)) (elim (pin-cases m g lt c) [
        | inl (e, q) ↦ subst (λ r. Vmapped g (and_then r next)) (sym q) (refused e)
        | inr q ↦
            subst (λ r. Vmapped g (and_then r next)) (sym q)
              (elim (Bool-cases m.vmap) [ inl d ↦ rw d (done i) | inr d ↦ rw d (leaked i) ])
      ])
]

pub Vmapped-IsCounted :
    {g : Gem} {r : Outcome (Unit {0}) × Gem}
    → Vmapped g r
    → g.vmapping ≡ false
    → g.pages_pin_count + 1 < 2 ^ 32
    → IsCounted g
    → IsCounted r.1
Vmapped-IsCounted (refused e) v lt c = c
Vmapped-IsCounted {g} (attached i) v lt c = mapped-IsCounted g v (λ j. cc) c
Vmapped-IsCounted {g} (done i) v lt c =
    mapped-IsCounted (pinned g) v (λ _. omega arith) (pinned-IsCounted g lt c)
Vmapped-IsCounted {g} (leaked i) v lt c = cleared-IsCounted (pinned g) v (pinned-IsCounted g lt c)

unmapped-IsCounted : (g : Gem) → g.vmapping ≡ true → IsCounted g → IsCounted (unmapped g)
unmapped-IsCounted g v c = record {
  held = c.held;
  maps = ap (λ n. n - 1) (c.maps ∙ ap one_if v);
  good = c.good;
  small = c.small;
  pinned = c.pinned;
  mapped = λ e i. cc;
}

vunmap-imported : (g : Gem) → g.imported ≡ true → gem_vunmap g ≡ unmapped g
unfolding gem_vunmap
vunmap-imported g i = rw (gem_vunmap, i)

vunmap-own :
    (g : Gem) → g.imported ≡ false → g.vmapping ≡ true → gem_vunmap g ≡ unpin_pages (unmapped g)
unfolding gem_vunmap
vunmap-own g i v = rw (gem_vunmap, i, v)

pub vunmap-IsCounted : (g : Gem) → g.vmapping ≡ true → IsCounted g → IsCounted (gem_vunmap g)
vunmap-IsCounted g v c = elim (Bool-cases g.imported) [
  | inl i ↦ subst IsCounted (sym (vunmap-imported g i)) (unmapped-IsCounted g v c)
  | inr i ↦
      subst IsCounted (sym (vunmap-own g i v))
        (unpin-IsCounted (unmapped g) (c.mapped v i) (λ e j. cc) (unmapped-IsCounted g v c))
]
