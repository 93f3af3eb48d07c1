-- ===== src/Drm/Gem/Uses.antt =====
-- Whoever uses an object, in whatever order, its pages and its mapping are given back once.
use mathlib.Core.Path.{subst}
use lenovo_magicbay_hud_linu.Base.{
  ℕ, ◌+◌, ◌<◌, ◌^◌, ◌≡◌, sym, Bool, true, false, arith, Bool-cases, inl, inr, if◌then◌else◌,
}
use lenovo_magicbay_hud_linu.Drm.Gem.{
  Gem, Memory, created, import, put_pages, pin_pages, unpin_pages, gem_vmap, gem_vunmap,
  gem_free_object, gem_mmap_offset,
}
use lenovo_magicbay_hud_linu.Drm.Gem.Pins.{
  import-IsCounted, IsCounted, pin-cases, pinned-IsCounted, unpin-IsCounted, created-IsCounted,
}
use lenovo_magicbay_hud_linu.Drm.Gem.Mapping.{gem_vmap-Vmapped, Vmapped-IsCounted, vunmap-IsCounted}

-- The calls that the driver and the kernel make on an object. A counter of 2 ^ 32 pins is not
-- reached; whoever unpins has pinned, beside the pin of a mapping; a mapped object is not mapped
-- again, and only a mapped one is unmapped.
pub data Use : Gem → Gem → Type 0 where
  pin : (m : Memory) (g : Gem) → g.pages_pin_count + 1 < 2 ^ 32 → Use g (pin_pages m g).1
  unpin :
      (g : Gem)
      → 0 < g.pages_pin_count
      → (g.vmapping ≡ true → g.imported ≡ false → 1 < g.pages_pin_count)
      → Use g (unpin_pages g)
  vmap :
      (m : Memory) (g : Gem)
      → g.vmapping ≡ false
      → g.pages_pin_count + 1 < 2 ^ 32
      → Use g (gem_vmap m g).1
  vunmap : (g : Gem) → g.vmapping ≡ true → Use g (gem_vunmap g)
  mmap : (m : Memory) (g : Gem) → g.pages_pin_count + 1 < 2 ^ 32 → Use g (gem_mmap_offset m g).1

pub data Uses (g : Gem) : Gem → Type 0 where
  start : Uses g g
  later : {h k : Gem} → Uses g h → Use h k → Uses g k

pin-IsCounted :
    (m : Memory) (g : Gem)
    → g.pages_pin_count + 1 < 2 ^ 32
    → IsCounted g
    → IsCounted (pin_pages m g).1
pin-IsCounted m g lt c = elim (pin-cases m g lt c) [
  | inl (e, q) ↦ subst (λ r. IsCounted r.1) (sym q) c
  | inr q ↦ subst (λ r. IsCounted r.1) (sym q) (pinned-IsCounted g lt c)
]

-- The offset changes nothing of the object.
mmap-pin : (m : Memory) (g : Gem) → (gem_mmap_offset m g).1 ≡ (pin_pages m g).1
unfolding gem_mmap_offset
mmap-pin m g = ground arith

Use-IsCounted : {g h : Gem} → Use g h → IsCounted g → IsCounted h
Use-IsCounted (pin m g lt) c = pin-IsCounted m g lt c
Use-IsCounted (unpin g pos v) c = unpin-IsCounted g pos v c
Use-IsCounted (vmap m g v lt) c = Vmapped-IsCounted (gem_vmap-Vmapped m g lt c) v lt c
Use-IsCounted (vunmap g v) c = vunmap-IsCounted g v c
Use-IsCounted (mmap m g lt) c = subst IsCounted (sym (mmap-pin m g)) (pin-IsCounted m g lt c)

pub Uses-IsCounted : {g h : Gem} → Uses g h → IsCounted g → IsCounted h
Uses-IsCounted start c = c
Uses-IsCounted (later u s) c = Use-IsCounted s (Uses-IsCounted u c)

-- Nothing is held any more, and nothing was given back that was not held.
pub record IsGone (g : Gem) : Type 0 where
  pub held : g.held ≡ 0
  pub maps : g.maps ≡ 0
  pub good : g.bad_puts ≡ 0
  pub pages : g.pages ≡ false
  pub vmapping : g.vmapping ≡ false

abbrev without_pages : Gem → Gem
without_pages g = if g.pages then put_pages g else g

without_pages-IsGone : (g : Gem) → g.vmapping ≡ false → IsCounted g → IsGone (without_pages g)
unfolding put_pages
without_pages-IsGone g v c =
    let h = c.held in
    let m = c.maps in
    let good = c.good in
    record {
      held = ground arith;
      maps = ground arith;
      good = ground arith;
      pages = ground arith;
      vmapping = ground arith;
    }

-- `gem_vunmap` leaves no address.
vunmap-vmapping : (g : Gem) → (gem_vunmap g).vmapping ≡ false
unfolding gem_vunmap unpin_pages put_pages
vunmap-vmapping g = ground arith

free-mapped : (g : Gem) → g.vmapping ≡ true → gem_free_object g ≡ without_pages (gem_vunmap g)
unfolding gem_free_object
free-mapped g v = rw (gem_free_object, v)

free-unmapped : (g : Gem) → g.vmapping ≡ false → gem_free_object g ≡ without_pages g
unfolding gem_free_object
free-unmapped g v = ground arith

free-IsGone : (g : Gem) → IsCounted g → IsGone (gem_free_object g)
free-IsGone g c = elim (Bool-cases g.vmapping) [
  | inl v ↦
      subst IsGone (sym (free-mapped g v))
        (without_pages-IsGone (gem_vunmap g) (vunmap-vmapping g) (vunmap-IsCounted g v c))
  | inr v ↦ subst IsGone (sym (free-unmapped g v)) (without_pages-IsGone g v c)
]

-- An object of the card's own, or one that another driver has lent.
abbrev pub new_object : Bool → ℕ → Gem
new_object lent size = if lent then import size else created size

pub new-IsCounted : (lent : Bool) (size : ℕ) → IsCounted (new_object lent size)
new-IsCounted true size = import-IsCounted size
new-IsCounted false size = created-IsCounted size

-- Take a new object, of the card's own or lent, and any sequence of pins, unpins of what was
-- pinned, mappings of an unmapped object, unmappings of a mapped one and requests for an offset,
-- each ending as it may, with less than 2 ^ 32 pins at a time. Then after
-- `msdisp_drm_gem_free_object` no pages and no mapping are held, and none was given back that was
-- not held.
pub gem_free_object-IsGone :
    (lent : Bool) (size : ℕ) (g : Gem) → Uses (new_object lent size) g → IsGone (gem_free_object g)
gem_free_object-IsGone lent size g u = free-IsGone g (Uses-IsCounted u (new-IsCounted lent size))
