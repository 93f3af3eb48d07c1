-- ===== src/Drm/Gem.antt =====
-- The memory objects of a card, drm/msdisp_drm_gem.c: their pages, which are there as long as
-- someone has pinned them, and the address at which the driver reads them.
pub mod Pins
pub mod Mapping
pub mod Uses
pub mod Dumb
pub mod Fault
use lenovo_magicbay_hud_linu.Base.{
  ℕ, ◌+◌, ◌-◌, ◌^◌, ◌%◌, Bool, true, false, Option, none, some, ◌==◌, Errno, enomem, enoent,
  Outcome, ok, fail, if◌then◌else◌,
}

-- `struct msdisp_drm_gem_object`. `imported` is `base.import_attach`, `pages` and `vmapping` are
-- whether these are not NULL. The rest is the kernel's: the sets of pages and the mappings that
-- the object holds, and how often one was given back that it did not hold.
pub record Gem : Type 0 where
  pub size : ℕ
  pub imported : Bool
  pub pages : Bool
  pub pages_pin_count : ℕ
  pub vmapping : Bool
  pub held : ℕ
  pub maps : ℕ
  pub bad_puts : ℕ

-- What the kernel answers: the code of `drm_gem_get_pages`, whether `vmap` and `dma_buf_vmap`
-- succeed, which then give an address, and the code of `drm_gem_create_mmap_offset`.
pub record Memory : Type 0 where
  pub get_pages : Option Errno
  pub vmap : Bool
  pub dma_vmap : Bool
  pub mmap_offset : Option Errno

abbrev pub Call : Type 0
Call = Outcome (Unit {0}) × Gem

-- A new object; an imported one comes with the array of its pages.
abbrev pub created : ℕ → Gem
created size = record {
  size = size;
  imported = false;
  pages = false;
  pages_pin_count = 0;
  vmapping = false;
  held = 0;
  maps = 0;
  bad_puts = 0;
}

abbrev pub import : ℕ → Gem
import size = record (created size) { imported = true; pages = true; held = 1 }

unfoldable pub gem_get_pages : Memory → Gem → Call
gem_get_pages m g = if g.pages then (ok tt, g) else elim m.get_pages [
  | some e ↦ (fail e, g)
  | none ↦ (ok tt, record g { pages = true; held = g.held + 1 })
]

-- `kvfree` for an imported object, and `drm_gem_put_pages` for any other.
unfoldable pub put_pages : Gem → Gem
put_pages g =
    if g.held == 0
    then record g { pages = false; bad_puts = g.bad_puts + 1 }
    else record g { pages = false; held = g.held - 1 }

-- `if (ret) obj->pages_pin_count--;`
abbrev pub undo_pin : Call → Call
undo_pin (ok t, g) = (ok tt, g)
undo_pin (fail e, g) =
    (fail e, record g { pages_pin_count = (g.pages_pin_count + 2 ^ 32 - 1) % 2 ^ 32 })

-- The counter is an `unsigned int`.
unfoldable pub pin_pages : Memory → Gem → Call
unfolding gem_get_pages
pin_pages m g =
    let pinned : Gem = record g { pages_pin_count = (g.pages_pin_count + 1) % 2 ^ 32 } in
    if g.pages_pin_count == 0 then undo_pin (gem_get_pages m pinned) else (ok tt, pinned)

unfoldable pub unpin_pages : Gem → Gem
unfolding put_pages
unpin_pages g =
    let count = (g.pages_pin_count + 2 ^ 32 - 1) % 2 ^ 32 in
    let unpinned : Gem = record g { pages_pin_count = count } in
    if count == 0 then put_pages unpinned else unpinned

-- `if (ret) return ret;`
abbrev pub and_then : Call → (Gem → Call) → Call
and_then (ok t, g) next = next g
and_then (fail e, g) next = (fail e, g)

-- A pin stays if `vmap` fails.
unfoldable pub gem_vmap : Memory → Gem → Call
unfolding pin_pages
gem_vmap m g =
    if g.imported
    then (if m.dma_vmap
        then (ok tt, record g { vmapping = true; maps = g.maps + 1 })
        else (fail enomem, g))
    else and_then (pin_pages m g) λ g'.
      if m.vmap
      then (ok tt, record g' { vmapping = true; maps = g'.maps + 1 })
      else (fail enomem, record g' { vmapping = false })

abbrev pub unmapped : Gem → Gem
unmapped g = record g { vmapping = false; maps = g.maps - 1 }

unfoldable pub gem_vunmap : Gem → Gem
unfolding unpin_pages
gem_vunmap g = if g.imported then unmapped g else unpin_pages (if g.vmapping then unmapped g else g)

unfoldable pub gem_free_object : Gem → Gem
unfolding gem_vunmap put_pages
gem_free_object g =
    let g' = if g.vmapping then gem_vunmap g else g in if g'.pages then put_pages g' else g'

-- For an object that its handle stands for; the pages stay pinned, also if the offset is refused.
unfoldable pub gem_mmap_offset : Memory → Gem → Call
unfolding pin_pages
gem_mmap_offset m g =
    and_then (pin_pages m g) λ g'. elim m.mmap_offset [ some e ↦ (fail e, g') | none ↦ (ok tt, g') ]
