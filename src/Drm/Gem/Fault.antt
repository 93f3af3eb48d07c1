-- ===== src/Drm/Gem/Fault.antt =====
-- A program touches a page of an object that it has mapped: `msdisp_drm_gem_fault` of
-- drm/msdisp_drm_gem.c.
use lenovo_magicbay_hud_linu.Base.{
  ℕ, ◌+◌, ◌-◌, ◌*◌, ◌/◌, ◌%◌, ◌^◌, ◌≤◌, ◌<◌, ◌≡◌, refl, Bool, true, Option, none, some, u32, arith,
  Bool-cases, inl, inr, if◌then◌else◌,
}
use lenovo_magicbay_hud_linu.Drm.Gem.{Gem}
use lenovo_magicbay_hud_linu.Drm.Gem.Dumb.{page_size}
use lenovo_magicbay_hud_linu.Drm.Gem.Pins.{IsCounted}
use lenovo_magicbay_hud_linu.Drm.Gem.Uses.{Uses, Uses-IsCounted, new_object, new-IsCounted}

-- The codes of `vm_insert_page`: -EAGAIN, 0, -ERESTARTSYS, -ENOMEM, and any other.
data Inserted : Type 0 where
  again done restart no_memory other : Inserted

-- `VM_FAULT_NOPAGE`, `VM_FAULT_OOM` and `VM_FAULT_SIGBUS`.
data Fault : Type 0 where
  nopage oom sigbus : Fault

abbrev fault_of : Inserted → Fault
fault_of again = nopage
fault_of done = nopage
fault_of restart = nopage
fault_of no_memory = oom
fault_of other = sigbus

-- `page_offset` is an `unsigned int`.
abbrev page_offset : ℕ → ℕ → ℕ
page_offset start address = u32 ((address - start) / page_size)

-- What the handler returns, with the index in `pages` of the page that it inserts, if it does.
-- The address is not below `start`, the beginning of the mapping.
unfoldable gem_fault : Inserted → ℕ → ℕ → Gem → Fault × Option ℕ
gem_fault inserted start address g =
    if g.pages then (fault_of inserted, some (page_offset start address)) else (sigbus, none)

-- A fault on pages that are there: the page at the address is inserted, it is one of the object,
-- and it is not the handler that stops the program.
record Served (inserted : Inserted) (start address : ℕ) (g : Gem) : Type 0 where
  index : ℕ
  inserts : gem_fault inserted start address g ≡ (fault_of inserted, some index)
  below : start + index * page_size ≤ address
  above : address < start + (index + 1) * page_size
  in_array : (index + 1) * page_size ≤ g.size

pinned-pages : (g : Gem) → IsCounted g → 0 < g.pages_pin_count → g.pages ≡ true
pinned-pages g c pos = elim (Bool-cases g.pages) [
  | inl e ↦ e
  | inr e ↦ let zero = c.pinned e in absurd (omega arith)
]

-- Take a new object and any calls on it after which its pages are pinned, as they are once a
-- program has asked for an offset. If its size is a number of pages and below 2 ^ 44, then at each
-- address of its mapping the handler inserts the page of the object that lies there.
gem_fault-Served :
    (lent : Bool) (size : ℕ) (g : Gem) (inserted : Inserted) (start address : ℕ)
    → Uses (new_object lent size) g
    → 0 < g.pages_pin_count
    → g.size % page_size ≡ 0
    → g.size < 2 ^ 44
    → start ≤ address
    → address < start + g.size
    → Served inserted start address g
unfolding gem_fault
gem_fault-Served lent size g inserted start address u pos whole small from below =
    let there = pinned-pages g (Uses-IsCounted u (new-IsCounted lent size)) pos in
    record {
      index = page_offset start address;
      inserts = rw (gem_fault, there) refl;
      below = omega arith;
      above = omega arith;
      in_array = omega arith;
    }
