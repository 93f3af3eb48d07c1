-- ===== src/Drm/Plane.antt =====
-- Handing a picture to the display, drm/msdisp_drm_modeset.c: the update of a plane, what it takes
-- and gives back on its way, and what it counts.
pub mod Balance
pub mod Counts
pub mod Reads
use lenovo_magicbay_hud_linu.Base.{
  ℕ, ◌+◌, ◌-◌, ◌*◌, ◌%◌, ◌^◌, Bool, true, false, List, [], ◌∷◌, Option, none, some, u32, Errno,
  enomem, Outcome, ok, fail, if◌then◌else◌,
}
use lenovo_magicbay_hud_linu.Drm.Gem.{Gem, Memory, gem_vmap}
use lenovo_magicbay_hud_linu.Drm.Fb.{Fb}

-- `struct msdisp_drm_frame_stat`, counters of the type `u64`
pub record FrameStat : Type 0 where
  pub total : ℕ
  pub no_usb_hal : ℕ
  pub no_new_state : ℕ
  pub no_fb : ℕ
  pub vmap_fail : ℕ
  pub vmap_null : ℕ
  pub cpu_access_fail : ℕ
  pub acquire_buf_fail : ℕ
  pub handle_fail : ℕ

abbrev pub up : ℕ → ℕ
up n = (n + 1) % 2 ^ 64

-- The pipeline's part of the state, with the references to the frame buffer, the accesses to an
-- imported object that are open, whether `hal_lock` is held, and whether an update has stopped at a
-- pointer that was never set.
pub record Plane : Type 0 where
  pub stat : FrameStat
  pub usb_hal : Option ℕ
  pub dump_fb_flag : Bool
  pub refs : ℕ
  pub accesses : ℕ
  pub locked : Bool
  pub stopped : Bool

-- The call of the display's `update_frame`, on the object that is mapped.
pub record UpdateCall : Type 0 where
  pub usb_hal : ℕ
  pub object : Gem
  pub pitch : ℕ
  pub len : ℕ
  pub format : ℕ

-- How the calls that the update makes end: those of the memory, `dma_buf_begin_cpu_access`, and
-- the display's `update_frame`.
pub record Answers : Type 0 where
  pub memory : Memory
  pub begins : Bool
  pub accepts : Bool

abbrev pub Updated : Type 0
Updated = Plane × List UpdateCall

abbrev pub is_enomem : Outcome (Unit {0}) → Bool
is_enomem (fail enomem) = true
is_enomem r = false

abbrev pub put : Plane → Plane
put s = record s { refs = s.refs - 1 }

abbrev end_access : Gem → Plane → Plane
end_access g s = if g.imported then record s { accesses = s.accesses - 1 } else s

abbrev pub damage_of : ℕ → Gem → Fb → UpdateCall
damage_of usb_hal g fb = record {
  usb_hal = usb_hal;
  object = g;
  pitch = fb.pitch;
  len = u32 (fb.pitch * fb.height);
  format = fb.format;
}

-- From the label `end_cpu_access` to the end.
abbrev pub leave : Gem → Plane → Plane
leave g s = record (put (end_access g s)) { locked = false }

-- Under the lock, by the display and whether it accepts the picture.
abbrev pub hand_if : Gem → Fb → Plane → Option ℕ → Bool → Updated
hand_if g fb s none accepts =
    (leave g (record s { stat = record s.stat { no_usb_hal = up s.stat.no_usb_hal } }), [])
hand_if g fb s (some u) true = (leave g s, damage_of u g fb ∷ [])
hand_if g fb s (some u) false = (
  leave g (record s { stat = record s.stat { handle_fail = up s.stat.handle_fail } }),
  damage_of u g fb ∷ [],
)

-- `g` is the object of `fb`.
unfoldable pub hand_over : Answers → Gem → Fb → Plane → Updated
hand_over a g fb s = hand_if g fb (record s { locked = true }) s.usb_hal a.accepts

-- The picture is dumped into a file on request. The log after it reads through `msdisp_drm`, which
-- is never set: the update stops there.
abbrev pub dumped : Plane → Plane
dumped s = record s { dump_fb_flag = false; stopped = true }

-- By `dump_fb_flag`.
abbrev pub dump_if : Answers → Gem → Fb → Plane → Bool → Updated
dump_if a g fb s true = (dumped s, [])
dump_if a g fb s false = hand_over a g fb s

-- By whether the object is imported and whether the access to it begins.
abbrev pub access_if : Answers → Gem → Fb → Plane → Bool → Bool → Updated
access_if a g fb s false begins = dump_if a g fb s s.dump_fb_flag
access_if a g fb s true true =
    dump_if a g fb (record s { accesses = s.accesses + 1 }) s.dump_fb_flag
access_if a g fb s true false =
    (put (record s { stat = record s.stat { cpu_access_fail = up s.stat.cpu_access_fail } }), [])

unfoldable pub with_access : Answers → Gem → Fb → Plane → Updated
unfolding hand_over
with_access a g fb s = access_if a g fb s g.imported a.begins

-- After `msdisp_drm_gem_vmap`, by whether its code is -ENOMEM and whether there is an address.
abbrev pub vmap_if : Answers → Gem → Fb → Plane → Bool → Bool → Updated
vmap_if a g fb s true mapped =
    (put (record s { stat = record s.stat { vmap_fail = up s.stat.vmap_fail } }), [])
vmap_if a g fb s false true = with_access a g fb s
vmap_if a g fb s false false =
    (put (record s { stat = record s.stat { vmap_null = up s.stat.vmap_null } }), [])

abbrev after_vmap : Answers → Fb → Plane → Outcome (Unit {0}) × Gem → Updated
after_vmap a fb s (r, g) = vmap_if a g fb s (is_enomem r) g.vmapping

-- By whether the object is mapped already.
abbrev pub mapped_if : Answers → Fb → Plane → Bool → Updated
mapped_if a fb s true = with_access a fb.object fb s
mapped_if a fb s false = after_vmap a fb s (gem_vmap a.memory fb.object)

abbrev pub counted : Plane → Plane
counted s = record s { stat = record s.stat { total = up s.stat.total } }

-- `new_state` is the new state with its frame buffer; a plane without a state is left alone.
unfoldable pub plane_update : Bool → Option (Option Fb) → Answers → Plane → Updated
unfolding with_access gem_vmap
plane_update false new_state a s = (s, [])
plane_update true none a s =
    let t = counted s in
    (record t { stat = record t.stat { no_new_state = up t.stat.no_new_state } }, [])
plane_update true (some none) a s =
    let t = counted s in (record t { stat = record t.stat { no_fb = up t.stat.no_fb } }, [])
plane_update true (some (some fb)) a s =
    let t = counted s in mapped_if a fb (record t { refs = t.refs + 1 }) fb.object.vmapping
