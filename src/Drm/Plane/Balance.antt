-- ===== src/Drm/Plane/Balance.antt =====
-- What the update of a plane takes and gives back, and where it stops after a dump.
use lenovo_magicbay_hud_linu.Base.{
  ◌+◌, ◌≡◌, ◌∙◌, ◌⊎◌, inl, inr, sym, ap, refl, List, [], Bool, true, false, Option, none, some,
  arith, if◌then◌else◌,
}
use lenovo_magicbay_hud_linu.Drm.Gem.{Gem, gem_vmap}
use lenovo_magicbay_hud_linu.Drm.Gem.Mapping.{vmap-imported_same}
use lenovo_magicbay_hud_linu.Drm.Fb.{Fb}
use lenovo_magicbay_hud_linu.Drm.Plane.{
  Plane, Answers, hand_over, access_if, vmap_if, mapped_if, FrameStat, with_access, plane_update,
  is_enomem, counted, put, dump_if, Updated, UpdateCall,
}

-- What was taken is given back.
pub record IsBalanced (s t : Plane) : Type 0 where
  pub refs : t.refs ≡ s.refs
  pub accesses : t.accesses ≡ s.accesses
  pub locked : t.locked ≡ false
  pub stopped : t.stopped ≡ false

-- A dump was asked for, and the update has stopped behind it: the reference to the frame buffer is
-- kept, and so is the access, if the object of the frame buffer is lent.
pub record IsStopped (s : Plane) (o : Option (Option Fb)) (t : Plane) (calls : List UpdateCall)
    : Type 0 where
  pub asked : s.dump_fb_flag ≡ true
  pub frame_buffer : Fb
  pub shown : o ≡ some (some frame_buffer)
  pub refs : t.refs ≡ s.refs + 1
  pub accesses : t.accesses ≡ (if frame_buffer.object.imported then s.accesses + 1 else s.accesses)
  pub locked : t.locked ≡ false
  pub stopped : t.stopped ≡ true
  pub no_call : calls ≡ []

abbrev pub Ended : Plane → Option (Option Fb) → Updated → Type 0
Ended s o (t, calls) = IsBalanced s t ⊎ IsStopped s o t calls

hand_over-IsBalanced :
    (a : Answers) (g : Gem) (fb : Fb) (s t : Plane)
    → s.refs ≡ t.refs + 1
    → s.accesses ≡ (if g.imported then t.accesses + 1 else t.accesses)
    → s.stopped ≡ false
    → IsBalanced t (hand_over a g fb s).0
unfolding hand_over
hand_over-IsBalanced a g fb s t r c n = record {
  refs = ground arith;
  accesses = ground arith;
  locked = ground arith;
  stopped = ground arith;
}

-- The state of `s` after a reference to the frame buffer is taken.
module _ (a : Answers) (fb : Fb) (s t : Plane) (r : s.refs ≡ t.refs + 1)
    (c : s.accesses ≡ t.accesses) (l : s.locked ≡ false) (n : s.stopped ≡ false)
    (f : s.dump_fb_flag ≡ t.dump_fb_flag) where
  given_back : (stat : FrameStat) → IsBalanced t (put (record s { stat = stat }))
  given_back stat = record { refs = omega arith; accesses = c; locked = l; stopped = n }

  -- `u` is the state after the access to the object has begun, where it is lent.
  dump_if-Ended :
      (g : Gem) (u : Plane)
      → g.imported ≡ fb.object.imported
      → u.refs ≡ t.refs + 1
      → u.accesses ≡ (if g.imported then t.accesses + 1 else t.accesses)
      → u.locked ≡ false
      → u.stopped ≡ false
      → (b : Bool) → t.dump_fb_flag ≡ b
      → Ended t (some (some fb)) (dump_if a g fb u b)
  dump_if-Ended g u i r' c' l' n' false e = inl (hand_over-IsBalanced a g fb u t r' c' n')
  dump_if-Ended g u i r' c' l' n' true e = inr (record {
    asked = e;
    frame_buffer = fb;
    shown = refl;
    refs = r';
    accesses = c' ∙ ap (λ b. if b then t.accesses + 1 else t.accesses) i;
    locked = l';
    stopped = refl;
    no_call = refl;
  })

  access_if-Ended :
      (g : Gem)
      → g.imported ≡ fb.object.imported
      → (imported begins : Bool) → g.imported ≡ imported
      → Ended t (some (some fb)) (access_if a g fb s imported begins)
  access_if-Ended g same false begins i =
      dump_if-Ended g s same r (c ∙ sym (ap (λ b. if b then t.accesses + 1 else t.accesses) i)) l n
        s.dump_fb_flag (sym f)
  access_if-Ended g same true true i =
      dump_if-Ended g (record s { accesses = s.accesses + 1 }) same r
        (ap (λ k. k + 1) c ∙ sym (ap (λ b. if b then t.accesses + 1 else t.accesses) i)) l n
        s.dump_fb_flag (sym f)
  access_if-Ended g same true false i = inl (given_back _)

  access-Ended :
      (g : Gem) → g.imported ≡ fb.object.imported → Ended t (some (some fb)) (with_access a g fb s)
  unfolding with_access
  access-Ended g same = access_if-Ended g same g.imported a.begins refl

  vmap_if-Ended :
      (g : Gem)
      → g.imported ≡ fb.object.imported
      → (failed mapped : Bool) → Ended t (some (some fb)) (vmap_if a g fb s failed mapped)
  vmap_if-Ended g same true mapped = inl (given_back _)
  vmap_if-Ended g same false true = access-Ended g same
  vmap_if-Ended g same false false = inl (given_back _)

  mapped_if-Ended : (mapped : Bool) → Ended t (some (some fb)) (mapped_if a fb s mapped)
  mapped_if-Ended true = access-Ended fb.object refl
  mapped_if-Ended false =
      let r = gem_vmap a.memory fb.object in
      vmap_if-Ended r.1 (vmap-imported_same a.memory fb.object) (is_enomem r.0) r.1.vmapping

-- If the lock is free, the update of a plane, with or without a new state, a frame buffer and a
-- display, and however the calls on its way end, does one of two things. It leaves the lock free,
-- and as many references to frame buffers and as many open accesses as before. Or a dump was asked
-- for and the update stops behind it: no picture is handed over, the lock is free, the reference
-- to the frame buffer is kept, and the access to its object, if that is lent.
pub plane_update-IsBalanced :
    (valid : Bool) (new_state : Option (Option Fb)) (a : Answers) (s : Plane)
    → s.locked ≡ false
    → s.stopped ≡ false
    → Ended s new_state (plane_update valid new_state a s)
unfolding plane_update
plane_update-IsBalanced false new_state a s l n =
    inl (record { refs = refl; accesses = refl; locked = l; stopped = n })
plane_update-IsBalanced true none a s l n =
    inl (record { refs = refl; accesses = refl; locked = l; stopped = n })
plane_update-IsBalanced true (some none) a s l n =
    inl (record { refs = refl; accesses = refl; locked = l; stopped = n })
plane_update-IsBalanced true (some (some fb)) a s l n =
    mapped_if-Ended a fb (record (counted s) { refs = s.refs + 1 }) s refl refl l n refl
      fb.object.vmapping
