-- ===== src/Drm/Plane/Counts.antt =====
-- Every update of a plane is counted once: among the failures, or as a picture handed over.
use mathlib.Core.Path.{subst}
use lenovo_magicbay_hud_linu.Base.{
  ℕ, ◌+◌, ◌≤◌, ◌<◌, ◌^◌, ◌≡◌, ◌∙◌, ap, refl, Bool, true, false, List, [], ◌∷◌, Option, none, some,
  arith, length, length-append, ◌++◌,
}
use lenovo_magicbay_hud_linu.Drm.Gem.{Gem, gem_vmap}
use lenovo_magicbay_hud_linu.Drm.Fb.{Fb}
use lenovo_magicbay_hud_linu.Drm.Plane.{
  Plane, Answers, UpdateCall, Updated, hand_over, access_if, vmap_if, mapped_if, FrameStat,
  with_access, plane_update, is_enomem, counted, hand_if, leave, up, damage_of, dump_if,
}

abbrev failures : FrameStat → ℕ
failures s = s.no_new_state + s.no_fb + s.vmap_fail + s.vmap_null + s.cpu_access_fail + s.no_usb_hal

-- One failure or one picture more; of the pictures, at most as many were refused.
record Counted (s : FrameStat) (t : Updated) : Type 0 where
  total : t.0.stat.total ≡ s.total
  one : failures t.0.stat + length t.1 ≡ failures s + 1
  handled : t.0.stat.handle_fail ≤ s.handle_fail + length t.1
  unasked : t.0.dump_fb_flag ≡ false

leave-stat : (g : Gem) (t : Plane) → (leave g t).stat ≡ t.stat
leave-stat g t = ground arith

leave-flag : (g : Gem) (t : Plane) → (leave g t).dump_fb_flag ≡ t.dump_fb_flag
leave-flag g t = ground arith

-- The state is left with the statistics `u`.
left :
    (s u : FrameStat) (g : Gem) (t : Plane) (calls : List UpdateCall)
    → t.stat ≡ u
    → t.dump_fb_flag ≡ false
    → u.total ≡ s.total
    → failures u + length calls ≡ failures s + 1
    → u.handle_fail ≤ s.handle_fail + length calls
    → Counted s (leave g t, calls)
left s u g t calls e f total one handled =
    let q = leave-stat g t ∙ e in
    record {
      total = ap (λ x. x.total) q ∙ total;
      one = ap (λ x. failures x + length calls) q ∙ one;
      handled = omega (arith, ap (λ x. x.handle_fail) q, handled);
      unasked = leave-flag g t ∙ f;
    }

-- The counters of `s` do not wrap at the next update.
module _ (a : Answers) (fb : Fb) (s : Plane) (room : failures s.stat + 1 < 2 ^ 64)
    (few : s.stat.handle_fail + 1 < 2 ^ 64) (unasked : s.dump_fb_flag ≡ false) where
  hand_if-Counted :
      (g : Gem) (t : Plane)
      → t.stat ≡ s.stat
      → t.dump_fb_flag ≡ false
      → (u : Option ℕ) (accepts : Bool) → Counted s.stat (hand_if g fb t u accepts)
  hand_if-Counted g t e f none accepts =
      left s.stat (record s.stat { no_usb_hal = up s.stat.no_usb_hal }) g _ []
        (ap (λ (x : FrameStat). record x { no_usb_hal = up x.no_usb_hal }) e) f refl (omega arith)
        (omega arith)
  hand_if-Counted g t e f (some u) true =
      left s.stat s.stat g t _ e f refl (omega arith) (omega arith)
  hand_if-Counted g t e f (some u) false =
      left s.stat (record s.stat { handle_fail = up s.stat.handle_fail }) g _
        (damage_of u g fb ∷ [])
        (ap (λ (x : FrameStat). record x { handle_fail = up x.handle_fail }) e) f refl (omega arith)
        (omega arith)

  hand_over-Counted :
      (g : Gem) (t : Plane)
      → t.stat ≡ s.stat
      → t.dump_fb_flag ≡ false
      → Counted s.stat (hand_over a g fb t)
  unfolding hand_over
  hand_over-Counted g t e f = hand_if-Counted g (record t { locked = true }) e f t.usb_hal a.accepts

  dump_if-Counted :
      (g : Gem) (t : Plane)
      → t.stat ≡ s.stat
      → t.dump_fb_flag ≡ false
      → (b : Bool) → b ≡ false
      → Counted s.stat (dump_if a g fb t b)
  dump_if-Counted g t e f false z = hand_over-Counted g t e f
  dump_if-Counted g t e f true z = absurd (ground (arith, z))

  access_if-Counted :
      (g : Gem) (imported begins : Bool) → Counted s.stat (access_if a g fb s imported begins)
  access_if-Counted g false begins = dump_if-Counted g s refl unasked s.dump_fb_flag unasked
  access_if-Counted g true true =
      dump_if-Counted g (record s { accesses = s.accesses + 1 }) refl unasked s.dump_fb_flag unasked
  access_if-Counted g true false = record {
    total = refl;
    one = omega arith;
    handled = omega arith;
    unasked = unasked;
  }

  access-Counted : (g : Gem) → Counted s.stat (with_access a g fb s)
  unfolding with_access
  access-Counted g = access_if-Counted g g.imported a.begins

  vmap_if-Counted :
      (g : Gem) (failed mapped : Bool) → Counted s.stat (vmap_if a g fb s failed mapped)
  vmap_if-Counted g true mapped = record {
    total = refl;
    one = omega arith;
    handled = omega arith;
    unasked = unasked;
  }
  vmap_if-Counted g false true = access-Counted g
  vmap_if-Counted g false false = record {
    total = refl;
    one = omega arith;
    handled = omega arith;
    unasked = unasked;
  }

  mapped_if-Counted : (mapped : Bool) → Counted s.stat (mapped_if a fb s mapped)
  mapped_if-Counted true = access-Counted fb.object
  mapped_if-Counted false =
      let r = gem_vmap a.memory fb.object in vmap_if-Counted r.1 (is_enomem r.0) r.1.vmapping

-- So many updates there were in all, `handed` of them with a picture.
record IsAccounted (handed : ℕ) (s : FrameStat) : Type 0 where
  all : failures s + handed ≡ s.total
  refused : s.handle_fail ≤ handed

abbrev updates : List (Option (Option Fb) × Answers) → Plane → Updated
updates [] s = (s, [])
updates ((new_state, a) ∷ us) s =
    let (t, calls) = plane_update true new_state a s in
    let (u, more) = updates us t in (u, calls ++ more)

one-Counted :
    (new_state : Option (Option Fb)) (a : Answers) (s : Plane)
    → failures s.stat + 1 < 2 ^ 64
    → s.stat.handle_fail + 1 < 2 ^ 64
    → s.dump_fb_flag ≡ false
    → Counted (counted s).stat (plane_update true new_state a s)
unfolding plane_update
one-Counted none a s room few unasked = record {
  total = refl;
  one = omega arith;
  handled = omega arith;
  unasked = unasked;
}
one-Counted (some none) a s room few unasked = record {
  total = refl;
  one = omega arith;
  handled = omega arith;
  unasked = unasked;
}
one-Counted (some (some fb)) a s room few unasked =
    mapped_if-Counted a fb (record (counted s) { refs = s.refs + 1 }) room few unasked
      fb.object.vmapping

update-IsAccounted :
    (new_state : Option (Option Fb)) (a : Answers) (s : Plane) (handed : ℕ)
    → s.stat.total + 1 < 2 ^ 64
    → IsAccounted handed s.stat
    → s.dump_fb_flag ≡ false
    → let (t, calls) = plane_update true new_state a s in
      IsAccounted (handed + length calls) t.stat
      × (t.stat.total ≡ s.stat.total + 1)
      × (t.dump_fb_flag ≡ false)
update-IsAccounted new_state a s handed small i f =
    let all = i.all in
    let refused = i.refused in
    let c = one-Counted new_state a s (omega arith) (omega arith) f in
    let up_one : up s.stat.total ≡ s.stat.total + 1 = omega arith in
    let total = c.total ∙ up_one in
    (record { all = omega (arith, c.one); refused = omega (arith, c.handled) }, total, c.unasked)

-- Let no dump be asked for, and the failures and the pictures handed over add up to the total,
-- with no more refused than handed over. Then they do after any sequence of updates of the plane,
-- however each ends, and the total has grown by the number of updates, as long as it stays below 2
-- ^ 64.
updates-IsAccounted :
    (us : List (Option (Option Fb) × Answers)) (s : Plane) (handed : ℕ)
    → s.stat.total + length us < 2 ^ 64
    → IsAccounted handed s.stat
    → s.dump_fb_flag ≡ false
    → let (t, calls) = updates us s in
      IsAccounted (handed + length calls) t.stat × (t.stat.total ≡ s.stat.total + length us)
updates-IsAccounted [] s handed small i f =
    (subst (λ n. IsAccounted n s.stat) (omega arith) i, omega arith)
updates-IsAccounted ((new_state, a) ∷ us) s handed small i f =
    let (t, calls) = plane_update true new_state a s in
    let (j, total, f') = update-IsAccounted new_state a s handed (omega arith) i f in
    let more = (updates us t).1 in
    let (k, all) = updates-IsAccounted us t (handed + length calls) (omega arith) j f' in
    let e : handed + length calls + length more ≡ handed + length (calls ++ more) =
      omega (arith, length-append calls more) in
    (subst (λ n. IsAccounted n (updates us t).0.stat) e k, omega arith)
