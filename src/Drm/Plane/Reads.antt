-- ===== src/Drm/Plane/Reads.antt =====
-- What the display reads of a picture lies in the object of the frame buffer.
use mathlib.Core.Path.{subst}
use lenovo_magicbay_hud_linu.Base.{
  ℕ, ◌+◌, ◌*◌, ◌/◌, ◌%◌, ◌≤◌, ◌<◌, ◌^◌, ◌≡◌, ◌∙◌, sym, ap, refl, Bool, true, false, List, [], ◌∷◌,
  Option, some, none, arith, Errno, ok, u32, ◌==◌,
}
use lenovo_magicbay_hud_linu.Hal.{Hal}
use lenovo_magicbay_hud_linu.Hal.Modes.{FormatDesc, find_desc, color_rgb}
use lenovo_magicbay_hud_linu.Hal.Update.{Picture, update_frame}
use lenovo_magicbay_hud_linu.Hal.Update.Reach.{Alike, update_frame_same}
use lenovo_magicbay_hud_linu.Drm.Gem.{Gem, gem_vmap}
use lenovo_magicbay_hud_linu.Drm.Gem.Mapping.{vmap-size}
use lenovo_magicbay_hud_linu.Drm.Fb.{Fb, FbCmd, fb_create}
use lenovo_magicbay_hud_linu.Drm.Fb.Sizes.{fb_create_inside}
use lenovo_magicbay_hud_linu.Drm.Plane.{
  Plane, Answers, UpdateCall, hand_over, access_if, vmap_if, mapped_if, hand_if, with_access,
  plane_update, is_enomem, counted, dump_if,
}

-- Every call gets a mapped object of the size of the frame buffer's, and its pitch and length.
abbrev Given : Fb → List UpdateCall → Type 0
Given fb [] = Unit
Given fb (c ∷ cs) =
    (c.object.vmapping ≡ true)
    × (c.object.size ≡ fb.object.size)
    × (c.pitch ≡ fb.pitch)
    × (c.len ≡ u32 (fb.pitch * fb.height))
    × Given fb cs

module _ (a : Answers) (fb : Fb) where
  hand_if-Given :
      (g : Gem) (s : Plane)
      → g.vmapping ≡ true
      → g.size ≡ fb.object.size
      → (u : Option ℕ) (accepts : Bool) → Given fb (hand_if g fb s u accepts).1
  hand_if-Given g s v e none accepts = tt
  hand_if-Given g s v e (some u) true = (v, e, refl, refl, tt)
  hand_if-Given g s v e (some u) false = (v, e, refl, refl, tt)

  hand_over-Given :
      (g : Gem) (s : Plane)
      → g.vmapping ≡ true
      → g.size ≡ fb.object.size
      → Given fb (hand_over a g fb s).1
  unfolding hand_over
  hand_over-Given g s v e = hand_if-Given g (record s { locked = true }) v e s.usb_hal a.accepts

  dump_if-Given :
      (g : Gem) (s : Plane)
      → g.vmapping ≡ true
      → g.size ≡ fb.object.size
      → (asked : Bool) → Given fb (dump_if a g fb s asked).1
  dump_if-Given g s v e true = tt
  dump_if-Given g s v e false = hand_over-Given g s v e

  access_if-Given :
      (g : Gem) (s : Plane)
      → g.vmapping ≡ true
      → g.size ≡ fb.object.size
      → (imported begins : Bool) → Given fb (access_if a g fb s imported begins).1
  access_if-Given g s v e false begins = dump_if-Given g s v e s.dump_fb_flag
  access_if-Given g s v e true true =
      dump_if-Given g (record s { accesses = s.accesses + 1 }) v e s.dump_fb_flag
  access_if-Given g s v e true false = tt

  access-Given :
      (g : Gem) (s : Plane)
      → g.vmapping ≡ true
      → g.size ≡ fb.object.size
      → Given fb (with_access a g fb s).1
  unfolding with_access
  access-Given g s v e = access_if-Given g s v e g.imported a.begins

  vmap_if-Given :
      (g : Gem) (s : Plane)
      → g.size ≡ fb.object.size
      → (failed mapped : Bool) → g.vmapping ≡ mapped
      → Given fb (vmap_if a g fb s failed mapped).1
  vmap_if-Given g s e true mapped v = tt
  vmap_if-Given g s e false true v = access-Given g s v e
  vmap_if-Given g s e false false v = tt

  mapped_if-Given :
      (s : Plane) (mapped : Bool)
      → fb.object.vmapping ≡ mapped
      → Given fb (mapped_if a fb s mapped).1
  mapped_if-Given s true v = access-Given fb.object s v refl
  mapped_if-Given s false v =
      let r = gem_vmap a.memory fb.object in
      vmap_if-Given r.1 s (vmap-size a.memory fb.object) (is_enomem r.0) r.1.vmapping refl

update-Given :
    (valid : Bool) (a : Answers) (fb : Fb) (s : Plane)
    → Given fb (plane_update valid (some (some fb)) a s).1
unfolding plane_update
update-Given false a fb s = tt
update-Given true a fb s =
    mapped_if-Given a fb (record (counted s) { refs = s.refs + 1 }) fb.object.vmapping refl

-- The picture that a call hands over.
pub record IsPicture (call : UpdateCall) (p : Picture) : Type 0 where
  pub pitch : p.pitch ≡ call.pitch
  pub len : p.len ≡ call.len

-- Rows of whole pixels fit into the whole pixels of the memory that holds them.
pixels_fit : (pitch rows size : ℕ) → pitch * rows ≤ size → rows * (pitch / 4) ≤ size / 4
pixels_fit pitch rows size le =
    let parts : pitch ≡ pitch / 4 * 4 + pitch % 4 = omega arith in
    let all : pitch * rows ≡ rows * (pitch / 4) * 4 + pitch % 4 * rows =
      ap (λ (k : ℕ). k * rows) parts ∙ grind arith in
    omega (arith, all)

-- Let `msdisp_drm_fb_user_fb_create` have made a frame buffer of an object, with a pitch of whole
-- pixels, and offset, pitch times height and 4095 below 2 ^ 32 together. Let an update of a plane
-- hand it over by a call of `update_frame`, to a display whose mode has no more rows than the
-- frame buffer and no more pixels in a row than the pitch, in an RGB format. Then the object is
-- mapped, and of the picture only the pixels that lie in the object have a part in what the call
-- does: another picture that has these, whatever it has behind them, leaves the same.
pub plane_update-Inside :
    (g : Gem) (allocated : Bool) (init : Option Errno) (c : FbCmd) (fb : Fb) (refs : ℕ)
    (valid : Bool) (a : Answers) (s : Plane) (call : UpdateCall) (rest : List UpdateCall)
    (lock_fails : Bool) (h : Hal) (d : FormatDesc) (p q : Picture)
    → fb_create (some g) allocated init c ≡ (ok fb, refs)
    → c.offset + c.pitch * c.height + 4095 < 2 ^ 32
    → fb.pitch % 4 ≡ 0
    → (plane_update valid (some (some fb)) a s).1 ≡ call ∷ rest
    → h.mode.height ≤ fb.height
    → h.mode.width * 4 ≤ fb.pitch
    → find_desc call.format ≡ some d
    → (d.color_fmt == color_rgb) ≡ true
    → IsPicture call p
    → Alike (g.size / 4) p q
    → (call.object.vmapping ≡ true)
      × (update_frame lock_fails p call.format h ≡ update_frame lock_fails q call.format h)
plane_update-Inside g allocated init c fb refs valid a s call rest lock_fails h d p q made lt whole
      calls high wide known rgb is alike =
    let (one, same, bpp, le) = fb_create_inside g allocated init c fb refs made lt in
    let (mapped, size, pitch, len, more) = subst (Given fb) calls (update-Given valid a fb s) in
    let pitch_is = is.pitch ∙ pitch in
    let fits : fb.pitch * fb.height ≤ g.size = omega arith in
    let n = pixels_fit fb.pitch fb.height g.size fits in
    let e : p.pitch / 4 ≡ fb.pitch / 4 = ap (λ (k : ℕ). k / 4) pitch_is in
    (
      mapped,
      update_frame_same lock_fails call.format h d p q fb.height (g.size / 4) known rgb alike high
          (omega (arith, pitch_is, wide)) (subst (λ (k : ℕ). fb.height * k ≤ g.size / 4) (sym e) n)
          (omega (arith, is.len, len, fits)),
    )
