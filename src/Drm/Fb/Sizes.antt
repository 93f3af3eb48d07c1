-- ===== src/Drm/Fb/Sizes.antt =====
-- Which frame buffers fit into their objects.
use mathlib.Core.Path.{subst}
use lenovo_magicbay_hud_linu.Base.{
  ◌-◌, ==_iff, ℕ, ◌+◌, ◌*◌, ◌%◌, ◌^◌, ◌<◌, ◌≤◌, ◌≡◌, ◌∙◌, ap, ap₂, refl, Bool, true, false, Option,
  none, some, ◌==◌, ltb, u32, arith, Bool-cases, Option-cases, inl, inr, ok, fail, if◌then◌else◌,
  Errno, einval, enomem,
}
use lenovo_magicbay_hud_linu.Drm.Gem.{Gem, created}
use lenovo_magicbay_hud_linu.Drm.Gem.Dumb.{align_pitch, gem_create, dumb_create, roundup, Dumb}
use lenovo_magicbay_hud_linu.Drm.Fb.{FbCmd, Fb, Created, fb_size, fb_create}

abbrev pub fb_of : FbCmd → Gem → Fb
fb_of c g = record {
  width = c.width;
  height = c.height;
  pitch = c.pitch;
  format = c.format;
  object = g;
}

-- What becomes of a request whose format is known, by whether the object is too small.
abbrev fb_if : Bool → Bool → Option Errno → FbCmd → Gem → Created
fb_if small allocated init c g =
    if small
    then (fail enomem, 0)
    else if allocated
    then elim init [ some e ↦ (fail einval, 0) | none ↦ (ok (fb_of c g), 1) ]
    else (fail enomem, 0)

fb_create-sized :
    (g : Gem) (allocated : Bool) (init : Option Errno) (c : FbCmd)
    → (c.bpp == 32) ≡ true
    → fb_create (some g) allocated init c ≡ fb_if (ltb g.size (fb_size c)) allocated init c g
unfolding fb_create
fb_create-sized g allocated init c b = rw (fb_create, b)

fb_create-fits :
    (g : Gem) (c : FbCmd)
    → c.bpp ≡ 32
    → fb_size c ≤ g.size
    → fb_create (some g) true none c ≡ (ok (fb_of c g), 1)
fb_create-fits g c b le =
    let e : ltb g.size (fb_size c) ≡ false = ground arith in
    fb_create-sized g true none c ((==_iff _ _).1 b) ∙ ap (λ s. fb_if s true none c g) e

fb_size-le :
    (c : FbCmd) (n : ℕ) → c.offset + c.pitch * c.height ≡ n → n + 4095 < 2 ^ 32 → n ≤ fb_size c
unfolding fb_size
fb_size-le c n e lt = omega arith

fb_size-eq :
    (c : FbCmd) (n : ℕ)
    → c.offset + c.pitch * c.height ≡ n
    → n + 4095 < 2 ^ 32
    → fb_size c ≡ roundup n
unfolding fb_size
fb_size-eq c n e lt = omega arith

fb_size-wraps :
    (c : FbCmd) (n : ℕ)
    → c.offset + c.pitch * c.height ≡ n
    → 2 ^ 32 ≤ n + 4095
    → n < 2 ^ 32
    → fb_size c ≡ 0
unfolding fb_size
fb_size-wraps c n e le lt = omega arith

align_pitch-4 :
    (width : ℕ)
    → width < 2 ^ 30 - 64
    → (4 * width ≤ align_pitch width 4)
      × (align_pitch width 4 % 256 ≡ 0)
      × (align_pitch width 4 < 4 * width + 256)
unfolding align_pitch
align_pitch-4 width lt = omega arith

-- What is known of a request whose frame buffer is made of `g`.
abbrev IsInside : FbCmd → Gem → Fb → Type 0
IsInside c g fb =
    (fb.object ≡ g)
    × (fb.pitch ≡ c.pitch)
    × (fb.height ≡ c.height)
    × (c.bpp ≡ 32)
    × (fb_size c ≤ g.size)

abbrev IsSound : FbCmd → Option Gem → Created → Type 0
IsSound c none (fail e, refs) = refs ≡ 0
IsSound c none (ok fb, refs) = ⊥
IsSound c (some g) (fail e, refs) = refs ≡ 0
IsSound c (some g) (ok fb, refs) = (refs ≡ 1) × IsInside c g fb

fb_create-IsSound :
    (o : Option Gem) (allocated : Bool) (init : Option Errno) (c : FbCmd)
    → IsSound c o (fb_create o allocated init c)
unfolding fb_create
fb_create-IsSound none allocated init c = elim (Bool-cases (c.bpp == 32)) [
  | inl b ↦ rw (fb_create, b) refl
  | inr b ↦ rw (fb_create, b) refl
]
fb_create-IsSound (some g) allocated init c = elim (Bool-cases (c.bpp == 32)) [
  | inr b ↦ rw (fb_create, b) refl
  | inl b ↦ elim (Bool-cases (ltb g.size (fb_size c))) [
    | inl s ↦ rw (fb_create, b, s) refl
    | inr s ↦ elim (Bool-cases allocated) [
      | inr a ↦ rw (fb_create, b, s, a) refl
      | inl a ↦ elim (Option-cases init) [
        | inr (e, i) ↦ rw (fb_create, b, s, a, i) refl
        | inl i ↦
            rw (fb_create, b, s, a, i) (refl, (refl, refl, refl, (==_iff _ _).0 b, ground arith))
      ]
    ]
  ]
]

-- The bytes of a frame buffer that is made lie in its object, unless their number and a page come
-- to 2 ^ 32, and one reference to the object is kept.
pub fb_create_inside :
    (g : Gem) (allocated : Bool) (init : Option Errno) (c : FbCmd) (fb : Fb) (refs : ℕ)
    → fb_create (some g) allocated init c ≡ (ok fb, refs)
    → c.offset + c.pitch * c.height + 4095 < 2 ^ 32
    → (refs ≡ 1) × (fb.object ≡ g) × (c.bpp ≡ 32) × (c.offset + fb.pitch * fb.height ≤ g.size)
fb_create_inside g allocated init c fb refs e lt =
    let (one, (same, pitch, height, bpp, le)) =
      subst (IsSound c (some g)) e (fb_create-IsSound (some g) allocated init c) in
    let n : fb.pitch * fb.height ≡ c.pitch * c.height = ap₂ ◌*◌ pitch height in
    let below = fb_size-le c (c.offset + c.pitch * c.height) refl lt in
    (one, same, bpp, omega arith)

-- If offset and pitch times height come to less than 2 ^ 32, but to 2 ^ 32 or more with 4095, a
-- frame buffer of 32 bits a pixel is made of any object, whatever its size.
pub fb_create_wraps :
    (g : Gem) (c : FbCmd)
    → c.bpp ≡ 32
    → 2 ^ 32 ≤ c.offset + c.pitch * c.height + 4095
    → c.offset + c.pitch * c.height < 2 ^ 32
    → fb_create (some g) true none c ≡ (ok (fb_of c g), 1)
fb_create_wraps g c b le lt =
    let e = fb_size-wraps c (c.offset + c.pitch * c.height) refl le lt in
    fb_create-fits g c b (omega arith)

-- The frame buffer of a whole dumb buffer.
abbrev pub whole : ℕ → ℕ → ℕ → ℕ → FbCmd
whole width height pitch format = record {
  bpp = 32;
  width = width;
  height = height;
  pitch = pitch;
  offset = 0;
  format = format;
}

dumb_create-granted :
    (width height : ℕ)
    → dumb_create true none width height 32
      ≡ ok (record {
        pitch = align_pitch width 4;
        size = u32 (align_pitch width 4 * height);
        object = created (roundup (u32 (align_pitch width 4 * height)));
      })
unfolding dumb_create gem_create
dumb_create-granted width height = refl

-- If a width is below 2 ^ 30 - 64, and its pitch times the height and 4095 are below 2 ^ 32, a
-- dumb buffer of 32 bits a pixel that the kernel has memory for has a pitch of at least four bytes
-- a pixel and an object of at least pitch times height bytes, and a frame buffer of the whole of
-- it is made.
pub dumb_create-fb_create :
    (width height format : ℕ)
    → width < 2 ^ 30 - 64
    → align_pitch width 4 * height + 4095 < 2 ^ 32
    → (d : Dumb) × (dumb_create true none width height 32 ≡ ok d)
      × (4 * width ≤ d.pitch)
      × (d.pitch * height ≤ d.object.size)
      × (fb_create (some d.object) true none (whole width height d.pitch format)
          ≡ (ok (fb_of (whole width height d.pitch format) d.object), 1))
dumb_create-fb_create width height format lt small =
    let pitch = align_pitch width 4 in
    let n = pitch * height in
    let size = u32 n in
    let g = created (roundup size) in
    let c = whole width height pitch format in
    let same : size ≡ n = omega arith in
    let le : n ≤ roundup size = omega arith in
    let need = fb_size-eq c n (omega arith) small in
    (
      record { pitch = pitch; size = size; object = g },
      dumb_create-granted width height,
      (align_pitch-4 width lt).0,
      le,
      fb_create-fits g c refl (omega (arith, need, ap roundup same)),
    )
