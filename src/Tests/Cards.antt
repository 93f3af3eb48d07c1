-- ===== src/Tests/Cards.antt =====
-- The objects of a card and its pipelines at concrete inputs.
use lenovo_magicbay_hud_linu.Base.{
  ℕ, List, max, drop, ltb, if◌then◌else◌, ◌+◌, ◌*◌, ◌≤◌, ◌≡◌, refl, true, false, [], ◌∷◌, length,
  arith, ok, some, none, replicate,
}
use lenovo_magicbay_hud_linu.Drm.Dump.{save_buf_to_bmp}
use lenovo_magicbay_hud_linu.Drm.Dump.Reading.{read_bmp, read_32, save_buf_to_bmp-read_bmp}
use lenovo_magicbay_hud_linu.Drm.Gem.{
  Gem, Memory, created, gem_free_object, gem_vmap, gem_vunmap, gem_mmap_offset, pin_pages,
  gem_get_pages, unpin_pages, put_pages,
}
use lenovo_magicbay_hud_linu.Drm.Gem.Uses.{Use, Uses, IsGone, new_object, gem_free_object-IsGone}
use lenovo_magicbay_hud_linu.Drm.Gem.Dumb.{align_pitch, Dumb, dumb_create}
use lenovo_magicbay_hud_linu.Drm.Fb.{Fb, FbCmd, fb_create, fb_size}
use lenovo_magicbay_hud_linu.Drm.Fb.Sizes.{fb_of, whole, dumb_create-fb_create, fb_create_wraps}
use lenovo_magicbay_hud_linu.Drm.Plane.{
  Plane, FrameStat, Answers, UpdateCall, plane_update, with_access, hand_over,
}
use lenovo_magicbay_hud_linu.Drm.Plane.Balance.{Ended, plane_update-IsBalanced}
use lenovo_magicbay_hud_linu.Drm.Dump.Request.{
  DumpRequest, dump_fb_store, c_string, dump_fb_store_names,
}
use lenovo_magicbay_hud_linu.Drm.Plane.Reads.{plane_update-Inside}
use lenovo_magicbay_hud_linu.Hal.Modes.{fourcc_xrgb8888}
use lenovo_magicbay_hud_linu.Hal.Update.{Picture, update_frame}
use lenovo_magicbay_hud_linu.Hal.Update.Reach.{Alike}
use lenovo_magicbay_hud_linu.Tests.Displays.{tiny_hal, xrgb, xrgb_known}

abbrev answering : Memory
answering = record { get_pages = none; vmap = true; dma_vmap = true; mmap_offset = none }

-- An object of two pages that is mapped, looked at by a program, and unmapped.
abbrev looked_at : Gem
looked_at = record {
  size = 8192;
  imported = false;
  pages = true;
  pages_pin_count = 1;
  vmapping = false;
  held = 1;
  maps = 0;
  bad_puts = 0;
}

looked_at-Uses : Uses (new_object false 8192) looked_at
unfolding gem_vmap gem_vunmap gem_mmap_offset pin_pages gem_get_pages unpin_pages put_pages
looked_at-Uses =
    Uses.later
      (Uses.later
        (Uses.later Uses.start (Use.vmap answering (new_object false 8192) refl (omega arith)))
        (Use.mmap answering _ (omega arith)))
      (Use.vunmap _ refl)

gem_free_object-IsGone_example : IsGone (gem_free_object looked_at)
gem_free_object-IsGone_example = gem_free_object-IsGone false 8192 looked_at looked_at-Uses

-- A frame buffer of 32 by 32 pixels in an object of one page.
abbrev small_cmd : FbCmd
small_cmd = whole 32 32 128 fourcc_xrgb8888

abbrev small_fb : Fb
small_fb = fb_of small_cmd (created 4096)

abbrev no_frames : FrameStat
no_frames = record {
  total = 0;
  no_usb_hal = 0;
  no_new_state = 0;
  no_fb = 0;
  vmap_fail = 0;
  vmap_null = 0;
  cpu_access_fail = 0;
  acquire_buf_fail = 0;
  handle_fail = 0;
}

abbrev idle : Plane
idle = record {
  stat = no_frames;
  usb_hal = some 7;
  dump_fb_flag = false;
  refs = 0;
  accesses = 0;
  locked = false;
  stopped = false;
}

abbrev willing : Answers
willing = record { memory = answering; begins = true; accepts = true }

small_fb-created : fb_create (some (created 4096)) true none small_cmd ≡ (ok small_fb, 1)
unfolding fb_create fb_size
small_fb-created = refl

-- What the display is handed of it.
abbrev small_call : UpdateCall
small_call = record {
  usb_hal = 7;
  object = record {
    size = 4096;
    imported = false;
    pages = true;
    pages_pin_count = 1;
    vmapping = true;
    held = 1;
    maps = 1;
    bad_puts = 0;
  };
  pitch = 128;
  len = 4096;
  format = fourcc_xrgb8888;
}

small_fb-call : (plane_update true (some (some small_fb)) willing idle).1 ≡ small_call ∷ []
unfolding plane_update with_access hand_over gem_vmap pin_pages gem_get_pages
small_fb-call = refl

-- Two pictures that are the same in the object's 1024 pixels, on a display of 8 by 4 pixels.
abbrev counting : Picture
counting = record { pixels = λ i. i; bytes = λ i. 0; pitch = 128; len = 4096 }

abbrev cut_off : Picture
cut_off = record counting { pixels = λ i. if ltb i 1024 then i else 0 }

counting-Alike : Alike 1024 counting cut_off
counting-Alike = record { pitch = refl; len = refl; pixels = λ i lt. ground arith }

plane_update-Inside_example :
    (small_call.object.vmapping ≡ true)
    × (update_frame false counting fourcc_xrgb8888 tiny_hal
        ≡ update_frame false cut_off fourcc_xrgb8888 tiny_hal)
plane_update-Inside_example =
    plane_update-Inside (created 4096) true none small_cmd small_fb 1 true willing idle small_call
      [] false tiny_hal xrgb counting cut_off small_fb-created (omega arith) refl small_fb-call
      (omega arith) (omega arith) xrgb_known refl (record { pitch = refl; len = refl })
      counting-Alike

-- A frame buffer of an object that was lent.
abbrev lent_fb : Fb
lent_fb = fb_of small_cmd (new_object true 4096)

-- A dump is asked for.
abbrev asked : Plane
asked = record idle { dump_fb_flag = true }

plane_update-IsBalanced_example :
    Ended asked (some (some lent_fb)) (plane_update true (some (some lent_fb)) willing asked)
plane_update-IsBalanced_example =
    plane_update-IsBalanced true (some (some lent_fb)) willing asked refl refl

-- The name of an earlier dump is longer than the new one.
abbrev asked_before : DumpRequest
asked_before = record {
  dump_fb_filename = 47 ∷ 97 ∷ 98 ∷ 99 ∷ replicate 252 0;
  dump_fb_flag = false;
}

dump_fb_store_names_example :
    let line = dump_fb_store (47 ∷ 122 ∷ 10 ∷ []) asked_before in
    let bare = dump_fb_store (47 ∷ 122 ∷ []) asked_before in
    (line.dump_fb_flag ≡ true)
    × (c_string line.dump_fb_filename ≡ 47 ∷ 122 ∷ [])
    × (bare.dump_fb_flag ≡ true)
    × (c_string bare.dump_fb_filename ≡ 47 ∷ 122 ∷ 98 ∷ 99 ∷ [])
dump_fb_store_names_example =
    dump_fb_store_names 47 (122 ∷ []) asked_before
      (ground arith, ground arith, (ground arith, ground arith, tt)) (omega arith) refl

align_pitch-1366 : align_pitch 1366 4 ≡ 5632
unfolding align_pitch
align_pitch-1366 = refl

dumb_create-fb_create_example :
    (d : Dumb) × (dumb_create true none 1366 768 32 ≡ ok d)
    × (4 * 1366 ≤ d.pitch)
    × (d.pitch * 768 ≤ d.object.size)
    × (fb_create (some d.object) true none (whole 1366 768 d.pitch 0)
        ≡ (ok (fb_of (whole 1366 768 d.pitch 0) d.object), 1))
dumb_create-fb_create_example =
    dumb_create-fb_create 1366 768 0 (omega arith) (omega (arith, align_pitch-1366))

-- Pitch and offset come to one byte less than 2 ^ 32.
abbrev huge_cmd : FbCmd
huge_cmd = record { bpp = 32; width = 32; height = 1; pitch = 128; offset = 4294967167; format = 0 }

fb_create_wraps_example :
    fb_create (some (created 4096)) true none huge_cmd ≡ (ok (fb_of huge_cmd (created 4096)), 1)
fb_create_wraps_example = fb_create_wraps (created 4096) huge_cmd refl (omega arith) (omega arith)

abbrev old_dump : List ℕ
old_dump = replicate 100 9

-- Two by two pixels whose bytes are their places, over a file of 100 bytes.
save_buf_to_bmp-read_bmp_example :
    let file = save_buf_to_bmp old_dump (λ i. i) 2 2 4 in
    (read_bmp file 1 5 ≡ some (1 * (2 * 4) + 5))
    × (length file ≡ max (read_32 file 2) 100)
    × (drop (read_32 file 2) file ≡ drop (read_32 file 2) old_dump)
save_buf_to_bmp-read_bmp_example =
    save_buf_to_bmp-read_bmp old_dump (λ i. i) 2 2 1 5 (omega arith) (omega arith) (omega arith)
