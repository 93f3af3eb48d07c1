-- ===== src/Hal/Buffers.antt =====
-- The memory of a display's buffers, usb_hal/usb_hal_interface.c: what is allocated and freed. An
-- allocation is named by the number of its request; the contents, all zero at first, are left out.
pub mod Frees
pub mod Images
pub mod Blocks
pub mod Lifetime
use lenovo_magicbay_hud_linu.Base.{
  ℕ, suc, ◌+◌, ◌*◌, Bool, true, false, List, [], ◌∷◌, Option, none, some, ◌==◌, Errno, enomem,
  Outcome, ok, fail, if◌then◌else◌,
}

-- Which requests the kernel grants, and the code of `sg_alloc_table_from_pages` if it fails.
pub record Kernel : Type 0 where
  pub grants : ℕ → Bool
  pub sg_error : Errno

-- `live` is what is allocated, latest first; `bad_frees` counts frees of anything else.
pub record Heap : Type 0 where
  pub requests : ℕ
  pub live : List ℕ
  pub bad_frees : ℕ

unfoldable pub alloc : Kernel → Heap → Option ℕ × Heap
alloc k h =
    let n = h.requests in
    if k.grants n
    then (some n, record h { requests = n + 1; live = n ∷ h.live })
    else (none, record h { requests = n + 1 })

unfoldable pub remove : ℕ → List ℕ → Option (List ℕ)
remove p [] = none
remove p (x ∷ xs) =
    let rest = remove p xs in
    if x == p then some xs else elim rest [ none ↦ none | some ys ↦ some (x ∷ ys) ]

unfoldable pub release : ℕ → Heap → Heap
release p h = elim (remove p h.live) [
  | none ↦ record h { bad_frees = suc h.bad_frees }
  | some live ↦ record h { live = live }
]

-- `if (p) vfree(p);`, and `kfree`, which takes NULL
abbrev pub free : Option ℕ → Heap → Heap
free none h = h
free (some p) h = release p h

-- The pointers to the buffers, each `none` for NULL; `sg_list` is what the table `sgt` holds.
pub record Buffers : Type 0 where
  pub heap : Heap
  pub cursor_buf : Option ℕ
  pub old_cursor_buf : Option ℕ
  pub desktop_buf : Option ℕ
  pub image_buf : Option ℕ
  pub usb_buf : Option ℕ
  pub sgt : Option ℕ
  pub sg_list : Option ℕ
  pub type : ℕ
  pub size : ℕ
  pub len : ℕ
  pub cursor_valid : Bool
  pub old_cursor_valid : Bool
  pub mouse_moving : Bool
  pub update_time : ℕ

-- The buffers of a `struct usb_hal_dev` from `kzalloc`.
abbrev pub zeroed : Heap → Buffers
zeroed h = record {
  heap = h;
  cursor_buf = none;
  old_cursor_buf = none;
  desktop_buf = none;
  image_buf = none;
  usb_buf = none;
  sgt = none;
  sg_list = none;
  type = 0;
  size = 0;
  len = 0;
  cursor_valid = false;
  old_cursor_valid = false;
  mouse_moving = false;
  update_time = 0;
}

-- `USB_HAL_BUF_SIZE` and `USB_HAL_BUF_DEF_LEN`
abbrev pub buf_size : ℕ
buf_size = 8 * 1024 * 1024

abbrev pub buf_def_len : ℕ
buf_def_len = 4 * 1920 * 1080

abbrev type_usb : ℕ
type_usb = 0

abbrev pub type_vmalloc : ℕ
type_vmalloc = 3

-- The code after the label `fail` of `usb_dev_vmalloc_image`.
unfoldable pub image_fail : Buffers → Buffers
image_fail b = record b {
  heap = free b.image_buf (free b.desktop_buf (free b.old_cursor_buf (free b.cursor_buf b.heap)));
  cursor_buf = none;
  old_cursor_buf = none;
  desktop_buf = none;
  image_buf = none;
}

abbrev pub Step : Type 0
Step = Outcome (Unit {0}) × Buffers

-- `if (!p) { ret = -ENOMEM; goto fail; }`
abbrev or_fail : (Buffers → Buffers) → Option ℕ → Buffers → Step → Step
or_fail undo none b next = (fail enomem, undo b)
or_fail undo (some p) b next = next

unfoldable pub vmalloc_image : Kernel → ℕ → Buffers → Step
vmalloc_image k now b =
    let b0 : Buffers = record b {
      cursor_valid = false;
      old_cursor_valid = false;
      mouse_moving = false;
      update_time = now;
    } in
    let (cursor, h1) = alloc k b0.heap in
    let b1 : Buffers = record b0 { heap = h1; cursor_buf = cursor } in
    let (old_cursor, h2) = alloc k h1 in
    let b2 : Buffers = record b1 { heap = h2; old_cursor_buf = old_cursor } in
    let (desktop, h3) = alloc k h2 in
    let b3 : Buffers = record b2 { heap = h3; desktop_buf = desktop } in
    let (image, h4) = alloc k h3 in
    let b4 : Buffers = record b3 { heap = h4; image_buf = image } in
    or_fail image_fail cursor b1 (
      or_fail image_fail old_cursor b2
        (or_fail image_fail desktop b3 (or_fail image_fail image b4 (ok tt, b4))))

-- The code after the label `fail` of `usb_dev_vmalloc_usb`, but for `pages`.
unfoldable pub usb_fail : Buffers → Buffers
usb_fail b = record b {
  heap = free b.sgt (free b.usb_buf b.heap);
  size = 0;
  len = 0;
  usb_buf = none;
  sgt = none;
}

-- After the label `success`: the array of the pages is freed.
abbrev pub free_pages : ℕ → Buffers → Buffers
free_pages pages b = record b { heap = release pages b.heap }

-- What comes after `sg_alloc_table_from_pages`, whose result is `entries`.
abbrev with_table : Kernel → ℕ → Option ℕ → Buffers → Step
with_table k pages none b = (fail k.sg_error, free_pages pages (usb_fail b))
with_table k pages (some entries) b =
    (ok tt, free_pages pages (record b { sg_list = some entries }))

-- What comes after the `kmalloc` of `pages`.
abbrev with_pages : Kernel → Option ℕ → Buffers → Step
with_pages k none b = (fail enomem, usb_fail b)
with_pages k (some pages) b =
    let (entries, h) = alloc k b.heap in with_table k pages entries (record b { heap = h })

unfoldable pub vmalloc_usb : Kernel → Buffers → Step
vmalloc_usb k b =
    let (buf, h1) = alloc k b.heap in
    let b1 : Buffers = record b { heap = h1; usb_buf = buf } in
    let (sgt, h2) = alloc k h1 in
    let b2 : Buffers = record b1 { heap = h2; sgt = sgt } in
    let (pages, h3) = alloc k h2 in
    or_fail usb_fail buf b1 (or_fail usb_fail sgt b2 (with_pages k pages (record b2 { heap = h3 })))

-- What `usb_dev_alloc_buf` does with the result of `usb_dev_vmalloc_usb`.
abbrev pub with_usb : Step → Step
with_usb (ok t, b) = (ok tt, record b { type = type_vmalloc })
with_usb (fail e, b) = (fail enomem, record b { usb_buf = none; size = 0; len = 0 })

-- The code of `usb_dev_vmalloc_image` is overwritten.
unfoldable pub alloc_buf : Kernel → ℕ → Buffers → Step
alloc_buf k now b =
    with_usb
      (vmalloc_usb k (record (vmalloc_image k now b).1 { size = buf_size; len = buf_def_len }))

abbrev free_images : Buffers → Heap → Heap
free_images b h =
    free b.image_buf (free b.desktop_buf (free b.old_cursor_buf (free b.cursor_buf h)))

-- The switch on the type of the buffer: the other buffers are freed with one of `type_vmalloc`.
abbrev free_by_type : ℕ → Buffers → Buffers
free_by_type p b =
    if b.type == type_usb
    then record b { heap = release p b.heap }
    else if b.type == type_vmalloc
    then record b {
      heap = free_images b (release p (free b.sgt (free b.sg_list b.heap)));
      sgt = none;
      sg_list = none;
    }
    else b

unfoldable pub free_buf : Buffers → Buffers
free_buf b = elim b.usb_buf [
  | none ↦ b
  | some p ↦ record (free_by_type p b) {
    usb_buf = none;
    desktop_buf = none;
    cursor_buf = none;
    old_cursor_buf = none;
  }
]
