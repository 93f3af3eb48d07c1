-- ===== src/Drm/Dump/Request.antt =====
-- The request for a dump, `msdisp_drm_dump_fb_store` of drm/msdisp_drm_sysfs.c: a text written into
-- a file of sysfs names the file that the next picture is dumped into.
use lenovo_magicbay_hud_linu.Base.{
  ℕ, zero, suc, ◌-◌, ◌≤◌, ◌<◌, ◌≡◌, ◌≢◌, refl, ap, ◌∙◌, Bool, true, false, Option, none, some, List,
  [], ◌∷◌, ◌++◌, length, get_elem?, set, ◌==◌, ltb, arith, if◌then◌else◌, length-append, drop,
}

-- The fields of a pipeline that a request sets; the name has 256 bytes.
pub record DumpRequest : Type 0 where
  pub dump_fb_filename : List ℕ
  pub dump_fb_flag : Bool

-- `memcpy` to the start of an array.
abbrev overwrite : List ℕ → List ℕ → List ℕ
overwrite [] old = old
overwrite (b ∷ bs) [] = []
overwrite (b ∷ bs) (o ∷ old) = b ∷ overwrite bs old

abbrev is_newline : Option ℕ → Bool
is_newline none = false
is_newline (some b) = b == 10

-- A newline at the end of the name becomes its end.
unfoldable remove_newline : ℕ → List ℕ → List ℕ
remove_newline last name = if is_newline (get_elem? name last) then set name last 0 else name

-- The kernel does not call the store for a text of no bytes.
unfoldable pub dump_fb_store : List ℕ → DumpRequest → DumpRequest
unfolding remove_newline
dump_fb_store buf r = if ltb 255 (length buf) then r else record {
  dump_fb_filename = remove_newline (length buf - 1) (overwrite buf r.dump_fb_filename);
  dump_fb_flag = true;
}

-- The string that begins at an array, as the dump reads the name.
abbrev pub c_string : List ℕ → List ℕ
c_string [] = []
c_string (zero ∷ bs) = []
c_string (suc b ∷ bs) = suc b ∷ c_string bs

-- A text without zero bytes and newlines.
abbrev IsLine : List ℕ → Type 0
IsLine [] = Unit
IsLine (b ∷ bs) = (b ≢ 0) × (b ≢ 10) × IsLine bs

c_string-overwrite :
    (path old : List ℕ)
    → IsLine path
    → length path ≤ length old
    → c_string (overwrite path old) ≡ path ++ c_string (drop (length path) old)
c_string-overwrite [] old l le = refl
c_string-overwrite (b ∷ bs) [] l le = absurd (omega arith)
c_string-overwrite (zero ∷ bs) (o ∷ old) (nz, nn, l) le = absurd (nz refl)
c_string-overwrite (suc b ∷ bs) (o ∷ old) (nz, nn, l) le =
    ap (λ t. suc b ∷ t) (c_string-overwrite bs old l (omega arith))

c_string-ended :
    (path old : List ℕ)
    → IsLine path
    → length path < length old
    → c_string (set (overwrite (path ++ 10 ∷ []) old) (length path) 0) ≡ path
c_string-ended path [] l lt = absurd (omega arith)
c_string-ended [] (o ∷ old) l lt = refl
c_string-ended (zero ∷ bs) (o ∷ old) (nz, nn, l) lt = absurd (nz refl)
c_string-ended (suc b ∷ bs) (o ∷ old) (nz, nn, l) lt =
    ap (λ t. suc b ∷ t) (c_string-ended bs old l (omega arith))

newline-found :
    (path old : List ℕ)
    → length path < length old
    → is_newline (get_elem? (overwrite (path ++ 10 ∷ []) old) (length path)) ≡ true
newline-found path [] lt = absurd (omega arith)
newline-found [] (o ∷ old) lt = refl
newline-found (b ∷ bs) (o ∷ old) lt = newline-found bs old (omega arith)

no_newline :
    (b : ℕ) (bs old : List ℕ)
    → IsLine (b ∷ bs)
    → is_newline (get_elem? (overwrite (b ∷ bs) old) (length bs)) ≡ false
no_newline b bs [] l = refl
no_newline b [] (o ∷ old) (nz, nn, l) = ground arith
no_newline b (c ∷ bs) (o ∷ old) (nz, nn, l) = no_newline c bs old l

store-short :
    (buf : List ℕ) (r : DumpRequest)
    → length buf ≤ 255
    → (dump_fb_store buf r).dump_fb_flag ≡ true
      × ((dump_fb_store buf r).dump_fb_filename
          ≡ remove_newline (length buf - 1) (overwrite buf r.dump_fb_filename))
unfolding dump_fb_store
store-short buf r le =
    let e : ltb 255 (length buf) ≡ false = ground arith in rw (dump_fb_store, e) (refl, refl)

remove_newline-line :
    (path old : List ℕ)
    → IsLine path
    → length path < length old
    → c_string (remove_newline (length path) (overwrite (path ++ 10 ∷ []) old)) ≡ path
unfolding remove_newline
remove_newline-line path old l lt =
    rw (remove_newline, newline-found path old lt) (c_string-ended path old l lt)

remove_newline-open :
    (b : ℕ) (bs old : List ℕ)
    → IsLine (b ∷ bs)
    → remove_newline (length (b ∷ bs) - 1) (overwrite (b ∷ bs) old) ≡ overwrite (b ∷ bs) old
unfolding remove_newline
remove_newline-open b bs old l =
    let last : length (b ∷ bs) - 1 ≡ length bs = omega arith in
    rw (last, remove_newline, no_newline b bs old l) refl

-- Let a path of 1 to 254 bytes have no zero byte and no newline, and the name's array have 256
-- bytes. Written with a newline at its end, the path is the name afterwards. Written without one,
-- the name is the path and, behind it, what the array had there up to a zero byte. Both times a
-- dump is requested.
pub dump_fb_store_names :
    (b : ℕ) (bs : List ℕ) (r : DumpRequest)
    → let path = b ∷ bs in
      IsLine path
      → length path ≤ 254
      → length r.dump_fb_filename ≡ 256
      → let line = dump_fb_store (path ++ 10 ∷ []) r in
        let bare = dump_fb_store path r in
        (line.dump_fb_flag ≡ true)
        × (c_string line.dump_fb_filename ≡ path)
        × (bare.dump_fb_flag ≡ true)
        × (c_string bare.dump_fb_filename
            ≡ path ++ c_string (drop (length path) r.dump_fb_filename))
dump_fb_store_names b bs r l le size =
    let path : List ℕ = b ∷ bs in
    let old = r.dump_fb_filename in
    let long = length-append path (10 ∷ []) in
    let last : length (path ++ 10 ∷ []) - 1 ≡ length path = omega (arith, long) in
    let (flag, name) = store-short (path ++ 10 ∷ []) r (omega (arith, long)) in
    let (flag', name') = store-short path r (omega arith) in
    (
      flag,
      ap c_string (name ∙ ap (λ n. remove_newline n (overwrite (path ++ 10 ∷ []) old)) last)
          ∙ remove_newline-line path old l (omega arith),
      flag',
      ap c_string (name' ∙ remove_newline-open b bs old l)
          ∙ c_string-overwrite path old l (omega arith),
    )
