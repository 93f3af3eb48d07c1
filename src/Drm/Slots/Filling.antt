-- ===== src/Drm/Slots/Filling.antt =====
-- The counter of the platform devices is the number of slots in use.
use native.Mathlib.Decide.{dec_lt}
use lenovo_magicbay_hud_linu.Base.{
  ◌⊎◌, ℕ, zero, suc, ◌+◌, ◌-◌, ◌≤◌, ◌<◌, ◌≡◌, ◌∙◌, ap, refl, true, false, List, [], ◌∷◌, Option,
  none, some, arith, set, einval, ok, fail, length, leb, ltb, ◌==◌, inl, inr,
}
use lenovo_magicbay_hud_linu.Drm.Slots.{
  Slots, device_count_max, no_devices, free_idx, filled, create_at, device_add, add_loop,
  add_devices, present, emptied, remove_all_devices,
}

pub record IsFilled (s : Slots) : Type 0 where
  pub slots : length s.devices ≡ device_count_max
  pub counted : length (present s.devices) ≡ s.dev_count

pub no_devices-IsFilled : IsFilled no_devices
unfolding present
no_devices-IsFilled = record { slots = refl; counted = refl }

-- A list with fewer devices than slots has a free one, and filling it adds one device.
free_idx-found :
    (ds : List (Option ℕ)) (i : ℕ)
    → length (present ds) < length ds
    → (j : ℕ) × (free_idx ds i ≡ some (i + j))
      × ((d : ℕ)
          → (length (set ds j (some d)) ≡ length ds)
            × (length (present (set ds j (some d))) ≡ length (present ds) + 1))
unfolding free_idx present
free_idx-found [] i lt = absurd (omega arith)
free_idx-found (none ∷ ds) i lt = (0, ap some (omega arith), λ d. (refl, omega arith))
free_idx-found (some x ∷ ds) i lt =
    let (j, e, f) = free_idx-found ds (i + 1) (omega arith) in
    (suc j, e ∙ ap some (omega arith), λ d. (omega (arith, (f d).0), omega (arith, (f d).1)))

create_at-free :
    (s : Slots) (i d : ℕ)
    → s.dev_count < device_count_max
    → create_at s (some i) (some d) ≡ (ok tt, filled s i d)
create_at-free s i d lt =
    let e : leb device_count_max s.dev_count ≡ false = ground arith in rw e refl

device_add-adds :
    (s : Slots) (d : ℕ)
    → IsFilled s
    → s.dev_count < device_count_max
    → (t : Slots) × (device_add (some d) s ≡ (ok tt, t))
      × IsFilled t
      × (t.dev_count ≡ s.dev_count + 1)
unfolding device_add
device_add-adds s d f lt =
    let c = f.counted in
    let n = f.slots in
    let (j, e, g) = free_idx-found s.devices 0 (omega arith) in
    let (same, one) = g d in
    (
      filled s j d,
      ap (λ i. create_at s i (some d)) (e ∙ ap some (omega arith)) ∙ create_at-free s j d lt,
      record { slots = same ∙ n; counted = one ∙ ap (λ k. k + 1) c },
      refl,
    )

-- One round of the loop that succeeds.
add_loop-suc :
    (val : ℕ) (created : ℕ → Option ℕ) (i : ℕ) (s t : Slots)
    → device_add (created i) s ≡ (ok tt, t)
    → add_loop (suc val) created i s ≡ add_loop val created (i + 1) t
unfolding add_loop
add_loop-suc val created i s t e = rw (add_loop, e) (ap (λ r. add_loop val created (i + 1) r.1) e)

add_loop-adds :
    (val : ℕ) (created : ℕ → Option ℕ) (i : ℕ) (s : Slots)
    → ((k : ℕ) → (d : ℕ) × (created k ≡ some d))
    → IsFilled s
    → s.dev_count + val ≤ device_count_max
    → (t : Slots) × (add_loop val created i s ≡ (ok tt, t))
      × IsFilled t
      × (t.dev_count ≡ s.dev_count + val)
unfolding add_loop
add_loop-adds zero created i s works f le = (s, refl, f, omega arith)
add_loop-adds (suc val) created i s works f le =
    let (d, c) = works i in
    let (t, e, g, n) = device_add-adds s d f (omega arith) in
    let (u, e', h, m) = add_loop-adds val created (i + 1) t works g (omega arith) in
    (u, add_loop-suc val created i s t (ap (λ x. device_add x s) c ∙ e) ∙ e', h, omega arith)

add_devices-room :
    (val : ℕ) (created : ℕ → Option ℕ) (s : Slots)
    → 0 < val
    → s.dev_count + val ≤ device_count_max
    → add_devices val created s ≡ add_loop val created 0 s
unfolding add_devices
add_devices-room val created s pos le =
    let e : (val == 0) ≡ false = ground arith in
    let f : ltb (device_count_max - s.dev_count) val ≡ false = ground arith in
    rw (add_devices, e, f) refl

add_devices-full :
    (val : ℕ) (created : ℕ → Option ℕ) (s : Slots)
    → device_count_max < s.dev_count + val
    → s.dev_count ≤ device_count_max
    → add_devices val created s ≡ (fail einval, s)
unfolding add_devices
add_devices-full val created s lt le =
    let e : (val == 0) ≡ false = ground arith in
    let f : ltb (device_count_max - s.dev_count) val ≡ true = ground arith in
    rw (add_devices, e, f) refl

add_devices-none :
    (val : ℕ) (created : ℕ → Option ℕ) (s : Slots)
    → val ≡ 0
    → add_devices val created s ≡ (ok tt, s)
unfolding add_devices
add_devices-none val created s z =
    let e : (val == 0) ≡ true = ground arith in rw (add_devices, e) refl

present-le : (ds : List (Option ℕ)) → length (present ds) ≤ length ds
unfolding present
present-le [] = omega arith
present-le (none ∷ ds) = omega (arith, present-le ds)
present-le (some d ∷ ds) = omega (arith, present-le ds)

-- If the kernel registers every device and the counter is the number of slots in use,
-- `msdisp_platform_add_devices` either returns 0 and has filled as many slots as asked for, with
-- the counter right again and at most 3, or there would be more than 3 and it returns -EINVAL and
-- changes nothing.
pub add_devices-exact :
    (val : ℕ) (created : ℕ → Option ℕ) (s : Slots)
    → ((k : ℕ) → (d : ℕ) × (created k ≡ some d))
    → IsFilled s
    → ((t : Slots) × (add_devices val created s ≡ (ok tt, t))
        × IsFilled t
        × (t.dev_count ≡ s.dev_count + val)
        × (s.dev_count + val ≤ device_count_max))
      ⊎ ((add_devices val created s ≡ (fail einval, s)) × (device_count_max < s.dev_count + val))
add_devices-exact val created s works f =
    let below : s.dev_count ≤ device_count_max =
      omega (arith, present-le s.devices, f.counted, f.slots) in
    elim (dec_lt device_count_max (s.dev_count + val)) [
      | yes lt ↦ inr (add_devices-full val created s lt below, lt)
      | no room ↦ elim (dec_lt 0 val) [
        | yes pos ↦
            let le : s.dev_count + val ≤ device_count_max = omega arith in
            let (t, e, g, n) = add_loop-adds val created 0 s works f le in
            inl (t, add_devices-room val created s pos le ∙ e, g, n, le)
        | no zero_val ↦
            inl (s, add_devices-none val created s (omega arith), f, omega arith, omega arith)
      ]
    ]

present-emptied : (ds : List (Option ℕ)) → present (emptied ds) ≡ []
unfolding present emptied
present-emptied [] = refl
present-emptied (d ∷ ds) = present-emptied ds

length-emptied : (ds : List (Option ℕ)) → length (emptied ds) ≡ length ds
unfolding emptied
length-emptied [] = refl
length-emptied (d ∷ ds) = ap suc (length-emptied ds)

-- Removing all devices destroys each once, and leaves the counter and the slots at 0 and empty.
remove_all_devices-all :
    (s : Slots)
    → IsFilled s
    → let (t, destroyed) = remove_all_devices s in
      IsFilled t
      × (t.dev_count ≡ 0)
      × (destroyed ≡ present s.devices)
      × (length destroyed ≡ s.dev_count)
      × (present t.devices ≡ [])
unfolding remove_all_devices
remove_all_devices-all s f = (
  record {
    slots = length-emptied s.devices ∙ f.slots;
    counted = ap length (present-emptied s.devices);
  },
  refl,
  refl,
  f.counted,
  present-emptied s.devices,
)
