-- ===== src/Device/Flash/Reads.antt =====
-- The flash read in rounds of eight bytes against the contents of the flash.
use lenovo_magicbay_hud_linu.Base.{
  ap, sym, sym, ap, ◌∙◌, ℕ, zero, suc, ◌+◌, ◌-◌, ◌≤◌, ◌<◌, ◌≡◌, refl, true, false, List, ◌∷◌, ◌++◌,
  min, take, arith, ok, leb, inl, inr, Bool-cases,
}
use lenovo_magicbay_hud_linu.Device.{Usb, Request, Reply, answer, M, hid_report, pure, ◌>>=◌}
use lenovo_magicbay_hud_linu.Device.Xdata.Reads.{bytes_of, bytes_of-append, set_of, get_of}
use lenovo_magicbay_hud_linu.Device.Flash.{flash_report, read_flash_loop, read_flash}

-- A bus that fails no transfer, with a chip that answers a flash request out of the flash.
pub record ServesFlash (reply : ℕ → List Request → Request → Reply) (flash : ℕ → ℕ) : Type 0 where
  pub accepts :
      (n : ℕ) (h : List Request) (a : ℕ)
      → reply n h (set_of (flash_report a)) ≡ answer (flash_report a)
  pub reads :
      (n : ℕ) (h : List Request) (a : ℕ)
      → reply n (set_of (flash_report a) ∷ h) (get_of (flash_report a))
        ≡ answer (bytes_of flash a 8)

take-bytes_of : (mem : ℕ → ℕ) (k n a : ℕ) → k ≤ n → take k (bytes_of mem a n) ≡ bytes_of mem a k
take-bytes_of mem zero n a h = refl
take-bytes_of mem (suc k) zero a h = absurd (omega arith)
take-bytes_of mem (suc k) (suc n) a h = rw (take-bytes_of mem k n (a + 1) (omega arith))

-- Where a read of no bytes begins does not matter.
bytes_of-start : (mem : ℕ → ℕ) (a b r : ℕ) → (0 < r → a ≡ b) → bytes_of mem a r ≡ bytes_of mem b r
bytes_of-start mem a b zero h = refl
bytes_of-start mem a b (suc r) h = let e : a ≡ b = h (omega arith) in rw e

-- One round of the loop, and what the rest returns.
round_join :
    (rest : M (List ℕ)) (flash : ℕ → ℕ) (u : Usb) (a k : ℕ) {more : List ℕ}
    → ServesFlash u.reply flash
    → k ≤ 8
    → (rest (record u {
      calls = suc (suc u.calls);
      sent = get_of (flash_report a) ∷ set_of (flash_report a) ∷ u.sent;
    })).0
      ≡ ok more
    → ((do
      sent ← hid_report true (flash_report a)
      data' ← hid_report false sent
      r ← rest
      pure (take k data' ++ r))
        u).0
      ≡ ok (bytes_of flash a k ++ more)
unfolding hid_report
round_join rest flash u a k s small h = ground (
  arith,
  h,
  s.accepts u.calls u.sent a,
  s.reads (suc u.calls) u.sent a,
  take-bytes_of flash k 8 a small,
)

read_flash_loop-ServesFlash :
    (flash : ℕ → ℕ) (fuel : ℕ) (u : Usb) (addr pos len : ℕ)
    → ServesFlash u.reply flash
    → len ≤ pos + fuel
    → (read_flash_loop fuel addr pos len u).0 ≡ ok (bytes_of flash (addr + pos) (len - pos))
unfolding read_flash_loop
read_flash_loop-ServesFlash flash zero u addr pos len s enough =
    let e : len - pos ≡ 0 = omega arith in rw e
read_flash_loop-ServesFlash flash (suc fuel) u addr pos len s enough =
    elim (Bool-cases (leb len pos)) [
      | inl done ↦ let e : len - pos ≡ 0 = ground arith in rw (done, e)
      | inr more ↦
          let k = min 8 (len - pos) in
          let u1 : Usb = record u {
            calls = suc (suc u.calls);
            sent = get_of (flash_report (addr + pos)) ∷ set_of (flash_report (addr + pos)) ∷ u.sent;
          } in
          let ih = read_flash_loop-ServesFlash flash fuel u1 addr (pos + 8) len s (omega arith) in
          let c : k + (len - (pos + 8)) ≡ len - pos = ground arith in
          let join = bytes_of-append flash (addr + pos) k (len - (pos + 8)) in
          let tail =
            bytes_of-start flash (addr + pos + k) (addr + (pos + 8)) (len - (pos + 8))
              (λ left. omega arith) in
          let one =
            round_join (read_flash_loop fuel addr (pos + 8) len) flash u (addr + pos) k s
              (omega arith) ih in
          rw more (
            one
            ∙ ap ok (
                ap (λ (t : List ℕ). bytes_of flash (addr + pos) k ++ t) (sym tail)
                ∙ sym join
                ∙ ap (bytes_of flash (addr + pos)) c))
    ]

-- On a bus that fails no transfer, with a chip that answers out of its flash, `ms9132_read_flash`
-- returns the bytes of the flash from `addr` on, if it is asked for at least one.
read_flash-ServesFlash :
    (flash : ℕ → ℕ) (u : Usb) (addr len : ℕ)
    → ServesFlash u.reply flash
    → 0 < len
    → (read_flash addr len u).0 ≡ ok (bytes_of flash addr len)
unfolding read_flash
read_flash-ServesFlash flash u addr len s pos =
    let whole = read_flash_loop-ServesFlash flash len u addr 0 len s (omega arith) in
    let e : addr + 0 ≡ addr = omega arith in
    let f : len - 0 ≡ len = omega arith in ground (arith, e, f, whole)
