-- ===== src/Device/Xdata/Reads.antt =====
-- The chunked read of `ms9132_read_xdata` against the memory of a chip that answers.
use lenovo_magicbay_hud_linu.Base.{
  ◌==◌, take, ℕ, zero, suc, ◌+◌, ◌-◌, ◌≤◌, ◌<◌, ◌≡◌, refl, true, false, List, [], ◌∷◌, ◌++◌, min,
  arith, u16, ok, inl, inr, Bool-cases,
}
use lenovo_magicbay_hud_linu.Device.{M, Usb, Request, Reply, answer, pure, ◌>>=◌}
use lenovo_magicbay_hud_linu.Device.Xdata.{
  read_report, addr_hi, addr_lo, read_xdata_once, read_xdata_loop, read_xdata,
}

abbrev pub set_of : List ℕ → Request
set_of bytes = record { is_set = true; report = bytes }

abbrev pub get_of : List ℕ → Request
get_of bytes = record { is_set = false; report = bytes }

-- A bus that fails no transfer, with a chip that answers a read request out of its memory.
pub record Serves (reply : ℕ → List Request → Request → Reply) (mem : ℕ → ℕ) : Type 0 where
  pub accepts :
      (n : ℕ) (h : List Request) (addr : ℕ)
      → reply n h (set_of (read_report addr)) ≡ answer (read_report addr)
  pub reads :
      (n : ℕ) (h : List Request) (addr : ℕ)
      → reply n (set_of (read_report addr) ∷ h) (get_of (read_report addr))
        ≡ answer (
            0xB5
            ∷ addr_hi addr
            ∷ addr_lo addr
            ∷ mem addr
            ∷ mem (addr + 1)
            ∷ mem (addr + 2)
            ∷ mem (addr + 3)
            ∷ 0
            ∷ [])

-- The `n` bytes of a memory from an address on.
abbrev pub bytes_of : (ℕ → ℕ) → ℕ → ℕ → List ℕ
bytes_of mem addr zero = []
bytes_of mem addr (suc n) = mem addr ∷ bytes_of mem (addr + 1) n

pub bytes_of-append :
    (mem : ℕ → ℕ) (addr n k : ℕ)
    → bytes_of mem addr (n + k) ≡ bytes_of mem addr n ++ bytes_of mem (addr + n) k
bytes_of-append mem addr zero k =
    let e : 0 + k ≡ k = omega arith in let f : addr + 0 ≡ addr = omega arith in rw (e, f)
bytes_of-append mem addr (suc n) k =
    let e : suc n + k ≡ suc (n + k) = omega arith in
    let f : addr + suc n ≡ addr + 1 + n = omega arith in
    rw (e, f, bytes_of-append mem (addr + 1) n k)

-- The data bytes of an answer are those of the memory, as many as are asked for.
take_data :
    (mem : ℕ → ℕ) (addr n : ℕ)
    → n ≤ 4
    → take n (mem addr ∷ mem (addr + 1) ∷ mem (addr + 2) ∷ mem (addr + 3) ∷ 0 ∷ [])
      ≡ bytes_of mem addr n
take_data mem addr zero h = refl
take_data mem addr (suc zero) h = refl
take_data mem addr (suc (suc zero)) h = refl
take_data mem addr (suc (suc (suc zero))) h = ground arith
take_data mem addr (suc (suc (suc (suc zero)))) h = ground arith
take_data mem addr (suc (suc (suc (suc (suc n))))) h = absurd (omega arith)

-- One transfer of at most four bytes.
read_xdata_once-Serves :
    (mem : ℕ → ℕ) (u : Usb) (addr n : ℕ)
    → Serves u.reply mem
    → n ≤ 4
    → read_xdata_once addr n u ≡ (
      ok (bytes_of mem addr n),
      record u {
        calls = suc (suc u.calls);
        sent = get_of (read_report addr) ∷ set_of (read_report addr) ∷ u.sent;
      },
    )
unfolding read_xdata_once
read_xdata_once-Serves mem u addr n s h = ground (
  arith,
  s.accepts u.calls u.sent addr,
  s.reads (suc u.calls) u.sent addr,
  take_data mem addr n h,
)

-- A first transfer and the rest of the loop, put together.
read_xdata_loop-join :
    (m k : M (List ℕ)) {u u1 : Usb} {part rest all : List ℕ}
    → m u ≡ (ok part, u1)
    → (k u1).0 ≡ ok rest
    → all ≡ part ++ rest
    → ((do p ← m; r ← k; pure (p ++ r)) u).0 ≡ ok all
read_xdata_loop-join m k p q e = ground (arith, p, q, e)

read_xdata_loop-Serves :
    (mem : ℕ → ℕ) (fuel : ℕ) (u : Usb) (addr offset cnt : ℕ)
    → Serves u.reply mem
    → cnt ≤ fuel
    → addr + offset + cnt ≤ 65536
    → offset + cnt < 65536
    → (read_xdata_loop fuel addr offset cnt u).0 ≡ ok (bytes_of mem (addr + offset) cnt)
unfolding read_xdata_loop
read_xdata_loop-Serves mem zero u addr offset cnt s enough fits small =
    let e : cnt ≡ 0 = omega arith in rw e
read_xdata_loop-Serves mem (suc fuel) u addr offset cnt s enough fits small =
    elim (Bool-cases (cnt == 0)) [
      | inl done ↦ let e : cnt ≡ 0 = ground arith in rw e
      | inr more ↦
          let n = min 4 cnt in
          let u1 : Usb = record u {
            calls = suc (suc u.calls);
            sent =
                get_of (read_report (addr + offset))
                ∷ set_of (read_report (addr + offset))
                ∷ u.sent;
          } in
          let a : u16 (addr + offset) ≡ addr + offset = ground arith in
          let b : u16 (offset + n) ≡ offset + n = ground arith in
          let c : n + (cnt - n) ≡ cnt = ground arith in
          let d : addr + (offset + n) ≡ addr + offset + n = omega arith in
          let one = read_xdata_once-Serves mem u (addr + offset) n s (omega arith) in
          let ih =
            read_xdata_loop-Serves mem fuel u1 addr (offset + n) (cnt - n) s (ground arith)
              (ground arith) (ground arith) in
          let join = bytes_of-append mem (addr + offset) n (cnt - n) in
          rw (a, b, more)
            (read_xdata_loop-join (read_xdata_once (addr + offset) n)
              (read_xdata_loop fuel addr (offset + n) (cnt - n)) one (rw d at ih) (rw c at join))
    ]

-- On a bus that fails no transfer, with a chip that answers out of its memory, `ms9132_read_xdata`
-- returns the bytes of the range in order, however many transfers of four bytes that takes, if the
-- range is not empty, has fewer than 0x10000 bytes and ends at 0x10000 or before.
pub read_xdata-Serves :
    (mem : ℕ → ℕ) (u : Usb) (addr cnt : ℕ)
    → Serves u.reply mem
    → 0 < cnt
    → cnt < 0x10000
    → addr + cnt ≤ 0x10000
    → (read_xdata addr cnt u).0 ≡ ok (bytes_of mem addr cnt)
unfolding read_xdata
read_xdata-Serves mem u addr cnt s pos small fits =
    let whole =
      read_xdata_loop-Serves mem cnt u addr 0 cnt s (omega arith) (omega arith) (omega arith) in
    let e : addr + 0 ≡ addr = omega arith in ground (arith, e, whole)
