-- ===== src/Frame/Lines.antt =====
-- The loops of the change detection: what a comparison of a line finds, and what a copy leaves.
use lenovo_magicbay_hud_linu.Base.{
  ℕ, zero, suc, ◌+◌, ◌*◌, ◌≤◌, ◌<◌, ◌≡◌, ◌≢◌, true, false, arith, Bool-cases, inl, inr, ◌==◌,
}
use lenovo_magicbay_hud_linu.Frame.{Pixels, compare_line, copy_line, copy_rows}

-- The line holds a difference at the returned place.
pub compare_line-true :
    (a b : Pixels) (at step len : ℕ)
    → compare_line a b at step len ≡ true
    → (k : ℕ) × (k < len) × (a (at + k * step) ≢ b (at + k * step))
unfolding compare_line
compare_line-true a b at step zero h = absurd (cc)
compare_line-true a b at step (suc len) h = elim (Bool-cases (a at == b at)) [
  | inl same ↦
      let (k, lt, ne) = compare_line-true a b (at + step) step len (ground arith) in
      (
        suc k,
        omega arith,
        let e : at + suc k * step ≡ at + step + k * step = omega arith in rw e ne,
      )
  | inr diff ↦
      (0, omega arith, let e : at + 0 * step ≡ at = omega arith in rw e (λ q. ground arith))
]

-- No difference is reported only where the lines agree.
pub compare_line-false :
    (a b : Pixels) (at step len : ℕ)
    → compare_line a b at step len ≡ false
    → (k : ℕ) → k < len
    → a (at + k * step) ≡ b (at + k * step)
unfolding compare_line
compare_line-false a b at step zero h k lt = absurd (omega arith)
compare_line-false a b at step (suc len) h zero lt =
    let e : at + 0 * step ≡ at = omega arith in rw e (ground arith)
compare_line-false a b at step (suc len) h (suc k) lt =
    ground (arith, compare_line-false a b (at + step) step len (ground arith) k)

pub copy_line-inside :
    (dst src : Pixels) (start len i : ℕ)
    → start ≤ i
    → i < start + len
    → copy_line dst src start len i ≡ src i
unfolding copy_line
copy_line-inside dst src start len i a b = ground arith

pub copy_line-same :
    (dst src : Pixels) (start len i : ℕ) → dst i ≡ src i → copy_line dst src start len i ≡ src i
unfolding copy_line
copy_line-same dst src start len i h = ground arith

pub copy_rows-same :
    (n : ℕ) (dst src : Pixels) (start stride len i : ℕ)
    → dst i ≡ src i
    → copy_rows n dst src start stride len i ≡ src i
unfolding copy_rows
copy_rows-same zero dst src start stride len i h = h
copy_rows-same (suc n) dst src start stride len i h =
    copy_rows-same n (copy_line dst src start len) src (start + stride) stride len i
      (copy_line-same dst src start len i h)

pub copy_rows-inside :
    (n : ℕ) (dst src : Pixels) (start stride len i k : ℕ)
    → k < n
    → start + k * stride ≤ i
    → i < start + k * stride + len
    → copy_rows n dst src start stride len i ≡ src i
unfolding copy_rows
copy_rows-inside zero dst src start stride len i k h a b = absurd (omega arith)
copy_rows-inside (suc n) dst src start stride len i zero h a b =
    copy_rows-same n (copy_line dst src start len) src (start + stride) stride len i
      (copy_line-inside dst src start len i (omega arith) (omega arith))
copy_rows-inside (suc n) dst src start stride len i (suc k) h a b =
    copy_rows-inside n (copy_line dst src start len) src (start + stride) stride len i k
      (omega arith) (omega arith) (omega arith)
