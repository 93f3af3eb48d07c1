-- ===== src/Base/Tables.antt =====
-- Facts about `|` and `&` on bytes, checked at every value.
use lenovo_magicbay_hud_linu.Base.{
  false, if◌then◌else◌, ℕ, zero, suc, ◌+◌, ◌*◌, ◌/◌, ◌%◌, ◌<◌, ◌≡◌, refl, Bool, true, ◌==◌, ==_iff,
  bit_or, arith,
}

-- A test of every number under a bound, and what a table that was computed says of one of them.
unfoldable pub passes_under : (ℕ → Bool) → ℕ → Bool
passes_under test zero = true
passes_under test (suc k) = let rest = passes_under test k in if test k then rest else false

pub passes_under_at :
    (test : ℕ → Bool) (bound i : ℕ) → i < bound → passes_under test bound ≡ true → test i ≡ true
unfolding passes_under
passes_under_at test zero i lt h = absurd (omega arith)
passes_under_at test (suc k) i lt h = ground (arith, passes_under_at test k i)

nibble_table : passes_under (λ x. bit_or (x / 16 * 16) (x % 16) == x) 256 ≡ true
unfolding passes_under
nibble_table = refl

-- Two nibbles joined by `|` are their sum.
pub bit_or_nibbles : (a b : ℕ) → a < 16 → b < 16 → bit_or (a * 16) b ≡ a * 16 + b
bit_or_nibbles a b p q =
    let h = (==_iff _ (a * 16 + b)).0 (
      passes_under_at (λ x. bit_or (x / 16 * 16) (x % 16) == x) 256 (a * 16 + b) (omega arith)
        nibble_table) in
    let e : (a * 16 + b) / 16 * 16 ≡ a * 16 = omega arith in
    let f : (a * 16 + b) % 16 ≡ b = omega arith in rw (e, f) at h
