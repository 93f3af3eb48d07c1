-- ===== src/Base/Loop.antt =====
-- `for` loops that stop at the first index that passes a test, upwards and downwards.
use lenovo_magicbay_hud_linu.Base.{
  ℕ, zero, suc, ◌+◌, ◌≤◌, ◌<◌, ◌≡◌, Bool, true, false, Option, none, some, arith, if◌then◌else◌,
  Bool-cases, inl, inr,
}

-- `for (k = i; k < i + n; k++) if (test(k)) break;`
unfoldable pub first_from : ℕ → ℕ → (ℕ → Bool) → Option ℕ
first_from zero i test = none
first_from (suc n) i test = let rest = first_from n (i + 1) test in if test i then some i else rest

-- `for (k = lo + n - 1; k >= lo; k--) if (test(k)) break;`
unfoldable pub last_from : ℕ → ℕ → (ℕ → Bool) → Option ℕ
last_from zero lo test = none
last_from (suc n) lo test =
    let rest = last_from n lo test in if test (lo + n) then some (lo + n) else rest

-- What is found is the first index that passes.
pub record IsFirst (n i : ℕ) (test : ℕ → Bool) (j : ℕ) : Type 0 where
  pub from : i ≤ j
  pub below : j < i + n
  pub passes : test j ≡ true
  pub earlier : (k : ℕ) → i ≤ k → k < j → test k ≡ false

pub record IsLast (n lo : ℕ) (test : ℕ → Bool) (j : ℕ) : Type 0 where
  pub from : lo ≤ j
  pub below : j < lo + n
  pub passes : test j ≡ true
  pub later : (k : ℕ) → j < k → k < lo + n → test k ≡ false

pub first_from-none :
    (n i : ℕ) (test : ℕ → Bool)
    → first_from n i test ≡ none
    → (k : ℕ) → i ≤ k
    → k < i + n
    → test k ≡ false
unfolding first_from
first_from-none zero i test h k lo hi = absurd (omega arith)
first_from-none (suc n) i test h k lo hi =
    ground (arith, first_from-none n (i + 1) test (ground arith) k)

pub first_from-some :
    (n i : ℕ) (test : ℕ → Bool) {j : ℕ} → first_from n i test ≡ some j → IsFirst n i test j
unfolding first_from
first_from-some zero i test h = cc
first_from-some (suc n) i test {j} h = elim (Bool-cases (test i)) [
  | inl t ↦ record {
    from = ground arith;
    below = ground arith;
    passes = ground arith;
    earlier = λ k a b. absurd (ground arith);
  }
  | inr f ↦
      let r = first_from-some n (i + 1) test {j = j} (ground arith) in
      record {
        from = omega (arith, r.from);
        below = omega (arith, r.below);
        passes = r.passes;
        earlier = λ k a b. ground (arith, r.earlier k);
      }
]

pub last_from-none :
    (n lo : ℕ) (test : ℕ → Bool)
    → last_from n lo test ≡ none
    → (k : ℕ) → lo ≤ k
    → k < lo + n
    → test k ≡ false
unfolding last_from
last_from-none zero lo test h k a b = absurd (omega arith)
last_from-none (suc n) lo test h k a b = ground (arith, last_from-none n lo test (ground arith) k)

pub last_from-some :
    (n lo : ℕ) (test : ℕ → Bool) {j : ℕ} → last_from n lo test ≡ some j → IsLast n lo test j
unfolding last_from
last_from-some zero lo test h = cc
last_from-some (suc n) lo test {j} h = elim (Bool-cases (test (lo + n))) [
  | inl t ↦ record {
    from = ground arith;
    below = ground arith;
    passes = ground arith;
    later = λ k a b. absurd (ground arith);
  }
  | inr f ↦
      let r = last_from-some n lo test {j = j} (ground arith) in
      record {
        from = omega (arith, r.from);
        below = omega (arith, r.below);
        passes = r.passes;
        later = λ k a b. ground (arith, r.later k);
      }
]
