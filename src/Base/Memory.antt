-- ===== src/Base/Memory.antt =====
-- Byte and pixel buffers as functions from an index, with the writes of C loops.
use lenovo_magicbay_hud_linu.Base.{
  ℕ, zero, suc, ◌+◌, ◌-◌, ◌≤◌, ◌<◌, ◌≡◌, refl, List, [], ◌∷◌, length, get_or, arith, ltb, leb, ◌==◌,
  ◌&&◌, if◌then◌else◌,
}

abbrev pub Memory : Type 0
Memory = ℕ → ℕ

-- `m[at] = v`
abbrev pub put : Memory → ℕ → ℕ → Memory
put m at v i = if i == at then v else m i

-- The writes of `*p++ = x` for each `x`, with `p` at `at` before the first.
pub store : Memory → ℕ → List ℕ → Memory
store m at [] = m
store m at (x ∷ xs) = store (put m at x) (at + 1) xs

-- `memcpy(dst + to, src + from, len)`
unfoldable pub copy : Memory → ℕ → Memory → ℕ → ℕ → Memory
copy dst to src from len i = if leb to i && ltb i (to + len) then src (from + (i - to)) else dst i

pub store-before : (xs : List ℕ) (m : Memory) (at i : ℕ) → i < at → store m at xs i ≡ m i
unfolding store
store-before [] m at i h = refl
store-before (x ∷ xs) m at i h = ground (arith, store-before xs (put m at x) (at + 1) i)

pub store-after : (xs : List ℕ) (m : Memory) (at i : ℕ) → at + length xs ≤ i → store m at xs i ≡ m i
unfolding store
store-after [] m at i h = refl
store-after (x ∷ xs) m at i h = ground (arith, store-after xs (put m at x) (at + 1) i)

pub store-inside :
    (xs : List ℕ) (m : Memory) (at k : ℕ) → k < length xs → store m at xs (at + k) ≡ get_or xs k 0
unfolding store
store-inside [] m at k h = absurd (omega arith)
store-inside (x ∷ xs) m at zero h = ground (arith, store-before xs (put m at x) (at + 1) (at + 0))
store-inside (x ∷ xs) m at (suc k) h =
    let e : at + suc k ≡ at + 1 + k = omega arith in
    rw e (store-inside xs (put m at x) (at + 1) k (omega arith))

pub copy-inside :
    (dst : Memory) (to : ℕ) (src : Memory) (from len i : ℕ)
    → to ≤ i
    → i < to + len
    → copy dst to src from len i ≡ src (from + (i - to))
unfolding copy
copy-inside dst to src from len i h k = ground arith

pub copy-before :
    (dst : Memory) (to : ℕ) (src : Memory) (from len i : ℕ)
    → i < to
    → copy dst to src from len i ≡ dst i
unfolding copy
copy-before dst to src from len i h = ground arith

pub copy-after :
    (dst : Memory) (to : ℕ) (src : Memory) (from len i : ℕ)
    → to + len ≤ i
    → copy dst to src from len i ≡ dst i
unfolding copy
copy-after dst to src from len i h = ground arith
