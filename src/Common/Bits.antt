-- ===== src/Common/Bits.antt =====
-- Single bits of a machine word, and what `&` and `|` do to them.
use Prim.Native.Nat.{digits, bitwise, bit_and, bit_or, bit_and-bitwise, bit_or-bitwise}
use Prim.Native.Nat.{ℕ, zero, suc, ◌+◌, ◌*◌, ◌/◌, ◌%◌, ◌^◌, ◌≤◌, ◌<◌, min, max}
use mathlib.Core.Path.{◌≡◌, refl, ap}
use native.Mathlib.Nat.{le_refl, pow-suc}
use native.Mathlib.Omega.{arith}

-- One binary digit at a time: both operators halve their arguments, and the rounds that they are
-- given beyond the first argument change nothing.
module _ (tail : ℕ → ℕ) (op : ℕ → ℕ → ℕ) where
  spare_rounds :
      (x y given needed : ℕ)
      → x ≤ needed
      → x ≤ given
      → digits tail op given x y ≡ digits tail op needed x y
  spare_rounds zero y zero zero p q = refl
  spare_rounds zero y zero (suc needed) p q = refl
  spare_rounds zero y (suc given) zero p q = refl
  spare_rounds zero y (suc given) (suc needed) p q = refl
  spare_rounds (suc x) y given zero p q = absurd (omega arith)
  spare_rounds (suc x) y zero (suc needed) p q = absurd (omega arith)
  spare_rounds (suc x) y (suc given) (suc needed) p q =
      let half = spare_rounds (suc x / 2) (y / 2) given needed (omega arith) (omega arith) in
      rw half refl

  halve :
      (x y : ℕ)
      → 0 < x
      → bitwise tail op x y ≡ op (x % 2) (y % 2) + 2 * bitwise tail op (x / 2) (y / 2)
  halve zero y positive = absurd (omega arith)
  halve (suc x) y positive =
      let same = spare_rounds (suc x / 2) (y / 2) x (suc x / 2) (le_refl _) (omega arith) in
      omega (arith, same)

pub bit_or_step : (a b : ℕ) → bit_or a b ≡ bit_or (a / 2) (b / 2) * 2 + max (a % 2) (b % 2)
bit_or_step a b = simp bit_or-bitwise (joined a)
  where
    joined :
        (x : ℕ)
        → bitwise (λ y. y) max x b ≡ bitwise (λ y. y) max (x / 2) (b / 2) * 2 + max (x % 2) (b % 2)
    joined zero = omega arith
    joined (suc x) = let h = halve (λ y. y) max (suc x) b (omega arith) in omega (arith, h)

pub bit_and_step : (a b : ℕ) → bit_and a b ≡ bit_and (a / 2) (b / 2) * 2 + min (a % 2) (b % 2)
bit_and_step a b = simp bit_and-bitwise (met a)
  where
    met :
        (x : ℕ)
        → bitwise (λ y. 0) min x b ≡ bitwise (λ y. 0) min (x / 2) (b / 2) * 2 + min (x % 2) (b % 2)
    met zero = omega arith
    met (suc x) = let h = halve (λ y. 0) min (suc x) b (omega arith) in omega (arith, h)

-- The digit of `a` at place `k`.
unfoldable pub bit : ℕ → ℕ → ℕ
bit zero a = a % 2
bit (suc k) a = bit k (a / 2)

pub bit-le-one : (k a : ℕ) → bit k a ≤ 1
unfolding bit
bit-le-one zero a = omega arith
bit-le-one (suc k) a = bit-le-one k (a / 2)

pub bit-bit_and : (k a b : ℕ) → bit k (bit_and a b) ≡ min (bit k a) (bit k b)
unfolding bit
bit-bit_and zero a b = omega (arith, bit_and_step a b)
bit-bit_and (suc k) a b =
    let half : bit_and a b / 2 ≡ bit_and (a / 2) (b / 2) = omega (arith, bit_and_step a b) in
    rw half (bit-bit_and k (a / 2) (b / 2))

pub bit-bit_or : (k a b : ℕ) → bit k (bit_or a b) ≡ max (bit k a) (bit k b)
unfolding bit
bit-bit_or zero a b = omega (arith, bit_or_step a b)
bit-bit_or (suc k) a b =
    let half : bit_or a b / 2 ≡ bit_or (a / 2) (b / 2) = omega (arith, bit_or_step a b) in
    rw half (bit-bit_or k (a / 2) (b / 2))

masked_by_none : (rounds word : ℕ) → word ≤ rounds → bit_and word 0 ≡ 0
masked_by_none zero zero below = refl
masked_by_none zero (suc word) below = absurd (omega arith)
masked_by_none (suc rounds) zero below = refl
masked_by_none (suc rounds) (suc word) below =
    let half = masked_by_none rounds (suc word / 2) (omega arith) in
    let step = bit_and_step (suc word) 0 in omega (arith, half, step)

pub bit_and-zero : (word : ℕ) → bit_and word 0 ≡ 0
bit_and-zero word = masked_by_none word word (le_refl word)

-- Masking with a single bit leaves that digit in its place.
pub bit_and-pow : (k a : ℕ) → bit_and a (2 ^ k) ≡ 2 ^ k * bit k a
unfolding bit
bit_and-pow zero a = omega (arith, bit_and_step a 1, bit_and-zero (a / 2))
bit_and-pow (suc k) a =
    let e : 2 ^ suc k ≡ 2 ^ k * 2 = pow-suc 2 k in
    let h : 2 ^ suc k / 2 ≡ 2 ^ k = omega arith in
    let step : bit_and a (2 ^ suc k) ≡ bit_and (a / 2) (2 ^ k) * 2 =
      rw (← h) (omega (arith, bit_and_step a (2 ^ suc k))) in
    omega (arith, step, bit_and-pow k (a / 2), ap (λ (t : ℕ). t * bit k (a / 2)) e)
