-- ===== src/Base/Bits.antt =====
-- Laws of the native `bit_and` and `bit_or`, which the libraries state only by their digits.
use mathlib.Core.Path.{◌≡◌, refl, ap}
use native.Mathlib.Omega.{arith}
use Prim.Native.Nat.{
  ℕ, zero, suc, ◌+◌, ◌*◌, ◌/◌, ◌%◌, ◌≤◌, ◌<◌, min, max, bit_and, bit_or, digits, bit_and-bitwise,
  bit_or-bitwise,
}
use mathlib.Core.Bool.{Bool, true, ◌&&◌}
use native.Mathlib.Nat.{add-zero, mul-one as mul_one}

-- The test holds of every number below the bound.
unfoldable pub all_below : ℕ → (ℕ → Bool) → Bool
all_below zero test = true
all_below (suc k) test = all_below k test && test k

pub all_below_sound :
    (bound : ℕ) (test : ℕ → Bool) (i : ℕ) → all_below bound test ≡ true → i < bound → test i ≡ true
unfolding all_below
all_below_sound zero test i all lt = absurd (omega arith)
all_below_sound (suc k) test i all lt = ground (arith, all_below_sound k test i)

-- An operation by digits does not depend on the rounds that it is given, if they are enough.
module _ (rest : ℕ → ℕ) (op : ℕ → ℕ → ℕ) where
  digits_rounds : (a b r s : ℕ) → a ≤ r → a ≤ s → digits rest op r a b ≡ digits rest op s a b
  digits_rounds a b zero zero h k = refl
  digits_rounds zero b zero (suc s) h k = refl
  digits_rounds zero b (suc r) zero h k = refl
  digits_rounds zero b (suc r) (suc s) h k = refl
  digits_rounds (suc a) b zero (suc s) h k = absurd (omega arith)
  digits_rounds (suc a) b (suc r) zero h k = absurd (omega arith)
  digits_rounds (suc a) b (suc r) (suc s) h k =
      let half = digits_rounds (suc a / 2) (b / 2) r s (omega arith) (omega arith) in
      ap (λ (d : ℕ). d * 2 + op (suc a % 2) (b % 2)) half

pub zero-bit_or : (b : ℕ) → bit_or 0 b ≡ b
zero-bit_or b = bit_or-bitwise 0 b

-- The lowest digit of a bitwise and.
pub bit_and_step : (m n : ℕ) → bit_and m n ≡ bit_and (m / 2) (n / 2) * 2 + min (m % 2) (n % 2)
bit_and_step zero b = omega (arith, bit_and-bitwise 0 b, bit_and-bitwise 0 (b / 2))
bit_and_step (suc a) b =
    let h : suc a / 2 ≤ a = omega arith in
    let rounds = digits_rounds (λ _. zero) min (suc a / 2) (b / 2) a (suc a / 2) h (omega arith) in
    omega (arith, rounds, bit_and-bitwise (suc a / 2) (b / 2), bit_and-bitwise (suc a) b)

-- The lowest digit of a bitwise or.
pub bit_or_step : (a b : ℕ) → bit_or a b ≡ bit_or (a / 2) (b / 2) * 2 + max (a % 2) (b % 2)
bit_or_step zero b = omega (arith, bit_or-bitwise 0 b, bit_or-bitwise 0 (b / 2))
bit_or_step (suc a) b =
    let h : suc a / 2 ≤ a = omega arith in
    let rounds = digits_rounds (λ d. d) max (suc a / 2) (b / 2) a (suc a / 2) h (omega arith) in
    omega (arith, rounds, bit_or-bitwise (suc a / 2) (b / 2), bit_or-bitwise (suc a) b)

abbrev pub pow2 : ℕ → ℕ
pow2 zero = 1
pow2 (suc k) = 2 * pow2 k

zero_right : (bound a : ℕ) → a < bound → (bit_or a 0 ≡ a) × (bit_and a 0 ≡ 0)
zero_right zero a lt = absurd (omega arith)
zero_right (suc bound) zero lt = (refl, refl)
zero_right (suc bound) (suc a) lt =
    let (or_half, and_half) = zero_right bound (suc a / 2) (omega arith) in
    (omega (arith, or_half, bit_or_step (suc a) 0), omega (arith, and_half, bit_and_step (suc a) 0))

pub bit_or-zero : (a : ℕ) → bit_or a 0 ≡ a
bit_or-zero a = (zero_right (suc a) a (omega arith)).0

pub bit_and-zero : (a : ℕ) → bit_and a 0 ≡ 0
bit_and-zero a = (zero_right (suc a) a (omega arith)).1

half_block : (a q c : ℕ) → (a * (2 * q) + c) / 2 ≡ a * q + c / 2
half_block a q c = omega arith

parity_block : (a q c : ℕ) → (a * (2 * q) + c) % 2 ≡ c % 2
parity_block a q c = omega arith

-- The two operations work on high digits and low digits apart.
pub bit_or_split :
    (k a b c d : ℕ)
    → c < pow2 k
    → d < pow2 k
    → bit_or (a * pow2 k + c) (b * pow2 k + d) ≡ bit_or a b * pow2 k + bit_or c d
bit_or_split zero a b zero zero hc hd =
    rw (mul_one a, mul_one b, add-zero a, add-zero b) (omega arith)
bit_or_split zero a b (suc c) d hc hd = absurd (omega arith)
bit_or_split zero a b zero (suc d) hc hd = absurd (omega arith)
bit_or_split (suc k) a b c d hc hd =
    rw (bit_or_step (a * (2 * pow2 k) + c) (b * (2 * pow2 k) + d)) (
      rw
        (
          half_block a (pow2 k) c,
          half_block b (pow2 k) d,
          parity_block a (pow2 k) c,
          parity_block b (pow2 k) d,
        )
        (rw (bit_or_split k a b (c / 2) (d / 2) (omega arith) (omega arith), bit_or_step c d)
          (omega arith)))

pub bit_and_split :
    (k a b c d : ℕ)
    → c < pow2 k
    → d < pow2 k
    → bit_and (a * pow2 k + c) (b * pow2 k + d) ≡ bit_and a b * pow2 k + bit_and c d
bit_and_split zero a b zero zero hc hd =
    rw (mul_one a, mul_one b, add-zero a, add-zero b) (omega arith)
bit_and_split zero a b (suc c) d hc hd = absurd (omega arith)
bit_and_split zero a b zero (suc d) hc hd = absurd (omega arith)
bit_and_split (suc k) a b c d hc hd =
    rw (bit_and_step (a * (2 * pow2 k) + c) (b * (2 * pow2 k) + d)) (
      rw
        (
          half_block a (pow2 k) c,
          half_block b (pow2 k) d,
          parity_block a (pow2 k) c,
          parity_block b (pow2 k) d,
        )
        (rw (bit_and_split k a b (c / 2) (d / 2) (omega arith) (omega arith), bit_and_step c d)
          (omega arith)))
