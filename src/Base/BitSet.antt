-- ===== src/Base/BitSet.antt =====
-- Bitmaps of 32-bit words, as the kernel's table of ASIDs and the file system's block map use
-- them: the tests and updates of one bit as C writes them, and their laws.
use Prim.Native.Nat.{ℕ, zero, suc, ◌+◌, ◌-◌, ◌*◌, ◌/◌, ◌%◌, ◌^◌, ◌≤◌, ◌<◌, bit_and, bit_or}
use mathlib.Core.Path.{◌≡◌, refl, ◌∙◌}
use mathlib.Core.Bool.{Bool, true, false, not}
use native.Mathlib.Omega.{arith}
use native.Mathlib.Nat.{pow-succ'}
use buaa_os_challenge.Base.Tests.{◌==◌, if◌then◌else◌}
use buaa_os_challenge.Base.Bits.{pow2, bit_and_step, bit_or_step, bit_and-zero, bit_or-zero}

-- `x & (1 << k)`, as a test
unfoldable pub has_bit : ℕ → ℕ → Bool
has_bit x k = not (bit_and x (2 ^ k) == 0)

-- `x | (1 << k)`
unfoldable pub set_bit : ℕ → ℕ → ℕ
set_bit x k = bit_or x (2 ^ k)

-- `x & ~(1 << k)` on 32 bits
unfoldable pub clear_bit : ℕ → ℕ → ℕ
clear_bit x k = bit_and x (2 ^ 32 - 1 - 2 ^ k)

-- the bit by the digits
abbrev pub digit : ℕ → ℕ → Bool
digit x zero = x % 2 == 1
digit x (suc k) = digit (x / 2) k

pow2-eq : (k : ℕ) → 2 ^ k ≡ pow2 k
pow2-eq zero = refl
pow2-eq (suc k) = rw (pow-succ' 2 k, pow2-eq k)

and_pow2 : (k x : ℕ) → not (bit_and x (pow2 k) == 0) ≡ digit x k
and_pow2 zero x = ground (arith, bit_and_step x 1, bit_and-zero (x / 2))
and_pow2 (suc k) x =
    let e1 : 2 * pow2 k / 2 ≡ pow2 k = omega arith in
    let e2 : 2 * pow2 k % 2 ≡ 0 = omega arith in
    let e : bit_and x (2 * pow2 k) ≡ bit_and (x / 2) (pow2 k) * 2 =
      bit_and_step x (2 * pow2 k) ∙ rw (e1, e2) (omega arith) in
    rw e (ground (arith, and_pow2 k (x / 2)))

or_pow2_div : (k x : ℕ) → bit_or x (2 * pow2 k) / 2 ≡ bit_or (x / 2) (pow2 k)
or_pow2_div k x =
    let e1 : 2 * pow2 k / 2 ≡ pow2 k = omega arith in
    let e2 : 2 * pow2 k % 2 ≡ 0 = omega arith in
    rw (bit_or_step x (2 * pow2 k), e1, e2) (omega arith)

or_pow2_mod : (k x : ℕ) → bit_or x (2 * pow2 k) % 2 ≡ x % 2
or_pow2_mod k x =
    let e2 : 2 * pow2 k % 2 ≡ 0 = omega arith in rw (bit_or_step x (2 * pow2 k), e2) (omega arith)

or_pow2 : (k j x : ℕ) → digit (bit_or x (pow2 k)) j ≡ (if j == k then true else digit x j)
or_pow2 zero zero x = ground (arith, bit_or_step x 1, bit_or-zero (x / 2))
or_pow2 zero (suc j) x =
    let e : bit_or x 1 / 2 ≡ x / 2 = omega (arith, bit_or_step x 1, bit_or-zero (x / 2)) in
    rw e (ground arith)
or_pow2 (suc k) zero x = rw (or_pow2_mod k x) (ground arith)
or_pow2 (suc k) (suc j) x = rw (or_pow2_div k x) (or_pow2 k j (x / 2) ∙ ground arith)

pub has_bit-digit : (x k : ℕ) → has_bit x k ≡ digit x k
unfolding has_bit
has_bit-digit x k = rw (pow2-eq k) (and_pow2 k x)

-- After `x |= 1 << k` bit `k` is set, and the others are as before.
pub has_bit-set_bit : (x k j : ℕ) → has_bit (set_bit x k) j ≡ (if j == k then true else has_bit x j)
unfolding set_bit
has_bit-set_bit x k j =
    rw (has_bit-digit (bit_or x (2 ^ k)) j, has_bit-digit x j, pow2-eq k) (or_pow2 k j x)

-- 2 ^ n - 1 - 2 ^ k, by its digits
mask : ℕ → ℕ → ℕ
mask zero k = 0
mask (suc n) zero = 2 * (pow2 n - 1)
mask (suc n) (suc k) = 2 * mask n k + 1

pow2_pos : (k : ℕ) → 1 ≤ pow2 k
pow2_pos zero = omega arith
pow2_pos (suc k) = omega (arith, pow2_pos k)

pow2_mono : (n k : ℕ) → k < n → pow2 k * 2 ≤ pow2 n
pow2_mono zero k h = absurd (omega arith)
pow2_mono (suc n) zero h = omega (arith, pow2_pos n)
pow2_mono (suc n) (suc k) h = omega (arith, pow2_mono n k (omega arith))

mask-eq : (n k : ℕ) → k < n → pow2 n - 1 - pow2 k ≡ mask n k
unfolding mask
mask-eq zero k h = absurd (omega arith)
mask-eq (suc n) zero h = omega (arith, pow2_pos n)
mask-eq (suc n) (suc k) h =
    omega (arith, mask-eq n k (omega arith), pow2_mono n k (omega arith), pow2_pos k)

ones_div : (n x : ℕ) → bit_and x (pow2 (suc n) - 1) / 2 ≡ bit_and (x / 2) (pow2 n - 1)
ones_div n x =
    let e1 : (2 * pow2 n - 1) / 2 ≡ pow2 n - 1 = omega (arith, pow2_pos n) in
    rw (bit_and_step x (2 * pow2 n - 1), e1) (omega arith)

ones_mod : (n x : ℕ) → bit_and x (pow2 (suc n) - 1) % 2 ≡ x % 2
ones_mod n x =
    let e1 : (2 * pow2 n - 1) % 2 ≡ 1 = omega (arith, pow2_pos n) in
    rw (bit_and_step x (2 * pow2 n - 1), e1) (omega arith)

ones_digit : (n j x : ℕ) → j < n → digit (bit_and x (pow2 n - 1)) j ≡ digit x j
ones_digit zero j x h = absurd (omega arith)
ones_digit (suc n) zero x h = rw (ones_mod n x)
ones_digit (suc n) (suc j) x h = rw (ones_div n x) (ones_digit n j (x / 2) (omega arith))

even_div : (m x : ℕ) → bit_and x (2 * m) / 2 ≡ bit_and (x / 2) m
even_div m x = let e1 : 2 * m / 2 ≡ m = omega arith in rw (bit_and_step x (2 * m), e1) (omega arith)

even_mod : (m x : ℕ) → bit_and x (2 * m) % 2 ≡ 0
even_mod m x = let e1 : 2 * m % 2 ≡ 0 = omega arith in rw (bit_and_step x (2 * m), e1) (omega arith)

odd_div : (m x : ℕ) → bit_and x (2 * m + 1) / 2 ≡ bit_and (x / 2) m
odd_div m x =
    let e1 : (2 * m + 1) / 2 ≡ m = omega arith in rw (bit_and_step x (2 * m + 1), e1) (omega arith)

odd_mod : (m x : ℕ) → bit_and x (2 * m + 1) % 2 ≡ x % 2
odd_mod m x =
    let e1 : (2 * m + 1) % 2 ≡ 1 = omega arith in rw (bit_and_step x (2 * m + 1), e1) (omega arith)

and_mask :
    (n k j x : ℕ) → j < n → digit (bit_and x (mask n k)) j ≡ (if j == k then false else digit x j)
unfolding mask
and_mask zero k j x h = absurd (omega arith)
and_mask (suc n) zero zero x h = rw (even_mod (pow2 n - 1) x)
and_mask (suc n) zero (suc j) x h =
    rw (even_div (pow2 n - 1) x) (ones_digit n j (x / 2) (omega arith) ∙ ground arith)
and_mask (suc n) (suc k) zero x h = rw (odd_mod (mask n k) x) (ground arith)
and_mask (suc n) (suc k) (suc j) x h =
    rw (odd_div (mask n k) x) (and_mask n k j (x / 2) (omega arith) ∙ ground arith)

-- After `x &= ~(1 << k)` bit `k` is clear, and the others of the word are as before.
pub has_bit-clear_bit :
    (x k j : ℕ)
    → k < 32
    → j < 32
    → has_bit (clear_bit x k) j ≡ (if j == k then false else has_bit x j)
unfolding clear_bit
has_bit-clear_bit x k j hk hj =
    let e : 2 ^ 32 - 1 - 2 ^ k ≡ mask 32 k = rw (pow2-eq k) (mask-eq 32 k hk) in
    rw (e, has_bit-digit (bit_and x (mask 32 k)) j, has_bit-digit x j) (and_mask 32 k j x hj)

-- A table of bits over words: bit `i` is bit `i % 32` of word `i / 32`.
abbrev pub bit_at : (ℕ → ℕ) → ℕ → Bool
bit_at b i = has_bit (b (i / 32)) (i % 32)
