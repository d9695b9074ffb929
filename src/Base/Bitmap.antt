-- ===== src/Base/Bitmap.antt =====
-- Bitmaps as arrays of words: bit `i` is bit `i % 32` of word `i / 32`.
use Prim.Native.Nat.{ℕ, ◌/◌, ◌%◌}
use mathlib.Core.Path.{◌≡◌}
use mathlib.Core.Logic.{◌≢◌, inl, inr}
use mathlib.Core.Bool.{true, false}
use native.Mathlib.Omega.{arith}
use buaa_os_challenge.Base.Fun.{update}
use buaa_os_challenge.Base.Tests.{◌==◌, if◌then◌else◌, Bool-cases}
use buaa_os_challenge.Base.BitSet.{set_bit, clear_bit, bit_at, has_bit-set_bit, has_bit-clear_bit}

-- The bit of an index, set and cleared.
abbrev pub mark : (ℕ → ℕ) → ℕ → ℕ → ℕ
mark b i = update b (i / 32) (set_bit (b (i / 32)) (i % 32))

abbrev pub unmark : (ℕ → ℕ) → ℕ → ℕ → ℕ
unmark b i = update b (i / 32) (clear_bit (b (i / 32)) (i % 32))

word_ne : (i j : ℕ) → j ≢ i → j / 32 ≡ i / 32 → j % 32 ≢ i % 32
word_ne i j ne e = λ e'. ne (omega arith)

pub bit_at-mark :
    (b : ℕ → ℕ) (i j : ℕ) → bit_at (mark b i) j ≡ (if j == i then true else bit_at b j)
bit_at-mark b i j = elim (Bool-cases (j / 32 == i / 32)) [
  | inr far ↦ let ne : (j == i) ≡ false = ground arith in rw (far, ne)
  | inl near ↦
      let e : j / 32 ≡ i / 32 = ground arith in
      rw (near, has_bit-set_bit (b (i / 32)) (i % 32) (j % 32))
        (elim (Bool-cases (j == i)) [
          | inl s ↦ let e' : j ≡ i = ground arith in rw (s, e') (ground arith)
          | inr n ↦ let d : (j % 32 == i % 32) ≡ false = ground (arith, word_ne i j) in rw (n, d, e)
        ])
]

pub bit_at-unmark :
    (b : ℕ → ℕ) (i j : ℕ) → bit_at (unmark b i) j ≡ (if j == i then false else bit_at b j)
bit_at-unmark b i j = elim (Bool-cases (j / 32 == i / 32)) [
  | inr far ↦ let ne : (j == i) ≡ false = ground arith in rw (far, ne)
  | inl near ↦
      let e : j / 32 ≡ i / 32 = ground arith in
      rw (near, has_bit-clear_bit (b (i / 32)) (i % 32) (j % 32) (omega arith) (omega arith))
        (elim (Bool-cases (j == i)) [
          | inl s ↦ let e' : j ≡ i = ground arith in rw (s, e') (ground arith)
          | inr n ↦ let d : (j % 32 == i % 32) ≡ false = ground (arith, word_ne i j) in rw (n, d, e)
        ])
]
