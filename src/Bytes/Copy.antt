-- ===== src/Bytes/Copy.antt =====
-- memcpy copies like the loop over single bytes.
use buaa_os_challenge.Base.{
  ℕ, zero, suc, ◌+◌, ◌%◌, ◌≡◌, ◌≢◌, refl, sym, ap, ◌∙◌, false, arith, update, ◌==◌, Bool-cases, inl,
  inr,
}
use buaa_os_challenge.Bytes.{copy_bytes, copy_word, copy_words, copy_aligned, memcpy}

-- four single bytes
four : ℕ → ℕ → (ℕ → ℕ) → ℕ → ℕ
four dst src m =
    let m1 = update m dst (m src) in
    let m2 = update m1 (dst + 1) (m1 (src + 1)) in
    let m3 = update m2 (dst + 1 + 1) (m2 (src + 1 + 1)) in
    update m3 (dst + 1 + 1 + 1) (m3 (src + 1 + 1 + 1))

-- With the two addresses aligned alike, no byte of a word is written before it is read.
word_four : (dst src : ℕ) (m : ℕ → ℕ) → src % 4 ≡ dst % 4 → copy_word dst src m ≡ four dst src m
unfolding four
word_four dst src m e =
    let a : src + 1 ≢ dst = λ i. omega arith in
    let b : src + 2 ≢ dst = λ i. omega arith in
    let c : src + 3 ≢ dst = λ i. omega arith in
    let d2 : dst + 1 + 1 ≡ dst + 2 = omega arith in
    let d3 : dst + 1 + 1 + 1 ≡ dst + 3 = omega arith in
    let s2 : src + 1 + 1 ≡ src + 2 = omega arith in
    let s3 : src + 1 + 1 + 1 ≡ src + 3 = omega arith in
    let n1 : (src + 1 == dst) ≡ false = ground arith in
    let n2 : (src + 2 == dst) ≡ false = ground arith in
    let n3 : (src + 3 == dst) ≡ false = ground arith in
    let n4 : (src + 2 == dst + 1) ≡ false = ground arith in
    let n5 : (src + 3 == dst + 1) ≡ false = ground arith in
    let n6 : (src + 3 == dst + 2) ≡ false = ground arith in
    rw (d3, d2, s3, s2, n1, n2, n3, n4, n5, n6)

words_bytes :
    (n dst src : ℕ) (m : ℕ → ℕ)
    → src % 4 ≡ dst % 4
    → copy_words n dst src m ≡ copy_bytes n dst src m
unfolding copy_words copy_bytes four
words_bytes (suc (suc (suc (suc n)))) dst src m e =
    let d4 : dst + 1 + 1 + 1 + 1 ≡ dst + 4 = omega arith in
    let s4 : src + 1 + 1 + 1 + 1 ≡ src + 4 = omega arith in
    let h : (src + 4) % 4 ≡ (dst + 4) % 4 = omega arith in
    words_bytes n (dst + 4) (src + 4) (copy_word dst src m) h
    ∙ ap (λ (k : ℕ → ℕ). copy_bytes n (dst + 4) (src + 4) k) (word_four dst src m e)
    ∙ ap (λ (d : ℕ). copy_bytes n d (src + 4) (four dst src m)) (sym d4)
    ∙ ap (λ (s : ℕ). copy_bytes n (dst + 1 + 1 + 1 + 1) s (four dst src m)) (sym s4)
words_bytes (suc (suc (suc zero))) dst src m e = refl
words_bytes (suc (suc zero)) dst src m e = refl
words_bytes (suc zero) dst src m e = refl
words_bytes zero dst src m e = refl

aligned_bytes :
    (n dst src : ℕ) (m : ℕ → ℕ)
    → src % 4 ≡ dst % 4
    → copy_aligned n dst src m ≡ copy_bytes n dst src m
unfolding copy_aligned copy_bytes
aligned_bytes zero dst src m e = refl
aligned_bytes (suc n) dst src m e = elim (Bool-cases (dst % 4 == 0)) [
  | inl y ↦ rw y (words_bytes (suc n) dst src m e)
  | inr x ↦ rw x (aligned_bytes n (dst + 1) (src + 1) (update m dst (m src)) (omega arith))
]

-- memcpy of `n` bytes, with its loops over words, leaves the memory that the loop over `n` single
-- bytes in ascending order leaves, for all addresses, also of ranges that overlap.
pub memcpy-copy_bytes : (dst src n : ℕ) (m : ℕ → ℕ) → memcpy dst src n m ≡ copy_bytes n dst src m
unfolding memcpy
memcpy-copy_bytes dst src n m = elim (Bool-cases (src % 4 == dst % 4)) [
  | inl y ↦ rw y (aligned_bytes n dst src m (ground arith))
  | inr x ↦ rw x
]
