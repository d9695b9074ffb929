-- ===== src/Bytes/Fill.antt =====
-- memset fills exactly its range with the byte.
use buaa_os_challenge.Base.{
  ℕ, zero, suc, ◌+◌, ◌%◌, ◌≡◌, refl, ap, ◌∙◌, ◌&&◌, arith, update, ◌==◌, if◌then◌else◌, Bool-cases,
  inl, inr, ltb, leb,
}
use buaa_os_challenge.Bytes.{fill_bytes, fill_word, fill_words, fill_aligned, memset}

words_fill : (n dst byte : ℕ) (m : ℕ → ℕ) → fill_words n dst byte m ≡ fill_bytes n dst byte m
unfolding fill_words fill_bytes
words_fill (suc (suc (suc (suc n)))) dst byte m =
    let d2 : dst + 1 + 1 ≡ dst + 2 = omega arith in
    let d3 : dst + 1 + 1 + 1 ≡ dst + 3 = omega arith in
    let d4 : dst + 1 + 1 + 1 + 1 ≡ dst + 4 = omega arith in
    rw (d4, d3, d2) (words_fill n (dst + 4) byte (fill_word dst byte m))
words_fill (suc (suc (suc zero))) dst byte m = refl
words_fill (suc (suc zero)) dst byte m = refl
words_fill (suc zero) dst byte m = refl
words_fill zero dst byte m = refl

aligned_fill : (n dst byte : ℕ) (m : ℕ → ℕ) → fill_aligned n dst byte m ≡ fill_bytes n dst byte m
unfolding fill_aligned fill_bytes
aligned_fill zero dst byte m = refl
aligned_fill (suc n) dst byte m = elim (Bool-cases (dst % 4 == 0)) [
  | inl y ↦ rw y (words_fill (suc n) dst byte m)
  | inr x ↦ rw x (aligned_fill n (dst + 1) byte (update m dst byte))
]

pub fill_bytes_lem :
    (n dst byte : ℕ) (m : ℕ → ℕ) (a : ℕ)
    → fill_bytes n dst byte m a ≡ (if leb dst a && ltb a (dst + n) then byte else m a)
unfolding fill_bytes
fill_bytes_lem zero dst byte m a = ground arith
fill_bytes_lem (suc n) dst byte m a =
    ground (arith, fill_bytes_lem n (dst + 1) byte (update m dst byte) a)

-- After memset, each of the `n` bytes from `dst` on is the low byte of `c`, and all other bytes are
-- as before.
pub memset_lem :
    (dst c n : ℕ) (m : ℕ → ℕ) (a : ℕ)
    → memset dst c n m a ≡ (if leb dst a && ltb a (dst + n) then c % 256 else m a)
unfolding memset
memset_lem dst c n m a =
    ap (λ (k : ℕ → ℕ). k a) (aligned_fill n dst (c % 256) m) ∙ fill_bytes_lem n dst (c % 256) m a
