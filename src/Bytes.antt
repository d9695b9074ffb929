-- ===== src/Bytes.antt =====
-- memcpy and memset of lib/string.c. Memory is a function from addresses to bytes; the addresses of a copy are
-- taken not to wrap round. The loops run over the bytes that are left.
pub mod Copy
pub mod Fill
pub mod Strings
pub mod Ended
mod Examples
use buaa_os_challenge.Base.{ℕ, zero, suc, ◌+◌, ◌%◌, Bool, true, false, update, ◌==◌, if◌then◌else◌}

-- the loop over single bytes
unfoldable pub copy_bytes : ℕ → ℕ → ℕ → (ℕ → ℕ) → ℕ → ℕ
copy_bytes zero dst src m = m
copy_bytes (suc n) dst src m = copy_bytes n (dst + 1) (src + 1) (update m dst (m src))

-- `*(uint32_t *)dst = *(uint32_t *)src;`: all four bytes are read before one is written
abbrev pub copy_word : ℕ → ℕ → (ℕ → ℕ) → ℕ → ℕ
copy_word dst src m =
    update (update (update (update m dst (m src)) (dst + 1) (m (src + 1))) (dst + 2) (m (src + 2)))
      (dst + 3) (m (src + 3))

-- The loop over words, and the one over the bytes that are left.
unfoldable pub copy_words : ℕ → ℕ → ℕ → (ℕ → ℕ) → ℕ → ℕ
unfolding copy_bytes
copy_words (suc (suc (suc (suc n)))) dst src m =
    copy_words n (dst + 4) (src + 4) (copy_word dst src m)
copy_words (suc (suc (suc zero))) dst src m = copy_bytes 3 dst src m
copy_words (suc (suc zero)) dst src m = copy_bytes 2 dst src m
copy_words (suc zero) dst src m = copy_bytes 1 dst src m
copy_words zero dst src m = m

-- The loop over bytes until `dst` is aligned, and the two loops after it.
unfoldable pub copy_aligned : ℕ → ℕ → ℕ → (ℕ → ℕ) → ℕ → ℕ
unfolding copy_words
copy_aligned zero dst src m = m
copy_aligned (suc n) dst src m =
    let rest = copy_aligned n (dst + 1) (src + 1) (update m dst (m src)) in
    if dst % 4 == 0 then copy_words (suc n) dst src m else rest

-- memcpy
unfoldable pub memcpy : ℕ → ℕ → ℕ → (ℕ → ℕ) → ℕ → ℕ
memcpy dst src n m = if src % 4 == dst % 4 then copy_aligned n dst src m else copy_bytes n dst src m

-- The loops of memset, over single bytes and over words of four equal bytes.
unfoldable pub fill_bytes : ℕ → ℕ → ℕ → (ℕ → ℕ) → ℕ → ℕ
fill_bytes zero dst byte m = m
fill_bytes (suc n) dst byte m = fill_bytes n (dst + 1) byte (update m dst byte)

abbrev pub fill_word : ℕ → ℕ → (ℕ → ℕ) → ℕ → ℕ
fill_word dst byte m =
    update (update (update (update m dst byte) (dst + 1) byte) (dst + 2) byte) (dst + 3) byte

unfoldable pub fill_words : ℕ → ℕ → ℕ → (ℕ → ℕ) → ℕ → ℕ
unfolding fill_bytes
fill_words (suc (suc (suc (suc n)))) dst byte m = fill_words n (dst + 4) byte (fill_word dst byte m)
fill_words (suc (suc (suc zero))) dst byte m = fill_bytes 3 dst byte m
fill_words (suc (suc zero)) dst byte m = fill_bytes 2 dst byte m
fill_words (suc zero) dst byte m = fill_bytes 1 dst byte m
fill_words zero dst byte m = m

unfoldable pub fill_aligned : ℕ → ℕ → ℕ → (ℕ → ℕ) → ℕ → ℕ
unfolding fill_words
fill_aligned zero dst byte m = m
fill_aligned (suc n) dst byte m =
    let rest = fill_aligned n (dst + 1) byte (update m dst byte) in
    if dst % 4 == 0 then fill_words (suc n) dst byte m else rest

-- memset
unfoldable pub memset : ℕ → ℕ → ℕ → (ℕ → ℕ) → ℕ → ℕ
memset dst c n m = fill_aligned n dst (c % 256) m
