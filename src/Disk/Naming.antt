-- ===== src/Disk/Naming.antt =====
-- The name of a file is written by bytes into words of the cache, and read back the same.
use buaa_os_challenge.Base.{
  ℕ, zero, suc, ◌+◌, ◌/◌, ◌%◌, ◌<◌, ◌≤◌, ◌≡◌, ◌≢◌, ◌⊎◌, ◌∙◌, true, false, List, [], ◌∷◌, length,
  ◌==◌, if◌then◌else◌, arith, Bool-cases, ==_refl, inl, inr,
}
use buaa_os_challenge.Bytes.Ended.{StringAt}
use buaa_os_challenge.Disk.{Disk, Place, peek, at}
use buaa_os_challenge.Disk.Directory.{byte_of, set_byte, name_byte, set_name_byte}
use buaa_os_challenge.Disk.Paths.{store_name}
use buaa_os_challenge.Disk.Lookup.{IsText, HasName}

byte_of-set_byte :
    (w i j b : ℕ)
    → i < 4
    → j < 4
    → b < 256
    → byte_of (set_byte w j b) i ≡ (if i == j then b else byte_of w i)
byte_of-set_byte w zero zero b hi hj hb = omega arith
byte_of-set_byte w (suc zero) (suc zero) b hi hj hb = omega arith
byte_of-set_byte w (suc (suc zero)) (suc (suc zero)) b hi hj hb = omega arith
byte_of-set_byte w (suc (suc (suc zero))) (suc (suc (suc zero))) b hi hj hb = omega arith
byte_of-set_byte w zero (suc zero) b hi hj hb = omega arith
byte_of-set_byte w zero (suc (suc zero)) b hi hj hb = omega arith
byte_of-set_byte w zero (suc (suc (suc zero))) b hi hj hb = omega arith
byte_of-set_byte w (suc zero) zero b hi hj hb = omega arith
byte_of-set_byte w (suc zero) (suc (suc zero)) b hi hj hb = omega arith
byte_of-set_byte w (suc zero) (suc (suc (suc zero))) b hi hj hb = omega arith
byte_of-set_byte w (suc (suc zero)) zero b hi hj hb = omega arith
byte_of-set_byte w (suc (suc zero)) (suc zero) b hi hj hb = omega arith
byte_of-set_byte w (suc (suc zero)) (suc (suc (suc zero))) b hi hj hb = omega arith
byte_of-set_byte w (suc (suc (suc zero))) zero b hi hj hb = omega arith
byte_of-set_byte w (suc (suc (suc zero))) (suc zero) b hi hj hb = omega arith
byte_of-set_byte w (suc (suc (suc zero))) (suc (suc zero)) b hi hj hb = omega arith
byte_of-set_byte w (suc (suc (suc (suc i)))) j b hi hj hb = absurd (omega arith)
byte_of-set_byte w i (suc (suc (suc (suc j)))) b hi hj hb = absurd (omega arith)

name_byte-set :
    (d : Disk) (f : Place) (k b j : ℕ)
    → b < 256
    → name_byte (set_name_byte f k b d) f j ≡ (if j == k then b else name_byte d f j)
name_byte-set d f k b j hb = elim (Bool-cases (j / 4 == k / 4)) [
  | inl near ↦
      let e : j / 4 ≡ k / 4 = ground arith in
      let same : (f.block == f.block) ≡ true = ground arith in
      let same' : (f.index + k / 4 == f.index + k / 4) ≡ true = ground arith in
      let byte =
        byte_of-set_byte (peek d (at f (k / 4))) (j % 4) (k % 4) b (omega arith) (omega arith) hb in
      rw (e, same, same')
        (byte ∙ elim (Bool-cases (j == k)) [
          | inl y ↦ let e' : j ≡ k = ground arith in rw (e', ==_refl (k % 4), ==_refl k)
          | inr n ↦ let n' : (j % 4 == k % 4) ≡ false = ground arith in rw (n, n')
        ])
  | inr far ↦
      let n : (f.index + j / 4 == f.index + k / 4) ≡ false = ground arith in
      let n' : (j == k) ≡ false = ground arith in
      let same : (f.block == f.block) ≡ true = ground arith in rw (same, n, n')
]

-- Two files of directories that do not share a word of their names.
abbrev pub Apart : Place → Place → Type 0
Apart f g = (f.block ≢ g.block) ⊎ ((f.index + 32 ≤ g.index) ⊎ (g.index + 32 ≤ f.index))

name_byte-Apart :
    (d : Disk) (f g : Place) (k b j : ℕ)
    → Apart f g
    → k < 128
    → j < 128
    → name_byte (set_name_byte f k b d) g j ≡ name_byte d g j
name_byte-Apart d f g k b j apart hk hj = elim (Bool-cases (g.block == f.block)) [
  | inr far ↦ rw far
  | inl near ↦
      let e : g.block ≡ f.block = ground arith in
      let n : (g.index + j / 4 == f.index + k / 4) ≡ false = ground arith in rw (near, n, e)
]

-- Bytes before the one that is written next stay.
store_name-before :
    (s : List ℕ) (d : Disk) (f : Place) (k j : ℕ)
    → IsText s
    → j < k
    → name_byte (store_name f k s d) f j ≡ name_byte d f j
unfolding store_name
store_name-before [] d f k j w lt = name_byte-set d f k 0 j (omega arith) ∙ ground arith
store_name-before (c ∷ s) d f k j (nz, fits, w) lt =
    store_name-before s (set_name_byte f k c d) f (k + 1) j w (omega arith)
    ∙ name_byte-set d f k c j fits
    ∙ ground arith

store_name-StringAt :
    (s : List ℕ) (d : Disk) (f : Place) (k : ℕ)
    → IsText s
    → StringAt (name_byte (store_name f k s d) f) k s
unfolding store_name
store_name-StringAt [] d f k w = name_byte-set d f k 0 k (omega arith) ∙ ground arith
store_name-StringAt (c ∷ s) d f k (nz, fits, w) =
    let d' = set_name_byte f k c d in
    (
      store_name-before s d' f (k + 1) k w (omega arith)
          ∙ name_byte-set d f k c k fits
          ∙ ground arith,
      nz,
      fits,
      store_name-StringAt s d' f (k + 1) w,
    )

store_name-Apart :
    (s : List ℕ) (d : Disk) (f g : Place) (k j : ℕ)
    → Apart f g
    → k + length s < 128
    → j < 128
    → name_byte (store_name f k s d) g j ≡ name_byte d g j
unfolding store_name
store_name-Apart [] d f g k j apart hk hj = name_byte-Apart d f g k 0 j apart (omega arith) hj
store_name-Apart (c ∷ s) d f g k j apart hk hj =
    store_name-Apart s (set_name_byte f k c d) f g (k + 1) j apart (omega arith) hj
    ∙ name_byte-Apart d f g k c j apart (omega arith) hj

-- After the strcpy of file_create of a name of at most 127 bytes the file has the name, as the
-- strcmp of dir_lookup reads it, and every byte of the name of a file elsewhere is as before.
pub store_name-HasName :
    (d : Disk) (f : Place) (name : List ℕ)
    → IsText name
    → length name < 128
    → HasName (store_name f 0 name d) f name
      × ((g : Place) (j : ℕ)
          → Apart f g
          → j < 128
          → name_byte (store_name f 0 name d) g j ≡ name_byte d g j)
store_name-HasName d f name w lt = (
  store_name-StringAt name d f 0 w,
  λ g j apart hj. store_name-Apart name d f g 0 j apart (omega arith) hj,
)
