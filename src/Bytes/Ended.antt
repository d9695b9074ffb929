-- ===== src/Bytes/Ended.antt =====
-- Strings in memory that end with a zero: the loops over them come to an end and compute what
-- the lists of bytes say.
use buaa_os_challenge.Base.{
  ℕ, zero, suc, ◌+◌, ◌<◌, ◌≤◌, ◌≡◌, ◌≢◌, ◌⊎◌, ◌↔◌, refl, ap, sym, ◌∙◌, Bool, true, false, ◌&&◌,
  Option, none, some, List, [], ◌∷◌, update, ◌==◌, ltb, leb, if◌then◌else◌, length, arith,
  Bool-cases, inl, inr,
}
use buaa_os_challenge.Base.Int.{ℤ, pos, negsuc}
use buaa_os_challenge.Bytes.Strings.{
  extend, strlen_from, strlen, strcpy, strchr, compare_bytes, strcmp,
}

-- The bytes of the list stand from the address on, none is zero, and a zero follows.
abbrev pub StringAt : (ℕ → ℕ) → ℕ → List ℕ → Type 0
StringAt m s [] = m s ≡ 0
StringAt m s (c ∷ t) = (m s ≡ c) × (0 < c) × (c < 256) × StringAt m (s + 1) t

strlen_from_lem :
    (r n s : ℕ) (m : ℕ → ℕ) (t : List ℕ)
    → StringAt m s t
    → length t < r
    → strlen_from r n s m ≡ some (n + length t)
unfolding strlen_from
strlen_from_lem zero n s m t h lt = absurd (omega arith)
strlen_from_lem (suc r) n s m [] h lt = ground arith
strlen_from_lem (suc r) n s m (c ∷ t) (e, nz, fits, rest) lt =
    let go : (c == 0) ≡ false = ground arith in
    let ih = strlen_from_lem r (n + 1) (s + 1) m t rest (omega arith) in
    let sum : n + 1 + length t ≡ n + suc (length t) = omega arith in rw (e, go, ih, sum)

-- the first address of a byte in a string
abbrev pub position : ℕ → ℕ → List ℕ → Option ℕ
position s c [] = none
position s c (b ∷ t) = if extend b == c then some s else position (s + 1) c t

strchr_lem :
    (r s c : ℕ) (m : ℕ → ℕ) (t : List ℕ)
    → StringAt m s t
    → length t < r
    → strchr r s c m ≡ some (position s c t)
unfolding strchr
strchr_lem zero s c m t h lt = absurd (omega arith)
strchr_lem (suc r) s c m [] h lt = ground arith
strchr_lem (suc r) s c m (b ∷ t) (e, nz, fits, rest) lt =
    let go : (b == 0) ≡ false = ground arith in
    let ih = strchr_lem r (s + 1) c m t rest (omega arith) in
    elim (Bool-cases (extend b == c)) [ inl y ↦ rw (e, go, y) | inr n ↦ rw (e, go, n, ih) ]

-- the order of strings
abbrev pub compare_strings : List ℕ → List ℕ → ℤ
compare_strings [] [] = pos 0
compare_strings [] (b ∷ t) = negsuc 0
compare_strings (a ∷ s) [] = pos 1
compare_strings (a ∷ s) (b ∷ t) =
    if a == b then compare_strings s t else if ltb a b then negsuc 0 else pos 1

compare_bytes_lem :
    (a b : ℕ)
    → a < 256
    → b < 256
    → compare_bytes a b ≡ (if a == b then pos 0 else if ltb a b then negsuc 0 else pos 1)
compare_bytes_lem a b ha hb = ground arith

strcmp_loop :
    (r p q : ℕ) (f g : ℕ → ℕ) (s t : List ℕ)
    → StringAt f p s
    → StringAt g q t
    → length s < r
    → strcmp r f p g q ≡ some (compare_strings s t)
unfolding strcmp
strcmp_loop zero p q f g s t hs ht lt = absurd (omega arith)
strcmp_loop (suc r) p q f g [] [] hs ht lt = rw (hs, ht)
strcmp_loop (suc r) p q f g [] (b ∷ t) hs (e, nz, fits, rest) lt =
    rw (hs, e, compare_bytes_lem 0 b (omega arith) fits) (ground arith)
strcmp_loop (suc r) p q f g (a ∷ s) [] (e, nz, fits, rest) ht lt =
    let go : (a == 0) ≡ false = ground arith in
    rw (e, ht, go, compare_bytes_lem a 0 fits (omega arith)) (ground arith)
strcmp_loop (suc r) p q f g (a ∷ s) (b ∷ t) (e, nz, fits, rest) (e', nz', fits', rest') lt =
    let go : (a == 0) ≡ false = ground arith in
    let ih = strcmp_loop r (p + 1) (q + 1) f g s t rest rest' (omega arith) in
    elim (Bool-cases (a == b)) [
      | inl y ↦ rw (e, e', go, y) ih
      | inr n ↦ let c = compare_bytes_lem a b fits fits' in rw (e, e', go, n, c, n)
    ]

some_pos : {a b : ℤ} → some a ≡ some b → a ≡ b
some_pos h = cc

not_equal : (b : Bool) → (if b then negsuc 0 else pos 1) ≢ pos 0
not_equal true = λ e. cc
not_equal false = λ e. cc

compare_strings-zero : (s t : List ℕ) → (compare_strings s t ≡ pos 0) ↔ (s ≡ t)
compare_strings-zero [] [] = (λ _. refl, λ _. refl)
compare_strings-zero [] (b ∷ t) = (λ e. cc, λ e. cc)
compare_strings-zero (a ∷ s) [] = (λ e. cc, λ e. cc)
compare_strings-zero (a ∷ s) (b ∷ t) = elim (Bool-cases (a == b)) [
  | inl y ↦
      let e : a ≡ b = ground arith in
      let (there, back) = compare_strings-zero s t in
      rw (y, e) (λ z. ap (λ (w : List ℕ). b ∷ w) (there z), λ z. back (cc))
  | inr n ↦ (
    λ z. absurd (not_equal (ltb a b) (rw n at z)),
    λ z. let e : a ≡ b = cc in absurd (ground arith),
  )
]

-- A string does not see a write outside it.
pub StringAt-update :
    (m : ℕ → ℕ) (s : ℕ) (t : List ℕ) (d v : ℕ)
    → (d < s) ⊎ (s + length t < d)
    → StringAt m s t
    → StringAt (update m d v) s t
StringAt-update m s [] d v out h = ground arith
StringAt-update m s (c ∷ t) d v out (e, nz, fits, rest) =
    let ne : (s == d) ≡ false = ground arith in
    let out' : (d < s + 1) ⊎ (s + 1 + length t < d) = ground arith in
    (rw ne e, nz, fits, StringAt-update m (s + 1) t d v out' rest)

strcpy_loop :
    (r dst src : ℕ) (m : ℕ → ℕ) (t : List ℕ)
    → StringAt m src t
    → length t < r
    → (dst ≤ src) ⊎ (src + length t < dst)
    → (m' : ℕ → ℕ) × (strcpy r dst src m ≡ some m')
      × StringAt m' dst t
      × ((a : ℕ) → leb dst a && leb a (dst + length t) ≡ false → m' a ≡ m a)
unfolding strcpy
strcpy_loop zero dst src m t h lt apart = absurd (omega arith)
strcpy_loop (suc r) dst src m [] h lt apart =
    let z : (m src == 0) ≡ true = ground arith in
    (update m dst (m src), rw z, ground arith, λ a out. ground arith)
strcpy_loop (suc r) dst src m (c ∷ t) (e, nz, fits, rest) lt apart =
    let go : (c == 0) ≡ false = ground arith in
    let m1 = update m dst c in
    let outside : (dst < src + 1) ⊎ (src + 1 + length t < dst) = ground arith in
    let apart' : (dst + 1 ≤ src + 1) ⊎ (src + 1 + length t < dst + 1) = ground arith in
    let (m', run, copied, kept) =
      strcpy_loop r (dst + 1) (src + 1) m1 t (StringAt-update m (src + 1) t dst c outside rest)
        (omega arith) apart' in
    let first : m' dst ≡ c = kept dst (ground arith) ∙ ground arith in
    (m', rw (e, go) run, (first, nz, fits, copied), λ a out. kept a (ground arith) ∙ ground arith)

-- strcmp of two strings that end with a zero stops within as many rounds as the first has bytes and
-- one more, with the order of the two lists of bytes, and this is 0 exactly if they are equal.
pub strcmp_lem :
    (r p q : ℕ) (f g : ℕ → ℕ) (s t : List ℕ)
    → StringAt f p s
    → StringAt g q t
    → length s < r
    → (strcmp r f p g q ≡ some (compare_strings s t))
      × ((strcmp r f p g q ≡ some (pos 0)) ↔ (s ≡ t))
strcmp_lem r p q f g s t hs ht lt =
    let e = strcmp_loop r p q f g s t hs ht lt in
    let (there, back) = compare_strings-zero s t in
    (e, (λ z. there (some_pos (sym e ∙ z)), λ z. e ∙ ap some (back z)))

-- strcpy of a string that ends with a zero stops within as many rounds as the string has bytes and
-- one more, if it goes down or the target begins behind the zero: the string then stands at the
-- target with its zero, all other bytes are as before, and strlen and strchr on it give its length
-- and the first place of a byte.
pub strcpy_lem :
    (r dst src : ℕ) (m : ℕ → ℕ) (t : List ℕ)
    → StringAt m src t
    → length t < r
    → (dst ≤ src) ⊎ (src + length t < dst)
    → (m' : ℕ → ℕ) × (strcpy r dst src m ≡ some m')
      × StringAt m' dst t
      × ((a : ℕ) → leb dst a && leb a (dst + length t) ≡ false → m' a ≡ m a)
      × (strlen r dst m' ≡ some (length t))
      × ((c : ℕ) → strchr r dst c m' ≡ some (position dst c t))
unfolding strlen
strcpy_lem r dst src m t h lt apart =
    let (m', run, copied, kept) = strcpy_loop r dst src m t h lt apart in
    let z : 0 + length t ≡ length t = omega arith in
    (
      m',
      run,
      copied,
      kept,
      strlen_from_lem r 0 dst m' t copied lt ∙ ap some z,
      λ c. strchr_lem r dst c m' t copied lt,
    )

pos_eq : (n : ℕ) → (n == 0) ≡ true → pos n ≡ pos 0
pos_eq n h = let e : n ≡ 0 = ground arith in ap pos e

-- strcmp with a string gives 0 exactly if the string stands at the other address, whatever follows.
pub strcmp-zero :
    (r p q : ℕ) (f g : ℕ → ℕ) (s : List ℕ)
    → StringAt f p s
    → ((i : ℕ) → g i < 256)
    → length s < r
    → (strcmp r f p g q ≡ some (pos 0)) ↔ StringAt g q s
unfolding strcmp
strcmp-zero zero p q f g s hs b lt = absurd (omega arith)
strcmp-zero (suc r) p q f g [] hs b lt =
    let c = compare_bytes_lem 0 (g q) (omega arith) (b q) in
    elim (Bool-cases (0 == g q)) [
      | inl y ↦ let z : g q ≡ 0 = ground arith in rw (hs, c, y) (λ _. z, λ _. refl)
      | inr n ↦
          rw (hs, c, n)
            (λ z. absurd (not_equal (ltb 0 (g q)) (some_pos z)), λ z. absurd (ground arith))
    ]
strcmp-zero (suc r) p q f g (a ∷ s) (e, nz, fits, rest) b lt =
    let go : (a == 0) ≡ false = ground arith in
    let (there, back) = strcmp-zero r (p + 1) (q + 1) f g s rest b (omega arith) in
    elim (Bool-cases (a == g q)) [
      | inl y ↦
          let e' : g q ≡ a = ground arith in
          rw (e, go, y) (λ z. (e', nz, fits, there z), λ (_, _, _, t). back t)
      | inr n ↦
          let c = compare_bytes_lem a (g q) fits (b q) in
          rw (e, go, n, c, n)
            (
              λ z. absurd (not_equal (ltb a (g q)) (some_pos z)),
              λ (e', _, _, _). absurd (ground arith),
            )
    ]
