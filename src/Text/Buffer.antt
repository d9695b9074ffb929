-- ===== src/Text/Buffer.antt =====
-- The array of print_num: what reading a stretch of it gives after each loop over it.
use mathlib.Core.List.{reverse, reverse-append}
use buaa_os_challenge.Base.{
  ℕ, zero, suc, ◌+◌, ◌-◌, ◌<◌, ◌≡◌, refl, ap, sym, ◌∙◌, ◌&&◌, [], ◌∷◌, ◌++◌, update, ◌==◌, leb,
  if◌then◌else◌, arith, replicate, Bool-cases, inl, inr, true, false,
}
use buaa_os_challenge.Bytes.{fill_bytes}
use buaa_os_challenge.Bytes.Fill.{fill_bytes_lem}
use buaa_os_challenge.Text.{Bytes, turn, read}

pub read-ext :
    (n i j : ℕ) (f g : ℕ → ℕ) → ((k : ℕ) → k < n → f (i + k) ≡ g (j + k)) → read n i f ≡ read n j g
unfolding read
read-ext zero i j f g h = refl
read-ext (suc n) i j f g h =
    let ei : i + 0 ≡ i = omega arith in
    let ej : j + 0 ≡ j = omega arith in
    let e : f i ≡ g j = ap f (sym ei) ∙ h 0 (omega arith) ∙ ap g ej in
    let shifted : (k : ℕ) → k < n → f (i + 1 + k) ≡ g (j + 1 + k) = λ k lt.
      let ei : i + suc k ≡ i + 1 + k = omega arith in
      let ej : j + suc k ≡ j + 1 + k = omega arith in
      ap f (sym ei) ∙ h (suc k) (omega arith) ∙ ap g ej in
    rw (e, read-ext n (i + 1) (j + 1) f g shifted)

pub read-append : (a b i : ℕ) (f : ℕ → ℕ) → read (a + b) i f ≡ read a i f ++ read b (i + a) f
unfolding read
read-append zero b i f =
    let e : i + 0 ≡ i = omega arith in let e' : 0 + b ≡ b = omega arith in rw (e', e)
read-append (suc a) b i f =
    let e : i + suc a ≡ i + 1 + a = omega arith in
    let e' : suc a + b ≡ suc (a + b) = omega arith in
    rw (e', e) (ap (λ (s : Bytes). f i ∷ s) (read-append a b (i + 1) f))

-- the last byte apart
pub read-last : (n i : ℕ) (f : ℕ → ℕ) → read (suc n) i f ≡ read n i f ++ (f (i + n) ∷ [])
unfolding read
read-last n i f =
    let e : suc n ≡ n + 1 = omega arith in ap (λ (k : ℕ). read k i f) e ∙ read-append n 1 i f

pub turn_lem :
    (n b : ℕ) (f : ℕ → ℕ) (i : ℕ)
    → turn n b f i ≡ (if leb b i && leb i (b + n) then f (b + n + b - i) else f i)
unfolding turn
turn_lem zero b f i =
    let e : leb b i && leb i (b + 0) ≡ true → b + 0 + b - i ≡ i = λ h. ground arith in
    ground (arith, e)
turn_lem (suc zero) b f i = elim (Bool-cases (leb b i && leb i (b + 1))) [
  | inr out ↦ ground arith
  | inl inside ↦ elim (Bool-cases (i == b)) [
    | inl s ↦ let e : b + 1 + b - i ≡ b + 1 = ground arith in ground arith
    | inr n ↦ let e : b + 1 + b - i ≡ b = ground arith in ground arith
  ]
]
turn_lem (suc (suc n)) b f i =
    let end = b + suc (suc n) in
    let g = update (update f b (f end)) end (f b) in
    turn_lem n (b + 1) g i ∙ elim (Bool-cases (i == b)) [
      | inl s ↦ let e : end + b - i ≡ end = ground arith in ground arith
      | inr n1 ↦ elim (Bool-cases (i == end)) [
        | inl s ↦ let e : end + b - i ≡ b = ground arith in ground arith
        | inr n2 ↦ elim (Bool-cases (leb (b + 1) i && leb i (b + 1 + n))) [
          | inr out ↦ ground arith
          | inl inside ↦
              let e : b + 1 + n + (b + 1) - i ≡ end + b - i = omega arith in
              let n3 : (end + b - i == b) ≡ false = ground arith in
              let n4 : (end + b - i == end) ≡ false = ground arith in
              let inside' : leb b i && leb i end ≡ true = ground arith in
              rw (inside, inside', e, n3, n4)
        ]
      ]
    ]

-- read downwards
pub read-down : (n c : ℕ) (f : ℕ → ℕ) → read n 0 (λ i. f (c + n - 1 - i)) ≡ reverse (read n c f)
unfolding read
read-down zero c f = refl
read-down (suc n) c f =
    let e : c + suc n - 1 - 0 ≡ c + n = omega arith in
    let shifted : read n 1 (λ i. f (c + suc n - 1 - i)) ≡ read n 0 (λ i. f (c + n - 1 - i)) =
      read-ext n 1 0 (λ i. f (c + suc n - 1 - i)) (λ i. f (c + n - 1 - i))
        (λ k lt. let e' : c + suc n - 1 - (1 + k) ≡ c + n - 1 - (0 + k) = omega arith in ap f e') in
    ap (λ (k : ℕ). f k ∷ read n 1 (λ i. f (c + suc n - 1 - i))) e
    ∙ ap (λ (s : Bytes). f (c + n) ∷ s) (shifted ∙ read-down n c f)
    ∙ sym (reverse-append (read n c f) (f (c + n) ∷ []))
    ∙ ap reverse (sym (read-last n c f))

read-constant : (n i byte : ℕ) → read n i (λ _. byte) ≡ replicate n byte
unfolding read
read-constant zero i byte = refl
read-constant (suc n) i byte = ap (λ (s : Bytes). byte ∷ s) (read-constant n (i + 1) byte)

pub read-turn : (n : ℕ) (f : ℕ → ℕ) → read (suc n) 0 (turn n 0 f) ≡ reverse (read (suc n) 0 f)
read-turn n f =
    read-ext (suc n) 0 0 (turn n 0 f) (λ i. f (0 + suc n - 1 - i))
      (λ k lt. turn_lem n 0 f (0 + k) ∙ ground arith)
    ∙ read-down (suc n) 0 f

pub read-fill : (n i byte : ℕ) (f : ℕ → ℕ) → read n i (fill_bytes n i byte f) ≡ replicate n byte
read-fill n i byte f =
    read-ext n i i (fill_bytes n i byte f) (λ _. byte)
      (λ k lt. fill_bytes_lem n i byte f (i + k) ∙ ground arith)
    ∙ read-constant n i byte
