-- ===== src/Text/Field.antt =====
-- print_num: its text in a field, and what it writes for digits that stand in the array.
use mathlib.Core.List.{reverse, reverse-append}
use buaa_os_challenge.Base.{
  ℕ, zero, suc, ◌+◌, ◌-◌, ◌≡◌, refl, ap, ◌∙◌, Bool, true, false, ◌&&◌, [], ◌∷◌, ◌++◌, update, ◌==◌,
  ltb, if◌then◌else◌, arith, length, replicate,
}
use buaa_os_challenge.Bytes.{fill_bytes}
use buaa_os_challenge.Bytes.Fill.{fill_bytes_lem}
use buaa_os_challenge.Text.{Bytes, turn, read, add_padding, finish}
use buaa_os_challenge.Text.Buffer.{read-ext, read-append, read-last, read-turn, read-fill, turn_lem}

-- the text of a number: digits, the highest first, behind the sign, in a field of `width` bytes
abbrev pub field : Bytes → Bool → ℕ → Bool → ℕ → Bytes
field digits neg width ladjust padc =
    let sign = if neg then b'-' ∷ [] else [] in
    let room = width - length (sign ++ digits) in
    if ladjust
    then (sign ++ digits) ++ replicate room b' '
    else if padc == b'0'
    then sign ++ (replicate room b'0' ++ digits)
    else replicate room padc ++ (sign ++ digits)

replicate-last : (n a : ℕ) → replicate n a ++ (a ∷ []) ≡ a ∷ replicate n a
replicate-last zero a = refl
replicate-last (suc n) a = ap (λ (s : Bytes). a ∷ s) (replicate-last n a)

reverse-replicate : (n a : ℕ) → reverse (replicate n a) ≡ replicate n a
reverse-replicate zero a = refl
reverse-replicate (suc n) a =
    reverse-append (a ∷ []) (replicate n a)
    ∙ ap (λ (s : Bytes). s ++ (a ∷ [])) (reverse-replicate n a)
    ∙ replicate-last n a

-- The width is at least what is needed.
widened : (n len : ℕ) → (if ltb len (suc n) then suc n else len) ≡ suc (n + (len - suc n))
widened n len = ground arith

read-suc :
    (n k i : ℕ) (f : ℕ → ℕ) → read (suc (n + k)) i f ≡ read (suc n) i f ++ read k (i + suc n) f
read-suc n k i f =
    let e : suc (n + k) ≡ suc n + k = omega arith in
    ap (λ (w : ℕ). read w i f) e ∙ read-append (suc n) k i f

keep_low : (n k byte : ℕ) (buf : ℕ → ℕ) → read n 0 (fill_bytes k n byte buf) ≡ read n 0 buf
keep_low n k byte buf =
    read-ext n 0 0 (fill_bytes k n byte buf) buf
      (λ i lt. fill_bytes_lem k n byte buf (0 + i) ∙ ground arith)

pub left :
    (n k : ℕ) (buf : ℕ → ℕ)
    → read (suc (n + k)) 0 (turn n 0 (fill_bytes k (suc n) b' ' buf))
      ≡ reverse (read (suc n) 0 buf) ++ replicate k b' '
left n k buf =
    let padded = fill_bytes k (suc n) b' ' buf in
    let high : read k (0 + suc n) (turn n 0 padded) ≡ replicate k b' ' =
      read-ext k (0 + suc n) (suc n) (turn n 0 padded) padded
        (λ i lt. turn_lem n 0 padded (0 + suc n + i) ∙ ground arith)
      ∙ read-fill k (suc n) b' ' buf in
    read-suc n k 0 (turn n 0 padded) ∙ rw (read-turn n padded, keep_low (suc n) k b' ' buf, high)

pub right :
    (n k padc : ℕ) (buf : ℕ → ℕ)
    → read (suc (n + k)) 0 (turn (n + k) 0 (fill_bytes k (suc n) padc buf))
      ≡ replicate k padc ++ reverse (read (suc n) 0 buf)
right n k padc buf =
    let padded = fill_bytes k (suc n) padc buf in
    let e : 0 + suc n ≡ suc n = omega arith in
    read-turn (n + k) padded
    ∙ ap reverse (read-suc n k 0 padded)
    ∙ rw (e, keep_low (suc n) k padc buf, read-fill k (suc n) padc buf)
        (reverse-append (read (suc n) 0 buf) (replicate k padc)
          ∙ ap (λ (s : Bytes). s ++ reverse (read (suc n) 0 buf)) (reverse-replicate k padc))

pub zeros :
    (n k : ℕ) (buf : ℕ → ℕ)
    → read (suc (n + k)) 0 (turn (n + k) 0 (update (fill_bytes k n b'0' buf) (n + k) b'-'))
      ≡ b'-' ∷ (replicate k b'0' ++ reverse (read n 0 buf))
zeros n k buf =
    let filled = fill_bytes k n b'0' buf in
    let signed = update filled (n + k) b'-' in
    let e : 0 + n ≡ n = omega arith in
    let low : read (n + k) 0 signed ≡ read n 0 buf ++ replicate k b'0' =
      read-ext (n + k) 0 0 signed filled (λ i lt. ground arith)
      ∙ read-append n k 0 filled
      ∙ rw (e, keep_low n k b'0' buf, read-fill k n b'0' buf) in
    let e' : 0 + (n + k) ≡ n + k = omega arith in
    let last : signed (n + k) ≡ b'-' = ground arith in
    read-turn (n + k) signed
    ∙ ap reverse (read-last (n + k) 0 signed)
    ∙ rw (e', last, low) (reverse-append (read n 0 buf ++ replicate k b'0') (b'-' ∷ []))
    ∙ ap (λ (s : Bytes). b'-' ∷ s)
        (reverse-append (read n 0 buf) (replicate k b'0')
          ∙ ap (λ (s : Bytes). s ++ reverse (read n 0 buf)) (reverse-replicate k b'0'))

-- The three ways to fill the field.
pub finish-left :
    (n : ℕ) (neg : Bool) (len padc : ℕ) (buf : ℕ → ℕ)
    → finish (suc n) neg len true padc buf
      ≡ reverse (read (suc n) 0 buf) ++ replicate (len - suc n) b' '
unfolding finish add_padding
finish-left n true len padc buf =
    let e2 : suc (n + (len - suc n)) - suc n ≡ len - suc n = omega arith in
    let e3 : suc n - 1 ≡ n = omega arith in rw (widened n len, e2, e3) (left n (len - suc n) buf)
finish-left n false len padc buf =
    let e2 : suc (n + (len - suc n)) - suc n ≡ len - suc n = omega arith in
    let e3 : suc n - 1 ≡ n = omega arith in rw (widened n len, e2, e3) (left n (len - suc n) buf)

pub finish-right :
    (n len padc : ℕ) (neg : Bool) (buf : ℕ → ℕ)
    → neg && (padc == b'0') ≡ false
    → finish (suc n) neg len false padc buf
      ≡ replicate (len - suc n) padc ++ reverse (read (suc n) 0 buf)
unfolding finish add_padding
finish-right n len padc true buf plain =
    let e2 : suc (n + (len - suc n)) - suc n ≡ len - suc n = omega arith in
    let e3 : suc (n + (len - suc n)) - 1 ≡ n + (len - suc n) = omega arith in
    rw (plain, widened n len, e2, e3) (right n (len - suc n) padc buf)
finish-right n len padc false buf plain =
    let e2 : suc (n + (len - suc n)) - suc n ≡ len - suc n = omega arith in
    let e3 : suc (n + (len - suc n)) - 1 ≡ n + (len - suc n) = omega arith in
    rw (widened n len, e2, e3) (right n (len - suc n) padc buf)

pub finish-zeros :
    (n len : ℕ) (buf : ℕ → ℕ)
    → finish (suc n) true len false b'0' buf
      ≡ b'-' ∷ (replicate (len - suc n) b'0' ++ reverse (read n 0 buf))
unfolding finish add_padding
finish-zeros n len buf =
    let e1 : suc n - 1 ≡ n = omega arith in
    let e3 : suc (n + (len - suc n)) - 1 ≡ n + (len - suc n) = omega arith in
    let e2 : n + (len - suc n) - n ≡ len - suc n = omega arith in
    rw (widened n len, e3, e1, e2) (zeros n (len - suc n) buf)
