-- ===== src/Text/Layout.antt =====
-- print_num: the loops over the array give the digits, the sign and the padding in their order.
use mathlib.Core.List.{reverse, reverse-append}
use buaa_os_challenge.Base.{
  ℕ, suc, ◌+◌, ◌<◌, ◌≡◌, refl, ap, ◌∙◌, Bool, true, false, List, [], ◌∷◌, ◌++◌, map, update, ◌==◌,
  if◌then◌else◌, Bool-cases, inl, inr, arith, length, length-reverse,
}
use buaa_os_challenge.Text.{Bytes, symbol, lt_wf, put_digits, read, finish, print_num}
use buaa_os_challenge.Text.Buffer.{read-ext, read-last}
use buaa_os_challenge.Text.Number.{IsNumeral, IsShort, put_digits-Written}
use buaa_os_challenge.Text.Field.{field, finish-left, finish-right, finish-zeros}

-- The sign behind the digits in the array.
signed_low :
    (n : ℕ) (digits : ℕ → ℕ)
    → read (suc n) 0 (update digits n b'-') ≡ read n 0 digits ++ (b'-' ∷ [])
signed_low n digits =
    let e : 0 + n ≡ n = omega arith in
    let last : update digits n b'-' n ≡ b'-' = ground arith in
    let low : read n 0 (update digits n b'-') ≡ read n 0 digits =
      read-ext n 0 0 (update digits n b'-') digits (λ i lt. ground arith) in
    read-last n 0 (update digits n b'-') ∙ rw (e, last, low)

-- Without a sign.
plain_text :
    (n len : ℕ) (ladjust : Bool) (padc : ℕ) (digits : ℕ → ℕ) (s : Bytes)
    → read (suc n) 0 digits ≡ s
    → length s ≡ suc n
    → finish (suc n) false len ladjust padc digits ≡ field (reverse s) false len ladjust padc
plain_text n len true padc digits s e l =
    finish-left n false len padc digits ∙ rw (e, length-reverse s, l)
plain_text n len false padc digits s e l = elim (Bool-cases (padc == b'0')) [
  | inl z ↦
      let z' : padc ≡ b'0' = ground arith in
      finish-right n len padc false digits refl ∙ rw (e, length-reverse s, l, z')
  | inr other ↦ finish-right n len padc false digits refl ∙ rw (e, length-reverse s, l, other)
]

signed_reversed :
    (n : ℕ) (digits : ℕ → ℕ) (s : Bytes)
    → read n 0 digits ≡ s
    → reverse (read (suc n) 0 (update digits n b'-')) ≡ b'-' ∷ reverse s
signed_reversed n digits s e =
    ap reverse (signed_low n digits) ∙ rw e (reverse-append s (b'-' ∷ []))

signed_text :
    (n len : ℕ) (ladjust : Bool) (padc : ℕ) (digits : ℕ → ℕ) (s : Bytes)
    → read n 0 digits ≡ s
    → length s ≡ n
    → finish (suc n) true len ladjust padc (update digits n b'-')
      ≡ field (reverse s) true len ladjust padc
signed_text n len true padc digits s e l =
    finish-left n true len padc (update digits n b'-')
    ∙ rw (signed_reversed n digits s e, length-reverse s, l)
signed_text n len false padc digits s e l = elim (Bool-cases (padc == b'0')) [
  | inl z ↦
      let z' : padc ≡ b'0' = ground arith in
      let low : read n 0 (update digits n b'-') ≡ s =
        read-ext n 0 0 (update digits n b'-') digits (λ i lt. ground arith) ∙ e in
      rw z' (finish-zeros n len (update digits n b'-') ∙ rw (low, length-reverse s, l))
  | inr other ↦
      finish-right n len padc true (update digits n b'-') other
      ∙ rw (signed_reversed n digits s e, length-reverse s, l, other)
]

assembled :
    (neg : Bool) (len : ℕ) (ladjust : Bool) (padc : ℕ) (digits : ℕ → ℕ) (p : ℕ) (s : Bytes)
    → 0 < length s
    → p ≡ length s
    → read (length s) 0 digits ≡ s
    → finish
        (if neg then p + 1 else p)
        neg
        len
        ladjust
        padc
        (if neg then update digits p b'-' else digits)
      ≡ field (reverse s) neg len ladjust padc
assembled neg len ladjust padc digits p [] pos e t = absurd (omega arith)
assembled true len ladjust padc digits p (c ∷ s) pos e t =
    let e' : suc (length s) + 1 ≡ suc (suc (length s)) = omega arith in
    rw (e, e') (signed_text (suc (length s)) len ladjust padc digits (c ∷ s) t refl)
assembled false len ladjust padc digits p (c ∷ s) pos e t =
    rw e (plain_text (length s) len ladjust padc digits (c ∷ s) t refl)

pub length-map : (f : ℕ → ℕ) (xs : List ℕ) → length (map f xs) ≡ length xs
length-map f [] = refl
length-map f (x ∷ xs) = ap suc (length-map f xs)

IsShort-pos : (base : ℕ) (ds : List ℕ) → IsShort base ds → 0 < length ds
IsShort-pos base [] h = absurd h
IsShort-pos base (d ∷ ds) h = omega arith

pub print_num_lem :
    (u base : ℕ) (h : 1 < base) (neg : Bool) (len : ℕ) (ladjust : Bool) (padc : ℕ) (upcase : Bool)
    (buf : ℕ → ℕ)
    → (ds : List ℕ) × IsNumeral base u ds
      × (print_num u base h neg len ladjust padc upcase buf
          ≡ field (reverse (map (symbol upcase) ds)) neg len ladjust padc)
unfolding print_num
print_num_lem u base h neg len ladjust padc upcase buf =
    let (ds, numeral, count, text, _) = put_digits-Written base h u (lt_wf.apply u) upcase 0 buf in
    let (digits, p) = put_digits base h u (lt_wf.apply u) upcase 0 buf in
    let s = map (symbol upcase) ds in
    let l : length s ≡ length ds = length-map (symbol upcase) ds in
    let pos : 0 < length s = omega (arith, IsShort-pos base ds numeral.2) in
    let stored : read (length s) 0 digits ≡ s = rw l text in
    let many : p ≡ length s = omega (arith, count) in
    (ds, numeral, assembled neg len ladjust padc digits p s pos many stored)
