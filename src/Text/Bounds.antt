-- ===== src/Text/Bounds.antt =====
-- The array of print_num is large enough.
use mathlib.Core.List.{reverse}
use native.Mathlib.Nat.{mul-le-mul_right, pow-succ'}
use buaa_os_challenge.Base.{
  ℕ, zero, suc, ◌+◌, ◌-◌, ◌*◌, ◌^◌, ◌<◌, ◌≤◌, ◌≡◌, Bool, true, false, List, [], ◌∷◌, ◌++◌, map,
  ◌==◌, if◌then◌else◌, length, length-append, length-reverse, length-replicate, replicate, arith,
  ltb, Bool-cases, inl, inr, ◌∙◌,
}
use buaa_os_challenge.Text.{Bytes, symbol, lt_wf, put_digits, print_num}
use buaa_os_challenge.Text.Number.{value, IsShort, IsNumeral, put_digits-Written}
use buaa_os_challenge.Text.Field.{field}
use buaa_os_challenge.Text.Layout.{print_num_lem, length-map}

twice_le : (base v : ℕ) → 1 < base → v * 2 ≤ base * v
twice_le base v h = let swap : v * 2 ≡ 2 * v = omega arith in rw swap (mul-le-mul_right v h)

-- A number below 2 ^ (k + 1) has at most k + 1 digits in any base.
short-length :
    (base : ℕ) (ds : List ℕ) (k : ℕ)
    → 1 < base
    → IsShort base ds
    → value base ds < 2 ^ suc k
    → length ds ≤ suc k
short-length base [] k h s b = absurd s
short-length base (d ∷ []) k h s b = omega arith
short-length base (d ∷ e ∷ ds) zero h s b =
    absurd (omega (arith, s.0, twice_le base (value base (e ∷ ds)) h))
short-length base (d ∷ e ∷ ds) (suc k) h s b =
    let p : 2 ^ suc (suc k) ≡ 2 * 2 ^ suc k = pow-succ' 2 (suc k) in
    let half : value base (e ∷ ds) < 2 ^ suc k =
      omega (arith, p, b, twice_le base (value base (e ∷ ds)) h) in
    omega (arith, short-length base (e ∷ ds) k h s.1 half)

numeral_length :
    (base u : ℕ) (ds : List ℕ) → 1 < base → u < 2 ^ 32 → IsNumeral base u ds → length ds ≤ 32
numeral_length base u ds h lt (_, exact, short) =
    short-length base ds 31 h short (omega (arith, exact))

signed_length :
    (neg : Bool) (digits : Bytes) (width : ℕ)
    → (let n = length ((if neg then b'-' ∷ [] else []) ++ digits) in n + (width - n)) ≡ (
        let n = if neg then suc (length digits) else length digits in
        if ltb width n then n else width)
signed_length true digits width = ground arith
signed_length false digits width = ground arith

field-length :
    (digits : Bytes) (neg : Bool) (width : ℕ) (ladjust : Bool) (padc : ℕ)
    → length (field digits neg width ladjust padc) ≡ (
        let n = if neg then suc (length digits) else length digits in
        if ltb width n then n else width)
field-length digits neg width true padc =
    let sign = if neg then b'-' ∷ [] else [] in
    let room = width - length (sign ++ digits) in
    length-append (sign ++ digits) (replicate room b' ')
    ∙ rw (length-replicate {A = ℕ} room b' ') (signed_length neg digits width)
field-length digits neg width false padc = elim (Bool-cases (padc == b'0')) [
  | inl z ↦
      let sign = if neg then b'-' ∷ [] else [] in
      let room = width - length (sign ++ digits) in
      rw
        (
          z,
          length-append sign (replicate room b'0' ++ digits),
          length-append (replicate room b'0') digits,
          length-replicate {A = ℕ} room b'0',
        )
        (omega (arith, length-append sign digits, signed_length neg digits width))
  | inr other ↦
      let sign = if neg then b'-' ∷ [] else [] in
      let room = width - length (sign ++ digits) in
      rw
        (
          other,
          length-append (replicate room padc) (sign ++ digits),
          length-replicate {A = ℕ} room padc,
        )
        (omega (arith, signed_length neg digits width))
]

-- For a number of 32 bits the loop over the digits writes at most 32 of them, and with the sign and
-- the padding print_num writes at least `len` bytes and at most `len + 33`, so that its array of
-- `len + 70` bytes is large enough.
pub print_num-length :
    (u base : ℕ) (h : 1 < base) (neg : Bool) (len : ℕ) (ladjust : Bool) (padc : ℕ) (upcase : Bool)
    (buf : ℕ → ℕ)
    → u < 2 ^ 32
    → ((put_digits base h u (lt_wf.apply u) upcase 0 buf).1 ≤ 32)
      × (len ≤ length (print_num u base h neg len ladjust padc upcase buf))
      × (length (print_num u base h neg len ladjust padc upcase buf) ≤ len + 33)
print_num-length u base h neg len ladjust padc upcase buf lt =
    let (ds, numeral, count, _, _) = put_digits-Written base h u (lt_wf.apply u) upcase 0 buf in
    let (es, numeral', e) = print_num_lem u base h neg len ladjust padc upcase buf in
    let few : length ds ≤ 32 = numeral_length base u ds h lt numeral in
    let few' : length es ≤ 32 = numeral_length base u es h lt numeral' in
    let digits = reverse (map (symbol upcase) es) in
    let l : length digits ≡ length es =
      length-reverse (map (symbol upcase) es) ∙ length-map (symbol upcase) es in
    let total = field-length digits neg len ladjust padc in
    (omega (arith, count), rw e (ground (arith, total, l)), rw e (ground (arith, total, l)))
