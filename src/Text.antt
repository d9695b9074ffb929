-- ===== src/Text.antt =====
-- Printing of characters, strings and numbers by lib/print.c: print_char, print_str and print_num,
-- and the loop over the format, vprintfmt, in a module of its own. A string is the list of its
-- bytes without the zero at its end; what the callback `out` receives is the list of the bytes
-- that are written. print_num fills an array of the stack, a function from indices to bytes,
-- whose first contents are arbitrary.
pub mod Buffer
pub mod Number
pub mod Field
pub mod Layout
pub mod Bounds
pub mod Format
pub mod Scan
pub mod Compose
mod Examples
use Prim.Native.Nat.{◌<◌}
use mathlib.Core.Logic.{dite}
use mathlib.Core.WellFounded.{Acc, WellFounded}
use native.Mathlib.Decide.{dec_lt}
use native.Mathlib.Nat.{div-lt_self, pos_of_div-pos}
use buaa_os_challenge.Base.{
  ℕ, zero, suc, ◌+◌, ◌-◌, ◌/◌, ◌%◌, Bool, true, false, not, ◌&&◌, List, [], ◌∷◌, ◌++◌, update, ◌==◌,
  ltb, leb, if◌then◌else◌, arith, length, replicate,
}
use buaa_os_challenge.Bytes.{fill_bytes}

abbrev pub Bytes : Type 0
Bytes = List ℕ

-- print_char
unfoldable pub print_char : ℕ → ℕ → Bool → Bytes
print_char c len ladjust =
    let len = if ltb len 1 then 1 else len in
    if ladjust then c ∷ replicate (len - 1) b' ' else replicate (len - 1) b' ' ++ (c ∷ [])

-- print_str
unfoldable pub print_str : Bytes → ℕ → Bool → Bytes
print_str s width ladjust =
    let len = length s in
    let width = if ltb width len then len else width in
    if ladjust then s ++ replicate (width - len) b' ' else replicate (width - len) b' ' ++ s

acc_below : (k n : ℕ) → n < k → Acc ◌<◌ n
acc_below zero n h = absurd (omega arith)
acc_below (suc k) n h = Acc.intro n λ m lt. acc_below k m (omega arith)

-- every descent of numbers ends
pub lt_wf : WellFounded ◌<◌
unfolding acc_below
lt_wf = record { apply = λ n. acc_below (suc n) n (omega arith) }

quotient_lt : (base u : ℕ) → 1 < base → 0 < u / base → u / base < u
quotient_lt base u h more = div-lt_self (pos_of_div-pos base more) h

-- the digit of a remainder
abbrev pub symbol : Bool → ℕ → ℕ
symbol upcase tmp =
    if leb tmp 9 then b'0' + tmp else if upcase then b'A' + tmp - 10 else b'a' + tmp - 10

-- The loop over the digits: the array, and the index behind the last digit.
pub put_digits : (base : ℕ) → 1 < base → (u : ℕ) → Acc ◌<◌ u → Bool → ℕ → (ℕ → ℕ) → (ℕ → ℕ) × ℕ
put_digits base h u (Acc.intro _ smaller) upcase p buf =
    let buf' = update buf p (symbol upcase (u % base)) in
    dite (dec_lt 0 (u / base))
      (λ more.
        put_digits base h (u / base) (smaller (u / base) (quotient_lt base u h more)) upcase (p + 1)
          buf')
      (λ _. (buf', p + 1))

-- The loop that turns the array round between two indices, by their distance.
unfoldable pub turn : ℕ → ℕ → (ℕ → ℕ) → ℕ → ℕ
turn zero begin buf = buf
turn (suc zero) begin buf = update (update buf begin (buf (begin + 1))) (begin + 1) (buf begin)
turn (suc (suc n)) begin buf =
    let end = begin + suc (suc n) in
    turn n (begin + 1) (update (update buf begin (buf end)) end (buf begin))

-- `out(data, buf + i, n)`
unfoldable pub read : ℕ → ℕ → (ℕ → ℕ) → Bytes
read zero i buf = []
read (suc n) i buf = buf i ∷ read n (i + 1) buf

-- The padding, up to `len` bytes.
unfoldable pub add_padding : ℕ → ℕ → Bool → Bool → ℕ → (ℕ → ℕ) → ℕ → ℕ
add_padding actual len neg ladjust padc buf =
    let padc = if ladjust then b' ' else padc in
    if neg && not ladjust && (padc == b'0')
    then update (fill_bytes (len - 1 - (actual - 1)) (actual - 1) padc buf) (len - 1) b'-'
    else fill_bytes (len - actual) actual padc buf

-- What print_num does with the digits and the sign in the array, of which there are `actual`.
unfoldable pub finish : ℕ → Bool → ℕ → Bool → ℕ → (ℕ → ℕ) → Bytes
finish actual neg len ladjust padc buf =
    let len = if ltb len actual then actual else len in
    let padded = add_padding actual len neg ladjust padc buf in
    let end = if ladjust then actual - 1 else len - 1 in read len 0 (turn end 0 padded)

-- print_num
unfoldable pub print_num : ℕ → (base : ℕ) → 1 < base → Bool → ℕ → Bool → ℕ → Bool → (ℕ → ℕ) → Bytes
print_num u base h neg len ladjust padc upcase buf =
    let (digits, p) = put_digits base h u (lt_wf.apply u) upcase 0 buf in
    let signed = if neg then update digits p b'-' else digits in
    let actual = if neg then p + 1 else p in finish actual neg len ladjust padc signed
