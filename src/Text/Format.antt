-- ===== src/Text/Format.antt =====
-- vprintfmt. The format is the list of its bytes without the zero at its end. Arguments that do
-- not fit the format, or too few of them, and a width beyond an int are undefined behaviour. A
-- long is an int on this machine, of 32 bits, and the negation of the least one wraps round.
use buaa_os_challenge.Base.{
  ℕ, zero, suc, ◌+◌, ◌-◌, ◌*◌, ◌%◌, ◌^◌, ◌<◌, Bool, true, false, ◌&&◌, ◌||◌, List, [], ◌∷◌, ◌++◌,
  Option, none, some, ◌==◌, ltb, leb, if◌then◌else◌, length, arith,
}
use buaa_os_challenge.Text.{Bytes, print_char, print_str, print_num}

-- a variadic argument: a word, or a pointer to a string
pub data Arg : Type 0 where
  word : ℕ → Arg
  string : Bytes → Arg

pub data Printed : Type 0 where
  done : Bytes → Printed
  undefined : Printed
  unfinished : Printed

-- what stands before the first '%', and the rest from it on
abbrev pub until_percent : Bytes → Bytes × Bytes
until_percent [] = ([], [])
until_percent (c ∷ s) =
    let (text, rest) = until_percent s in if c == b'%' then ([], c ∷ s) else (c ∷ text, rest)

-- `if (*fmt == c) { flag = 1; ++fmt; }`
abbrev pub skip : ℕ → Bytes → Bool × Bytes
skip c [] = (false, [])
skip c (d ∷ s) = if d == c then (true, s) else (false, d ∷ s)

abbrev pub is_digit : ℕ → Bool
is_digit c = leb b'0' c && leb c b'9'

abbrev pub get_width : ℕ → Bytes → Option (ℕ × Bytes)
get_width width [] = some (width, [])
get_width width (c ∷ s) =
    let more = get_width (width * 10 + c - b'0') s in
    if is_digit c then if ltb (width * 10 + c) (2 ^ 31) then more else none else some (width, c ∷ s)

-- The bytes that are written, and the arguments that are left.
abbrev pub Converted : Type 0
Converted = Option (Bytes × List Arg)

pub base_10 : 1 < 10
base_10 = omega arith

module _ (stack : ℕ → ℕ) where
  -- the cases of the unsigned conversions
  abbrev pub unsigned : (base : ℕ) → 1 < base → Bool → ℕ → Bool → ℕ → List Arg → Converted
  unsigned base h upcase width ladjust padc (word w ∷ args) =
      some (print_num (w % 2 ^ 32) base h false width ladjust padc upcase stack, args)
  unsigned base h upcase width ladjust padc (string s ∷ args) = none
  unsigned base h upcase width ladjust padc [] = none

  -- the case of 'd' and 'D'
  abbrev pub signed : ℕ → Bool → ℕ → List Arg → Converted
  signed width ladjust padc (word w ∷ args) =
      let num = w % 2 ^ 32 in
      let neg = leb (2 ^ 31) num in
      let num = if neg then 2 ^ 32 - num else num in
      some (print_num num 10 base_10 neg width ladjust padc false stack, args)
  signed width ladjust padc (string s ∷ args) = none
  signed width ladjust padc [] = none

  abbrev pub char_case : ℕ → Bool → List Arg → Converted
  char_case width ladjust (word w ∷ args) = some (print_char (w % 256) width ladjust, args)
  char_case width ladjust (string s ∷ args) = none
  char_case width ladjust [] = none

  abbrev pub string_case : ℕ → Bool → List Arg → Converted
  string_case width ladjust (string s ∷ args) = some (print_str s width ladjust, args)
  string_case width ladjust (word w ∷ args) = none
  string_case width ladjust [] = none

  -- the switch
  abbrev pub convert : ℕ → ℕ → Bool → ℕ → List Arg → Converted
  convert c width ladjust padc args =
      if c == b'b'
      then unsigned 2 (omega arith) false width ladjust padc args
      else if c == b'd' || c == b'D'
      then signed width ladjust padc args
      else if c == b'o' || c == b'O'
      then unsigned 8 (omega arith) false width ladjust padc args
      else if c == b'u' || c == b'U'
      then unsigned 10 base_10 false width ladjust padc args
      else if c == b'x'
      then unsigned 16 (omega arith) false width ladjust padc args
      else if c == b'X'
      then unsigned 16 (omega arith) true width ladjust padc args
      else if c == b'c'
      then char_case width ladjust args
      else if c == b's'
      then string_case width ladjust args
      else some (c ∷ [], args)

  abbrev pub with_rest : Converted → Bytes → Option (Bytes × Bytes × List Arg)
  with_rest none s = none
  with_rest (some (out, args)) s = some (out, s, args)

  -- The switch on the next byte, at the end of the format on the zero there.
  abbrev pub convert_next : ℕ → Bool → ℕ → Bytes → List Arg → Option (Bytes × Bytes × List Arg)
  convert_next width ladjust padc [] args = some ([], [], args)
  convert_next width ladjust padc (c ∷ s) args = with_rest (convert c width ladjust padc args) s

  -- Behind the width: 'l' and the switch.
  abbrev pub after_width :
      Bool → ℕ → List Arg → Option (ℕ × Bytes) → Option (Bytes × Bytes × List Arg)
  after_width ladjust padc args none = none
  after_width ladjust padc args (some (width, s)) =
      convert_next width ladjust padc (skip b'l' s).1 args

  -- From behind a '%' on: what is written, and the format and the arguments that are left.
  unfoldable pub directive : Bytes → List Arg → Option (Bytes × Bytes × List Arg)
  directive s args =
      let (ladjust, s) = skip b'-' s in
      let (zeros, s) = skip b'0' s in
      let padc = if zeros then b'0' else b' ' in after_width ladjust padc args (get_width 0 s)

  abbrev pub prepend : Bytes → Printed → Printed
  prepend s (done t) = done (s ++ t)
  prepend s undefined = undefined
  prepend s unfinished = unfinished

  -- A round behind the text before a '%', with the rounds that follow.
  abbrev pub next_round :
      (Bytes → List Arg → Printed) → Bytes → Option (Bytes × Bytes × List Arg) → Printed
  next_round later text none = undefined
  next_round later text (some (out, s, args)) = prepend (text ++ out) (later s args)

  abbrev pub round : (Bytes → List Arg → Printed) → Bytes → Bytes → List Arg → Printed
  round later text [] args = done text
  round later text (_ ∷ s) args = next_round later text (directive s args)

  -- The loop of vprintfmt, by a bound on its rounds.
  unfoldable pub vprintfmt_rounds : ℕ → Bytes → List Arg → Printed
  vprintfmt_rounds zero fmt args = unfinished
  vprintfmt_rounds (suc n) fmt args =
      let (text, rest) = until_percent fmt in round (vprintfmt_rounds n) text rest args

  -- vprintfmt: a round takes at least one byte of the format
  unfoldable pub vprintfmt : Bytes → List Arg → Printed
  unfolding vprintfmt_rounds
  vprintfmt fmt args = vprintfmt_rounds (suc (length fmt)) fmt args
