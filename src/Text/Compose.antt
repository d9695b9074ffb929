-- ===== src/Text/Compose.antt =====
-- vprintfmt on a format that is put together from plain text, a conversion and a rest.
use buaa_os_challenge.Base.{
  ℕ, ◌+◌, ◌-◌, ◌*◌, ◌^◌, ◌<◌, ◌≤◌, ◌≡◌, refl, ap, Bool, true, false, not, ◌&&◌, List, [], ◌∷◌, ◌++◌,
  none, some, ◌==◌, ltb, if◌then◌else◌, length, length-append, arith,
}
use buaa_os_challenge.Text.{Bytes}
use buaa_os_challenge.Text.Format.{
  Arg, until_percent, skip, is_digit, get_width, convert, with_rest, directive, prepend, next_round,
  vprintfmt_rounds, vprintfmt, Converted,
}
use buaa_os_challenge.Text.Scan.{vprintfmt-rounds}

abbrev pub all : (ℕ → Bool) → Bytes → Bool
all p [] = true
all p (c ∷ s) = p c && all p s

abbrev pub lacks_percent : Bytes → Bool
lacks_percent = all (λ c. not (c == b'%'))

-- the number that decimal digits spell
abbrev pub spelled : ℕ → Bytes → ℕ
spelled n [] = n
spelled n (c ∷ s) = spelled (n * 10 + c - b'0') s

abbrev pub flag : Bool → ℕ → Bytes → Bytes
flag b c s = if b then c ∷ s else s

-- a directive behind its '%', up to the letter of the conversion
abbrev pub specify : Bool → Bool → Bytes → Bool → Bytes → Bytes
specify ladjust zeros digits long s =
    flag ladjust b'-' (flag zeros b'0' (digits ++ flag long b'l' s))

abbrev pub starts : ℕ → Bytes → Bool
starts c [] = false
starts c (d ∷ s) = d == c

-- a letter that cannot be taken for a flag, a digit or 'l'
abbrev pub is_letter : ℕ → Bool
is_letter c = not (is_digit c) && not (c == b'-') && not (c == b'l')

until_percent-text :
    (text rest : Bytes)
    → lacks_percent text ≡ true
    → until_percent (text ++ (b'%' ∷ rest)) ≡ (text, b'%' ∷ rest)
until_percent-text [] rest h = refl
until_percent-text (c ∷ s) rest h =
    let no : (c == b'%') ≡ false = ground arith in rw (until_percent-text s rest (ground arith), no)

skip-flag : (b : Bool) (c : ℕ) (s : Bytes) → starts c s ≡ false → skip c (flag b c s) ≡ (b, s)
skip-flag true c s h = let e : (c == c) ≡ true = ground arith in rw e
skip-flag false c [] h = refl
skip-flag false c (d ∷ s) h = rw h

spelled_le : (n : ℕ) (s : Bytes) → all is_digit s ≡ true → n ≤ spelled n s
spelled_le n [] h = omega arith
spelled_le n (c ∷ s) h = ground (arith, spelled_le (n * 10 + c - b'0') s)

get_width-digits :
    (w : ℕ) (digits s : Bytes) (c : ℕ)
    → all is_digit digits ≡ true
    → spelled w digits < 2 ^ 30
    → is_digit c ≡ false
    → get_width w (digits ++ (c ∷ s)) ≡ some (spelled w digits, c ∷ s)
get_width-digits w [] s c h b n = rw n
get_width-digits w (d ∷ ds) s c h b n =
    let dig : is_digit d ≡ true = ground arith in
    let rest : all is_digit ds ≡ true = ground arith in
    let le = spelled_le (w * 10 + d - b'0') ds rest in
    let fits : ltb (w * 10 + d) (2 ^ 31) ≡ true = ground arith in
    rw (dig, fits) (get_width-digits (w * 10 + d - b'0') ds s c rest b n)

no_minus :
    (zeros long : Bool) (digits : Bytes) (c : ℕ) (rest : Bytes)
    → all is_digit digits ≡ true
    → is_letter c ≡ true
    → starts b'-' (flag zeros b'0' (digits ++ flag long b'l' (c ∷ rest))) ≡ false
no_minus true long digits c rest h l = refl
no_minus false true [] c rest h l = refl
no_minus false false [] c rest h l = ground arith
no_minus false long (d ∷ ds) c rest h l = ground arith

no_zero :
    (long : Bool) (digits : Bytes) (c : ℕ) (rest : Bytes)
    → starts b'0' digits ≡ false
    → is_letter c ≡ true
    → starts b'0' (digits ++ flag long b'l' (c ∷ rest)) ≡ false
no_zero true [] c rest h l = refl
no_zero false [] c rest h l = ground arith
no_zero long (d ∷ ds) c rest h l = h

width_read :
    (long : Bool) (digits : Bytes) (c : ℕ) (rest : Bytes)
    → all is_digit digits ≡ true
    → spelled 0 digits < 2 ^ 30
    → is_letter c ≡ true
    → get_width 0 (digits ++ flag long b'l' (c ∷ rest))
      ≡ some (spelled 0 digits, flag long b'l' (c ∷ rest))
width_read true digits c rest h b l = get_width-digits 0 digits (c ∷ rest) b'l' h b refl
width_read false digits c rest h b l = get_width-digits 0 digits rest c h b (ground arith)

flag_le : (b : Bool) (c : ℕ) (s : Bytes) → length s ≤ length (flag b c s)
flag_le true c s = omega arith
flag_le false c s = omega arith

rest_shorter :
    (text : Bytes) (ladjust zeros : Bool) (digits : Bytes) (long : Bool) (c : ℕ) (rest : Bytes)
    → length rest < length (text ++ (b'%' ∷ specify ladjust zeros digits long (c ∷ rest)))
rest_shorter text ladjust zeros digits long c rest =
    let tail = digits ++ flag long b'l' (c ∷ rest) in
    omega (
      arith,
      length-append text (b'%' ∷ specify ladjust zeros digits long (c ∷ rest)),
      flag_le ladjust b'-' (flag zeros b'0' tail),
      flag_le zeros b'0' tail,
      length-append digits (flag long b'l' (c ∷ rest)),
      flag_le long b'l' (c ∷ rest),
    )

module _ (stack : ℕ → ℕ) where
  directive-specify :
      (ladjust zeros : Bool) (digits : Bytes) (long : Bool) (c : ℕ) (rest : Bytes) (args : List Arg)
      → all is_digit digits ≡ true
      → spelled 0 digits < 2 ^ 30
      → starts b'0' digits ≡ false
      → is_letter c ≡ true
      → directive stack (specify ladjust zeros digits long (c ∷ rest)) args
        ≡ with_rest stack
            (convert stack c (spelled 0 digits) ladjust (if zeros then b'0' else b' ') args)
            rest
  unfolding directive
  directive-specify ladjust zeros digits long c rest args h b s l =
      let tail = digits ++ flag long b'l' (c ∷ rest) in
      let e1 : skip b'-' (flag ladjust b'-' (flag zeros b'0' tail))
          ≡ (ladjust, flag zeros b'0' tail) =
        skip-flag ladjust b'-' (flag zeros b'0' tail) (no_minus zeros long digits c rest h l) in
      let e2 : skip b'0' (flag zeros b'0' tail) ≡ (zeros, tail) =
        skip-flag zeros b'0' tail (no_zero long digits c rest s l) in
      let e3 : get_width 0 tail ≡ some (spelled 0 digits, flag long b'l' (c ∷ rest)) =
        width_read long digits c rest h b l in
      let e4 : skip b'l' (flag long b'l' (c ∷ rest)) ≡ (long, c ∷ rest) =
        skip-flag long b'l' (c ∷ rest) (ground arith) in
      rw (e1, e2, e3, e4)

  same_later :
      (n : ℕ) (text : Bytes) (r : Converted) (rest : Bytes)
      → length rest < n
      → next_round stack (vprintfmt_rounds stack n) text (with_rest stack r rest)
        ≡ next_round stack (vprintfmt stack) text (with_rest stack r rest)
  same_later n text none rest h = refl
  same_later n text (some (out, args)) rest h =
      ap (prepend stack (text ++ out)) (vprintfmt-rounds stack rest args n h).1

  -- A round on plain text, a directive and a rest.
  pub vprintfmt-specify :
      (text : Bytes) (ladjust zeros : Bool) (digits : Bytes) (long : Bool) (c : ℕ) (rest : Bytes)
      (args : List Arg)
      → lacks_percent text ≡ true
      → all is_digit digits ≡ true
      → spelled 0 digits < 2 ^ 30
      → starts b'0' digits ≡ false
      → is_letter c ≡ true
      → vprintfmt stack (text ++ (b'%' ∷ specify ladjust zeros digits long (c ∷ rest))) args
        ≡ next_round stack (vprintfmt stack) text (
            with_rest stack
              (convert stack c (spelled 0 digits) ladjust (if zeros then b'0' else b' ') args)
              rest)
  unfolding vprintfmt vprintfmt_rounds
  vprintfmt-specify text ladjust zeros digits long c rest args t h b s l =
      let fmt = text ++ (b'%' ∷ specify ladjust zeros digits long (c ∷ rest)) in
      rw (until_percent-text text (specify ladjust zeros digits long (c ∷ rest)) t) (
        rw (directive-specify ladjust zeros digits long c rest args h b s l) (
          same_later (length fmt) text
            (convert stack c (spelled 0 digits) ladjust (if zeros then b'0' else b' ') args) rest
            (rest_shorter text ladjust zeros digits long c rest)))
