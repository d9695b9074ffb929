-- ===== src/Text/Scan.antt =====
-- vprintfmt comes to the end of every format: each round takes at least one byte.
use buaa_os_challenge.Base.{
  ℕ, zero, suc, ◌+◌, ◌-◌, ◌*◌, ◌<◌, ◌≤◌, ◌≡◌, ◌≢◌, refl, ap, sym, Bool, List, [], ◌∷◌, ◌++◌, Option,
  none, some, length, arith, if◌then◌else◌,
}
use buaa_os_challenge.Text.{Bytes}
use buaa_os_challenge.Text.Format.{
  Arg, Printed, done, undefined, unfinished, until_percent, skip, get_width, convert, convert_next,
  directive, with_rest, after_width, Converted, round, next_round, prepend, vprintfmt_rounds,
  vprintfmt,
}

rest_le : (s : Bytes) → length (until_percent s).1 ≤ length s
rest_le [] = omega arith
rest_le (c ∷ s) = ground (arith, rest_le s)

skip_le : (c : ℕ) (s : Bytes) → length (skip c s).1 ≤ length s
skip_le c [] = omega arith
skip_le c (d ∷ s) = ground arith

get_width_le :
    (w : ℕ) (s : Bytes) (v : ℕ) (t : Bytes) → get_width w s ≡ some (v, t) → length t ≤ length s
get_width_le w [] v t e = ground arith
get_width_le w (c ∷ s) v t e = ground (arith, get_width_le (w * 10 + c - b'0') s v t)

module _ (stack : ℕ → ℕ) where
  with_rest_le :
      (r : Converted) (s out t : Bytes) (args : List Arg)
      → with_rest stack r s ≡ some (out, t, args)
      → length t ≤ length s
  with_rest_le none s out t args e = cc
  with_rest_le (some (out', args')) s out t args e = let e' : s ≡ t = cc in rw e' (omega arith)

  convert_next_le :
      (width : ℕ) (ladjust : Bool) (padc : ℕ) (s : Bytes) (args : List Arg) (out t : Bytes)
      (args' : List Arg)
      → convert_next stack width ladjust padc s args ≡ some (out, t, args')
      → length t ≤ length s
  convert_next_le width ladjust padc [] args out t args' e = ground arith
  convert_next_le width ladjust padc (c ∷ s) args out t args' e =
      omega (arith, with_rest_le (convert stack c width ladjust padc args) s out t args' e)

  after_width_le :
      (ladjust : Bool) (padc : ℕ) (args : List Arg) (r : Option (ℕ × Bytes)) (n : ℕ) (out t : Bytes)
      (args' : List Arg)
      → ((v : ℕ) (s : Bytes) → r ≡ some (v, s) → length s ≤ n)
      → after_width stack ladjust padc args r ≡ some (out, t, args')
      → length t ≤ n
  after_width_le ladjust padc args none n out t args' h e = cc
  after_width_le ladjust padc args (some (width, s)) n out t args' h e = omega (
    arith,
    h width s refl,
    skip_le b'l' s,
    convert_next_le width ladjust padc (skip b'l' s).1 args out t args' e,
  )

  directive_le :
      (s : Bytes) (args : List Arg) (out t : Bytes) (args' : List Arg)
      → directive stack s args ≡ some (out, t, args')
      → length t ≤ length s
  unfolding directive
  directive_le s args out t args' e =
      let s1 = (skip b'-' s).1 in
      let (zeros, s2) = skip b'0' s1 in
      let l : (v : ℕ) (t : Bytes) → get_width 0 s2 ≡ some (v, t) → length t ≤ length s =
        λ v t e. omega (arith, get_width_le 0 s2 v t e, skip_le b'0' s1, skip_le b'-' s) in
      after_width_le (skip b'-' s).0 (if zeros then b'0' else b' ') args (get_width 0 s2) (length s)
        out t args' l e

  prepend-finished : (s : Bytes) (r : Printed) → r ≢ unfinished → prepend stack s r ≢ unfinished
  prepend-finished s (done t) h = λ e. cc
  prepend-finished s undefined h = λ e. cc
  prepend-finished s unfinished h = absurd (h refl)

  -- Two loops that end alike on the shorter formats give rounds that end alike.
  Agree : ℕ → (Bytes → List Arg → Printed) → (Bytes → List Arg → Printed) → Type 0
  Agree n f g =
      (s : Bytes) (args : List Arg) → length s < n → (f s args ≢ unfinished) × (f s args ≡ g s args)

  next_round-Agree :
      (n : ℕ) (f g : Bytes → List Arg → Printed) (text : Bytes)
      (r : Option (Bytes × Bytes × List Arg))
      → Agree n f g
      → ((out s : Bytes) (args : List Arg) → r ≡ some (out, s, args) → length s < n)
      → (next_round stack f text r ≢ unfinished)
        × (next_round stack f text r ≡ next_round stack g text r)
  unfolding Agree
  next_round-Agree n f g text none h short = (λ e. cc, refl)
  next_round-Agree n f g text (some (out, s, args)) h short =
      let (ends, same) = h s args (short out s args refl) in
      (prepend-finished (text ++ out) (f s args) ends, ap (prepend stack (text ++ out)) same)

  round-Agree :
      (n : ℕ) (f g : Bytes → List Arg → Printed) (text rest : Bytes) (args : List Arg)
      → Agree n f g
      → length rest ≤ n
      → (round stack f text rest args ≢ unfinished)
        × (round stack f text rest args ≡ round stack g text rest args)
  round-Agree n f g text [] args h short = (λ e. cc, refl)
  round-Agree n f g text (c ∷ s) args h short =
      next_round-Agree n f g text (directive stack s args) h
        (λ out t args' e. omega (arith, directive_le s args out t args' e))

  -- With more rounds than the format has bytes the loop ends, and more of them change nothing.
  rounds_enough : (n m : ℕ) → n ≤ m → Agree n (vprintfmt_rounds stack n) (vprintfmt_rounds stack m)
  unfolding vprintfmt_rounds Agree
  rounds_enough zero m h fmt args k = absurd (omega arith)
  rounds_enough (suc n) zero h fmt args k = absurd (omega arith)
  rounds_enough (suc n) (suc m) h fmt args k =
      round-Agree n (vprintfmt_rounds stack n) (vprintfmt_rounds stack m) (until_percent fmt).0
        (until_percent fmt).1 args (rounds_enough n m (omega arith)) (omega (arith, rest_le fmt))

  -- On every format and all arguments vprintfmt comes to an end, or to undefined behaviour: its
  -- loop makes at most one round more than the format has bytes, and any larger bound on the
  -- rounds gives the same result.
  pub vprintfmt-rounds :
      (fmt : Bytes) (args : List Arg) (n : ℕ)
      → length fmt < n
      → (vprintfmt stack fmt args ≢ unfinished)
        × (vprintfmt_rounds stack n fmt args ≡ vprintfmt stack fmt args)
  unfolding vprintfmt Agree
  vprintfmt-rounds fmt args n h =
      let (ends, same) = rounds_enough (suc (length fmt)) n (omega arith) fmt args (omega arith) in
      (ends, sym same)
