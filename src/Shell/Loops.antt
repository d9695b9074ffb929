-- ===== src/Shell/Loops.antt =====
-- What the loops of _gettoken do on a string.
use buaa_os_challenge.Base.{
  ℕ, zero, suc, ◌+◌, ◌<◌, ◌≤◌, ◌≡◌, ◌⊎◌, refl, Bool, true, false, ◌&&◌, ◌||◌, List, [], ◌∷◌, some,
  update, ◌==◌, length, arith, Bool-cases, inl, inr,
}
use buaa_os_challenge.Bytes.Ended.{StringAt, StringAt-update}
use buaa_os_challenge.Shell.{is_space, is_symbol, skip_space, find_quote, word_end}

abbrev pub all_space : List ℕ → Bool
all_space [] = true
all_space (c ∷ t) = is_space c && all_space t

pub skip_space-StringAt :
    (r s : ℕ) (m : ℕ → ℕ) (t : List ℕ)
    → StringAt m s t
    → length t < r
    → (s' : ℕ) × (m' : ℕ → ℕ) × (t' : List ℕ) × (skip_space r s m ≡ some (s', m'))
      × StringAt m' s' t'
      × (s' + length t' ≡ s + length t)
      × (s ≤ s')
      × (is_space (m' s') ≡ false)
      × (all_space t ≡ all_space t')
unfolding skip_space
skip_space-StringAt zero s m t h lt = absurd (omega arith)
skip_space-StringAt (suc r) s m [] h lt =
    (s, m, [], rw h refl, h, refl, omega arith, rw h refl, refl)
skip_space-StringAt (suc r) s m (c ∷ t) (e, nz, fits, rest) lt = elim (Bool-cases (is_space c)) [
  | inr no_space ↦ (
    s,
    m,
    c ∷ t,
    rw (e, no_space) refl,
    (e, nz, fits, rest),
    refl,
    omega arith,
    rw e no_space,
    refl,
  )
  | inl space ↦
      let below : (s < s + 1) ⊎ (s + 1 + length t < s) = inl (omega arith) in
      let (s', m', t', run, there, sum, le, first, spaces) =
        skip_space-StringAt r (s + 1) (update m s 0) t (StringAt-update m (s + 1) t s 0 below rest)
          (omega arith) in
      (
        s',
        m',
        t',
        rw (e, space) run,
        there,
        omega (arith, sum),
        omega (arith, le),
        first,
        rw space spaces,
      )
]

-- a quote that is found, or the end of the string
pub find_quote-StringAt :
    (r q s : ℕ) (m : ℕ → ℕ) (t : List ℕ)
    → StringAt m (s + 1) t
    → length t < r
    → (e : ℕ) × (find_quote r q s m ≡ some e)
      × (((t' : List ℕ) × StringAt m (e + 1) t' × (s < e) × (e + 1 + length t' ≡ s + 1 + length t))
          ⊎ (e ≡ s + 1 + length t))
unfolding find_quote
find_quote-StringAt zero q s m t h lt = absurd (omega arith)
find_quote-StringAt (suc r) q s m [] h lt =
    let z : s + 1 ≡ s + 1 + 0 = omega arith in (s + 1, rw h refl, inr z)
find_quote-StringAt (suc r) q s m (c ∷ t) (e, nz, fits, rest) lt =
    elim (Bool-cases (c == 0 || c == q)) [
      | inl stop ↦ (s + 1, rw (e, stop) refl, inl (t, rest, omega arith, omega arith))
      | inr go ↦
          let (e', run, found) = find_quote-StringAt r q (s + 1) m t rest (omega arith) in
          (
            e',
            rw (e, go) run,
            elim found [
              | inl (t', there, l, sum) ↦ inl (t', there, omega (arith, l), omega (arith, sum))
              | inr at_end ↦ inr (omega (arith, at_end))
            ],
          )
    ]

pub word_end-StringAt :
    (r s : ℕ) (m : ℕ → ℕ) (t : List ℕ)
    → StringAt m s t
    → length t < r
    → (e : ℕ) × (t' : List ℕ) × (word_end r s m ≡ some e)
      × StringAt m e t'
      × (e + length t' ≡ s + length t)
      × (s ≤ e)
unfolding word_end
word_end-StringAt zero s m t h lt = absurd (omega arith)
word_end-StringAt (suc r) s m [] h lt = (s, [], rw h refl, h, refl, omega arith)
word_end-StringAt (suc r) s m (c ∷ t) (e, nz, fits, rest) lt =
    elim (Bool-cases (c == 0 || is_space c || is_symbol c)) [
      | inl stop ↦ (s, c ∷ t, rw (e, stop) refl, (e, nz, fits, rest), refl, omega arith)
      | inr go ↦
          let (e', t', run, there, sum, l) = word_end-StringAt r (s + 1) m t rest (omega arith) in
          (e', t', rw (e, go) run, there, omega (arith, sum), omega (arith, l))
    ]
