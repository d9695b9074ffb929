-- ===== src/Shell/Tokens.antt =====
-- _gettoken takes a token off the front of a string.
use buaa_os_challenge.Base.{
  ℕ, zero, suc, ◌+◌, ◌<◌, ◌≤◌, ◌≡◌, ◌≢◌, ◌⊎◌, refl, sym, true, false, ◌&&◌, ◌||◌, List, [], ◌∷◌,
  Option, some, update, ◌==◌, if◌then◌else◌, length, arith, Bool-cases, inl, inr,
}
use buaa_os_challenge.Bytes.Ended.{StringAt, StringAt-update}
use buaa_os_challenge.Shell.{
  Token, is_space, is_symbol, find_quote, word_end, quoted, doubled, plain_word, token_at,
  next_token,
}
use buaa_os_challenge.Shell.Loops.{
  all_space, skip_space-StringAt, find_quote-StringAt, word_end-StringAt,
}

-- the token begins with a quote
abbrev pub Quoted : Token → (ℕ → ℕ) → Type 0
Quoted k m = (k.kind ≡ b'w') × ((m k.p1 ≡ b'"') ⊎ (m k.p1 ≡ b'`'))

-- what is left of a string behind a token, which ends before `end`
abbrev pub Behind : ℕ → ℕ → Token → (ℕ → ℕ) → Type 0
Behind from end k m =
    ((t' : List ℕ) × StringAt m k.p2 t' × (k.p2 + length t' ≡ end) × (from < k.p2))
    ⊎ (Quoted k m × (k.p2 ≡ end + 1))

-- a token of the string from `from` to `end` that is taken off it
abbrev pub TakenOff : ℕ → ℕ → Option (Token × (ℕ → ℕ)) → Type 0
TakenOff from end x =
    (k : Token) × (m : ℕ → ℕ) × (x ≡ some (k, m)) × (k.kind ≢ 0) × Behind from end k m

quoted-TakenOff :
    (r q s : ℕ) (m : ℕ → ℕ) (t : List ℕ)
    → (q ≡ b'"') ⊎ (q ≡ b'`')
    → m s ≡ q
    → StringAt m (s + 1) t
    → length t < r
    → TakenOff s (s + 1 + length t) (quoted s m (find_quote r q s m))
quoted-TakenOff r q s m t is_quote here h lt =
    let (e, run, found) = find_quote-StringAt r q s m t h lt in
    let k : Token = record { kind = b'w'; p1 = s; p2 = e + 1 } in
    let m' = update m e 0 in
    let w : k.kind ≢ 0 = ground arith in
    (
      k,
      m',
      rw run refl,
      w,
      elim found [
        | inl (t', there, l, sum) ↦
            let below : (e < e + 1) ⊎ (e + 1 + length t' < e) = inl (omega arith) in
            inl (t', StringAt-update m (e + 1) t' e 0 below there, sum, omega (arith, l))
        | inr at_end ↦
            let before : (s == e) ≡ false = ground (arith, at_end) in
            let first : m' s ≡ q = rw before here in
            inr ((refl, rw (sym first) at is_quote), omega (arith, at_end))
      ],
    )

doubled-TakenOff :
    (kind c s : ℕ) (m : ℕ → ℕ) (t : List ℕ)
    → StringAt m (s + 1) t
    → (m (s + 1) == suc c) ≡ true
    → kind ≢ 0
    → TakenOff s (s + 1 + length t) (doubled kind s m)
doubled-TakenOff kind c s m [] h e nz = absurd (ground arith)
doubled-TakenOff kind c s m (b ∷ t) (e', nz', fits, rest) e nz =
    let below : (s < s + 1 + 1) ⊎ (s + 1 + 1 + length t < s) = inl (omega arith) in
    let below' : (s + 1 < s + 1 + 1) ⊎ (s + 1 + 1 + length t < s + 1) = inl (omega arith) in
    (
      record { kind = kind; p1 = s; p2 = s + 1 + 1 },
      update (update m s 0) (s + 1) 0,
      refl,
      nz,
      inl (
        t,
        StringAt-update (update m s 0) (s + 1 + 1) t (s + 1) 0 below'
            (StringAt-update m (s + 1 + 1) t s 0 below rest),
        omega arith,
        omega arith,
      ),
    )

symbol-TakenOff :
    (c s : ℕ) (m : ℕ → ℕ) (t : List ℕ)
    → StringAt m (s + 1) t
    → c ≢ 0
    → TakenOff s (s + 1 + length t) (some (record { kind = c; p1 = s; p2 = s + 1 }, update m s 0))
symbol-TakenOff c s m t h nz =
    let below : (s < s + 1) ⊎ (s + 1 + length t < s) = inl (omega arith) in
    (
      record { kind = c; p1 = s; p2 = s + 1 },
      update m s 0,
      refl,
      nz,
      inl (t, StringAt-update m (s + 1) t s 0 below h, refl, omega arith),
    )

word-TakenOff :
    (r s : ℕ) (m : ℕ → ℕ) (t : List ℕ)
    → StringAt m (s + 1) t
    → length t < r
    → (m s == 0 || is_space (m s) || is_symbol (m s)) ≡ false
    → TakenOff s (s + 1 + length t) (plain_word s m (word_end (suc r) s m))
unfolding word_end
word-TakenOff r s m t h lt go =
    let (e, t', run, there, sum, l) = word_end-StringAt r (s + 1) m t h lt in
    let k : Token = record { kind = b'w'; p1 = s; p2 = e } in
    let w : k.kind ≢ 0 = ground arith in
    (k, m, rw (go, run) refl, w, inl (t', there, sum, omega (arith, l)))

token_at-TakenOff :
    (r s : ℕ) (m : ℕ → ℕ) (t : List ℕ)
    → StringAt m (s + 1) t
    → length t < r
    → (m s == 0) ≡ false
    → is_space (m s) ≡ false
    → TakenOff s (s + 1 + length t) (token_at (suc r) s m)
token_at-TakenOff r s m t h lt nz no_space =
    let less : length t < suc r = omega arith in
    let ends = s + 1 + length t in
    let symbols : TakenOff s ends (
        if is_symbol (m s)
        then some (record { kind = m s; p1 = s; p2 = s + 1 }, update m s 0)
        else plain_word s m (word_end (suc r) s m)) =
      elim (Bool-cases (is_symbol (m s))) [
        | inl y ↦ rw y (symbol-TakenOff (m s) s m t h (ground arith))
        | inr n ↦ rw n (word-TakenOff r s m t h lt (rw (nz, no_space, n) refl))
      ] in
    elim (Bool-cases (m s == b'"')) [
      | inl y ↦ rw (nz, y) (quoted-TakenOff (suc r) b'"' s m t (inl refl) (ground arith) h less)
      | inr no_quote ↦ elim (Bool-cases (m s == b'`')) [
        | inl y ↦
            rw (nz, no_quote, y)
              (quoted-TakenOff (suc r) b'`' s m t (inr refl) (ground arith) h less)
        | inr no_tick ↦
            rw (nz, no_quote, no_tick)
              (elim (Bool-cases (m s == b'>' && m (s + 1) == b'>')) [
                | inl y ↦ rw y (doubled-TakenOff b'a' 61 s m t h (ground arith) (ground arith))
                | inr n ↦ rw n (elim (Bool-cases (m s == b'|' && m (s + 1) == b'|')) [
                  | inl y ↦ rw y (doubled-TakenOff b'O' 123 s m t h (ground arith) (ground arith))
                  | inr n' ↦ rw n' (elim (Bool-cases (m s == b'&' && m (s + 1) == b'&')) [
                    | inl y ↦ rw y (doubled-TakenOff b'A' 37 s m t h (ground arith) (ground arith))
                    | inr n'' ↦ rw n'' symbols
                  ])
                ])
              ])
      ]
    ]

Behind-later :
    (from from' ends : ℕ) (k : Token) (m : ℕ → ℕ)
    → from ≤ from'
    → Behind from' ends k m
    → Behind from ends k m
Behind-later from from' ends k m le (inl (t, there, sum, l)) =
    inl (t, there, sum, omega (arith, le, l))
Behind-later from from' ends k m le (inr at_end) = inr at_end

behind_space :
    (r s s' ends : ℕ) (m : ℕ → ℕ) (t : List ℕ)
    → StringAt m s' t
    → s' + length t ≡ ends
    → s ≤ s'
    → is_space (m s') ≡ false
    → length t < suc r
    → ((all_space t ≡ true)
        × (m' : ℕ → ℕ) × (token_at (suc r) s' m ≡ some (record { kind = 0; p1 = 0; p2 = 0 }, m')))
      ⊎ ((all_space t ≡ false) × TakenOff s ends (token_at (suc r) s' m))
behind_space r s s' ends m [] h sum le first lt = inl (refl, m, rw h refl)
behind_space r s s' ends m (c ∷ t) (e, nz, fits, rest) sum le first lt =
    let full : (m s' == 0) ≡ false = ground arith in
    let (k, m', run, kind, behind) = token_at-TakenOff r s' m t rest (omega arith) full first in
    let same : s' + 1 + length t ≡ ends = omega (arith, sum) in
    let some_byte : all_space (c ∷ t) ≡ false = rw (sym e, first) refl in
    inr (some_byte, (k, m', run, kind, Behind-later s s' ends k m' le (rw same at behind)))

-- _gettoken on a string that ends with a zero stops within as many rounds of its loops as the
-- string has bytes and one more: it returns 0 if the string is white space only, and only then; any
-- other kind comes with a shorter string that stands behind the token up to the same end, or, only
-- for a word that begins with a quote, with the address one behind the zero of the string.
pub next_token_lem :
    (r s : ℕ) (m : ℕ → ℕ) (t : List ℕ)
    → 0 < s
    → StringAt m s t
    → length t < r
    → ((all_space t ≡ true)
        × (m' : ℕ → ℕ) × (next_token r s m ≡ some (record { kind = 0; p1 = 0; p2 = 0 }, m')))
      ⊎ ((all_space t ≡ false) × TakenOff s (s + length t) (next_token r s m))
unfolding next_token
next_token_lem zero s m t nz h lt = absurd (omega arith)
next_token_lem (suc r) s m t nz h lt =
    let not_null : (s == 0) ≡ false = ground arith in
    let (s', m', t', run, there, sum, le, first, spaces) = skip_space-StringAt (suc r) s m t h lt in
    rw (not_null, run, spaces)
      (behind_space r s s' (s + length t) m' t' there sum le first (omega (arith, sum, le, lt)))
