-- ===== src/Text/Number.antt =====
-- The loop over the digits of a number: what it writes is the number in its base, the digit of the
-- lowest value first.
use mathlib.Core.Logic.{dite}
use mathlib.Core.WellFounded.{Acc}
use native.Mathlib.Decide.{dec_lt}
use native.Mathlib.Nat.{mod-add-div, mod-lt}
use buaa_os_challenge.Base.{
  ℕ, suc, ◌+◌, ◌*◌, ◌/◌, ◌%◌, ◌<◌, ◌≡◌, refl, ap, sym, ◌∙◌, Bool, true, List, [], ◌∷◌, map, update,
  ◌==◌, arith, length,
}
use buaa_os_challenge.Text.{Bytes, symbol, put_digits, quotient_lt, read}

-- the value of digits, the lowest first
abbrev pub value : ℕ → List ℕ → ℕ
value base [] = 0
value base (d ∷ ds) = d + base * value base ds

abbrev pub AllBelow : ℕ → List ℕ → Type 0
AllBelow base [] = Unit
AllBelow base (d ∷ ds) = (d < base) × AllBelow base ds

-- at least one digit, and no zeros in front of others
abbrev pub IsShort : ℕ → List ℕ → Type 0
IsShort base [] = ⊥
IsShort base (d ∷ []) = Unit
IsShort base (d ∷ e ∷ ds) = (0 < value base (e ∷ ds)) × IsShort base (e ∷ ds)

-- The digits of a number in a base.
abbrev pub IsNumeral : ℕ → ℕ → List ℕ → Type 0
IsNumeral base u ds = AllBelow base ds × (value base ds ≡ u) × IsShort base ds

dite-elim :
    {A B : Type 0} (P : B → Type 0) (d : Dec A) (f : A → B) (g : (A → ⊥) → B)
    → ((a : A) → P (f a))
    → ((n : A → ⊥) → P (g n))
    → P (dite d f g)
dite-elim P (yes a) f g hf hg = hf a
dite-elim P (no n) f g hf hg = hg n

-- What the loop leaves from index `p` on.
abbrev pub Written : ℕ → ℕ → Bool → ℕ → (ℕ → ℕ) → ((ℕ → ℕ) × ℕ) → Type 0
Written base u upcase p buf r =
    (ds : List ℕ) × IsNumeral base u ds
    × (r.1 ≡ p + length ds)
    × (read (length ds) p r.0 ≡ map (symbol upcase) ds)
    × ((i : ℕ) → i < p → r.0 i ≡ buf i)

abbrev first_byte : (base u p : ℕ) (upcase : Bool) (buf : ℕ → ℕ) → ℕ → ℕ
first_byte base u p upcase buf = update buf p (symbol upcase (u % base))

-- A last round.
ended :
    (base : ℕ) (h : 1 < base) (u : ℕ) (upcase : Bool) (p : ℕ) (buf : ℕ → ℕ)
    → ¬ (0 < u / base)
    → Written base u upcase p buf (first_byte base u p upcase buf, p + 1)
unfolding read
ended base h u upcase p buf last =
    let q : u / base ≡ 0 = omega arith in
    let v : u % base + base * 0 ≡ u =
      ap (λ (k : ℕ). u % base + base * k) (sym q) ∙ mod-add-div u base in
    let below : u % base < base = mod-lt u (omega arith) in
    let e : (p == p) ≡ true = ground arith in
    (u % base ∷ [], ((below, tt), v, tt), refl, rw e, λ i lt. ground arith)

-- A round before others.
step :
    (base : ℕ) (h : 1 < base) (u : ℕ) (upcase : Bool) (p : ℕ) (buf : ℕ → ℕ) (r : (ℕ → ℕ) × ℕ)
    → 0 < u / base
    → Written base (u / base) upcase (p + 1) (first_byte base u p upcase buf) r
    → Written base u upcase p buf r
unfolding read
step base h u upcase p buf r more ([], (_, _, short), _, _, _) = absurd short
step base h u upcase p buf r more (d ∷ ds, (below, exact, short), len, text, kept) =
    let v : u % base + base * (d + base * value base ds) ≡ u =
      ap (λ (k : ℕ). u % base + base * k) exact ∙ mod-add-div u base in
    let first : u % base < base = mod-lt u (omega arith) in
    let pos : 0 < d + base * value base ds = omega arith in
    let byte : r.0 p ≡ symbol upcase (u % base) = kept p (omega arith) ∙ ground arith in
    (
      u % base ∷ d ∷ ds,
      ((first, below), v, (pos, short)),
      omega arith,
      ap (λ (b : ℕ). b ∷ read (suc (length ds)) (p + 1) r.0) byte
          ∙ ap (λ (s : Bytes). symbol upcase (u % base) ∷ s) text,
      λ i lt. kept i (omega arith) ∙ ground arith,
    )

pub put_digits-Written :
    (base : ℕ) (h : 1 < base) (u : ℕ) (w : Acc ◌<◌ u) (upcase : Bool) (p : ℕ) (buf : ℕ → ℕ)
    → Written base u upcase p buf (put_digits base h u w upcase p buf)
unfolding put_digits
put_digits-Written base h u (Acc.intro _ smaller) upcase p buf =
    let buf' = update buf p (symbol upcase (u % base)) in
    dite-elim (Written base u upcase p buf) (dec_lt 0 (u / base))
      (λ more.
        put_digits base h (u / base) (smaller (u / base) (quotient_lt base u h more)) upcase (p + 1)
          buf')
      (λ _. (buf', p + 1))
      (λ more.
        let ih =
          put_digits-Written base h (u / base) (smaller (u / base) (quotient_lt base u h more))
            upcase (p + 1) buf' in
        step base h u upcase p buf _ more ih)
      (λ last. ended base h u upcase p buf last)
