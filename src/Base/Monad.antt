-- ===== src/Base/Monad.antt =====
-- C functions over a state. `ret` is a normal return, `fail` the return of a negative error code
-- (what was written before stays written), `panic` a call of panic, a failed assertion or an
-- access outside memory.
use buaa_os_challenge.Base.Errors.{Error}
use mathlib.Core.Bool.{Bool, true, false}
use mathlib.Core.Path.{◌≡◌, refl}
use Prim.Native.Nat.{ℕ, zero, suc, ◌+◌}

pub data Run (S A : Type 0) : Type 0 where
  ret : A → S → Run S A
  fail : Error → S → Run S A
  panic : Run S A

abbrev pub M : Type 0 → Type 0 → Type 0
M S A = S → Run S A

module _ {S : Type 0} where
  abbrev pub pure : {A : Type 0} → A → M S A
  pure a s = ret a s

  abbrev pub throw : {A : Type 0} → Error → M S A
  throw e s = fail e s

  abbrev pub stop : {A : Type 0} → M S A
  stop s = panic

  abbrev pub get : M S S
  get s = ret s s

  abbrev pub modify : (S → S) → M S (Unit {0})
  modify f s = ret tt (f s)

  abbrev pub gets : {A : Type 0} → (S → A) → M S A
  gets f s = ret (f s) s

  -- the macro `assert`
  abbrev pub assert : Bool → M S (Unit {0})
  assert true s = ret tt s
  assert false s = panic

  -- `if (c) return -e;`
  abbrev pub throw_if : Bool → Error → M S (Unit {0})
  throw_if true e s = fail e s
  throw_if false e s = ret tt s

  module _ {A B : Type 0} where
    abbrev pub and_then : Run S A → (A → M S B) → Run S B
    and_then (ret a s) k = k a s
    and_then (fail e s) k = fail e s
    and_then panic k = panic

    -- the macro `try`: an error code is passed on at once
    infixl 5 ◌>>=◌ ◌>>◌
    abbrev pub ◌>>=◌ : M S A → (A → M S B) → M S B
    ◌>>=◌ m k s = and_then (m s) k

    abbrev pub ◌>>◌ : M S A → M S B → M S B
    ◌>>◌ m k s = and_then (m s) (λ _. k)

  -- the macro `panic_on`: an error code is a panic
  abbrev pub or_panic : {A : Type 0} → Run S A → Run S A
  or_panic (ret a s) = ret a s
  or_panic (fail e s) = panic
  or_panic panic = panic

module _ {S : Type 0} where
  -- `for (j = i; j < i + n; j++) body(j);`, by the rounds left
  unfoldable pub for_from : ℕ → ℕ → (ℕ → M S (Unit {0})) → M S (Unit {0})
  for_from zero i body s = ret tt s
  for_from (suc n) i body s = and_then (body i s) (λ _. for_from n (i + 1) body)

  pub for_from-zero : (i : ℕ) (body : ℕ → M S (Unit {0})) (s : S) → for_from 0 i body s ≡ ret tt s
  unfolding for_from
  for_from-zero i body s = refl

  pub for_from-suc :
      (n i : ℕ) (body : ℕ → M S (Unit {0})) (s s' : S)
      → body i s ≡ ret tt s'
      → for_from (suc n) i body s ≡ for_from n (i + 1) body s'
  unfolding for_from
  for_from-suc n i body s s' e = rw e
