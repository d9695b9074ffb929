-- ===== src/Shell/Examples.antt =====
-- A command line with a word and a redirection.
use buaa_os_challenge.Base.{ℕ, ◌≡◌, ◌⊎◌, refl, true, false, List, [], ◌∷◌, some, get_or, ◌-◌, arith}
use buaa_os_challenge.Shell.{next_token}
use buaa_os_challenge.Shell.Loops.{all_space}
use buaa_os_challenge.Shell.Tokens.{TakenOff, next_token_lem}

abbrev line : List ℕ
line = b' ' ∷ b'l' ∷ b's' ∷ b'>' ∷ b'>' ∷ b'f' ∷ []

-- the line at address 4
abbrev line_memory : ℕ → ℕ
line_memory a = get_or line (a - 4) 0

next_token_lem_example :
    ((all_space line ≡ true)
      × (m' : ℕ → ℕ) × (next_token 7 4 line_memory
          ≡ some (record { kind = 0; p1 = 0; p2 = 0 }, m')))
    ⊎ ((all_space line ≡ false) × TakenOff 4 10 (next_token 7 4 line_memory))
next_token_lem_example =
    next_token_lem 7 4 line_memory line (omega arith)
      (
        refl,
        omega arith,
        omega arith,
        (
          refl,
          omega arith,
          omega arith,
          (
            refl,
            omega arith,
            omega arith,
            (
              refl,
              omega arith,
              omega arith,
              (refl, omega arith, omega arith, (refl, omega arith, omega arith, refl)),
            ),
          ),
        ),
      )
      (omega arith)
