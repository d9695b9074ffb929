-- ===== src/Memory/Words.antt =====
-- Reading the words of memory after a write.
use buaa_os_challenge.Base.{ℕ, ◌≡◌, ◌≢◌, arith}
use buaa_os_challenge.Memory.{write}

module _ (w : ℕ → ℕ → ℕ) (f i v : ℕ) where
  pub write_self : write w f i v f i ≡ v
  write_self = ground arith

  pub write_row : (p j : ℕ) → p ≢ f → write w f i v p j ≡ w p j
  write_row p j h = ground arith

  pub write_col : (j : ℕ) → j ≢ i → write w f i v f j ≡ w f j
  write_col j h = ground arith
