-- ===== src/Base/Fun.antt =====
-- Memories and tables as functions of an index, and their update at one index.
use Prim.Native.Nat.{ℕ}
use buaa_os_challenge.Base.Tests.{◌==◌, if◌then◌else◌}

abbrev pub update {ℓ} : {A : Type ℓ} → (ℕ → A) → ℕ → A → ℕ → A
update f i a j = if j == i then a else f j
