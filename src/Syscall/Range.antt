-- ===== src/Syscall/Range.antt =====
-- is_illegal_va and is_illegal_va_range of kern/syscall_all.c: the addresses that a system call
-- accepts from a user program.
use buaa_os_challenge.Base.{
  ℕ, ◌+◌, ◌%◌, ◌^◌, ◌<◌, ◌≤◌, ◌≡◌, Bool, false, ◌||◌, ltb, leb, ◌==◌, if◌then◌else◌, arith, ◌↔◌,
  ◌-◌, Bool-cases, inl, inr,
}
use buaa_os_challenge.Memory.Space.{utop}

-- UTEMP
abbrev pub utemp : ℕ
utemp = 0x3f_e000

abbrev pub is_illegal_va : ℕ → Bool
is_illegal_va va = ltb va utemp || leb utop va

-- is_illegal_va_range; the sum is a u_long
abbrev pub is_illegal_va_range : ℕ → ℕ → Bool
is_illegal_va_range va len =
    if len == 0
    then false
    else ltb ((va + len) % 2 ^ 32) va || (ltb va utemp || ltb utop ((va + len) % 2 ^ 32))

-- For machine words, a range that is not empty is accepted exactly if all its addresses are those
-- that is_illegal_va accepts; the wrap-around of the sum lets nothing else pass.
pub is_illegal_va_range_lem :
    (va len : ℕ)
    → va < 2 ^ 32
    → len < 2 ^ 32
    → 0 < len
    → (is_illegal_va_range va len ≡ false)
      ↔ ((a : ℕ) → va ≤ a → a < va + len → is_illegal_va a ≡ false)
is_illegal_va_range_lem va len hv hl pos = (
  λ h a lo hi. ground arith,
  λ h. elim (Bool-cases (ltb (va + len) (2 ^ 32))) [
    | inl y ↦
        let first : is_illegal_va va ≡ false = h va (omega arith) (omega arith) in
        let last : is_illegal_va (va + len - 1) ≡ false =
          h (va + len - 1) (omega arith) (ground arith) in
        let e : (va + len) % 2 ^ 32 ≡ va + len = ground arith in rw e (ground arith)
    | inr n ↦
        let top : is_illegal_va (2 ^ 32 - 1) ≡ false =
          h (2 ^ 32 - 1) (omega arith) (ground arith) in
        absurd (ground arith)
  ],
)
