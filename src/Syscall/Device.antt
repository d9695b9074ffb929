-- ===== src/Syscall/Device.antt =====
-- sys_write_dev and sys_read_dev of kern/syscall_all.c with the access functions of include/io.h.
-- How `len` bytes of user memory are read as a number depends on the machine's byte order, and what
-- a device answers on the device: both are parameters.
use buaa_os_challenge.Base.{
  ℕ, ◌+◌, ◌%◌, ◌^◌, ◌<◌, ◌≤◌, ◌≡◌, ◌⊎◌, inl, inr, Bool, true, false, not, ◌&&◌, ◌||◌, List, ◌∷◌,
  leb, ◌==◌, arith, bit_or, Bool-cases,
}
use buaa_os_challenge.Base.Errors.{inval}
use buaa_os_challenge.Base.Monad.{ret, fail, M, modify, throw_if, ◌>>◌}
use buaa_os_challenge.Syscall.Range.{is_illegal_va, is_illegal_va_range, is_illegal_va_range_lem}

-- A store of `width` bytes.
pub record Access : Type 0 where
  pub width : ℕ
  pub address : ℕ
  pub value : ℕ

-- The stores to devices and to user memory, the last one first.
pub record Io : Type 0 where
  pub device : List Access
  pub user : List Access

abbrev pub console : ℕ
console = 0x1800_03f8

abbrev pub disk : ℕ
disk = 0x1800_01f0

-- `!(len == 1 || len == 2 || len == 4)`
abbrev pub bad_width : ℕ → Bool
bad_width len = not (len == 1 || (len == 2 || len == 4))

-- The test of `pa` against the two devices; `pa + len` is a u_int.
abbrev pub no_device : ℕ → ℕ → Bool
no_device pa len =
    not (leb console pa && leb ((pa + len) % 2 ^ 32) (console + 0x20))
    && not (leb disk pa && leb ((pa + len) % 2 ^ 32) (disk + 0x8))

-- `paddr | KSEG1`
abbrev pub uncached : ℕ → ℕ
uncached pa = bit_or pa 0xa000_0000

module _ (read : ℕ → ℕ → ℕ) where
  -- sys_write_dev; `read len va` are the bytes of user memory
  unfoldable pub sys_write_dev : ℕ → ℕ → ℕ → M Io (Unit {0})
  sys_write_dev va pa len = do
    throw_if (bad_width len) inval
    throw_if (is_illegal_va_range va len) inval
    throw_if (no_device pa len) inval
    modify (λ io. record io {
      device = record { width = len; address = uncached pa; value = read len va } ∷ io.device;
    })

  -- sys_read_dev; `read len a` is what the device answers at the address `a`
  unfoldable pub sys_read_dev : ℕ → ℕ → ℕ → M Io (Unit {0})
  sys_read_dev va pa len = do
    throw_if (bad_width len) inval
    throw_if (is_illegal_va_range va len) inval
    throw_if (no_device pa len) inval
    modify (λ io. record io {
      user = record { width = len; address = va; value = read len (uncached pa) } ∷ io.user;
    })

-- The bytes lie in the registers of the console, in those of the disk, or the sum of address and
-- length does not fit into a word.
abbrev pub Reaches : ℕ → ℕ → Type 0
Reaches pa len =
    ((console ≤ pa) × (pa + len ≤ console + 0x20))
    ⊎ (((disk ≤ pa) × (pa + len ≤ disk + 0x8)) ⊎ (2 ^ 32 ≤ pa + len))

-- What the two calls accept: the width of an access, a user range, and a device address.
pub record IsAccepted (va pa len : ℕ) : Type 0 where
  pub width : bad_width len ≡ false
  pub legal : (a : ℕ) → va ≤ a → a < va + len → is_illegal_va a ≡ false
  pub reaches : Reaches pa len

reach_lem :
    (pa len : ℕ)
    → pa < 2 ^ 32
    → bad_width len ≡ false
    → ((no_device pa len ≡ false) × Reaches pa len) ⊎ ((no_device pa len ≡ true) × ¬ Reaches pa len)
reach_lem pa len h w = elim (Bool-cases (leb (2 ^ 32) (pa + len))) [
  | inl wraps ↦
      let small : len ≤ 4 = ground arith in
      let e : leb ((pa + len) % 2 ^ 32) (console + 0x20) ≡ true = ground arith in
      let far : leb console pa ≡ true = ground arith in inl (rw (far, e), inr (inr (ground arith)))
  | inr fits ↦
      let e : (pa + len) % 2 ^ 32 ≡ pa + len = ground arith in
      rw e (elim (Bool-cases (leb console pa && leb (pa + len) (console + 0x20))) [
        | inl c ↦ inl (rw c, inl (ground arith, ground arith))
        | inr nc ↦ elim (Bool-cases (leb disk pa && leb (pa + len) (disk + 0x8))) [
          | inl d ↦ inl (rw (nc, d), inr (inl (ground arith, ground arith)))
          | inr nd ↦ inr (rw (nc, nd), outside (ground arith) nc nd)
        ]
      ])
]
  where
    outside :
        pa + len < 2 ^ 32
        → (leb console pa && leb (pa + len) (console + 0x20)) ≡ false
        → (leb disk pa && leb (pa + len) (disk + 0x8)) ≡ false
        → ¬ Reaches pa len
    outside f nc nd (inl (a, b)) = ground arith
    outside f nc nd (inr (inl (a, b))) = ground arith
    outside f nc nd (inr (inr a)) = ground arith

-- The three tests of the two calls, as one.
accept_lem :
    (va pa len : ℕ)
    → va < 2 ^ 32
    → pa < 2 ^ 32
    → ((bad_width len ≡ false)
        × (is_illegal_va_range va len ≡ false)
        × (no_device pa len ≡ false)
        × IsAccepted va pa len)
      ⊎ (¬ IsAccepted va pa len
          × ((S A : Type 0) (m : M S A) (s : S)
              → (throw_if (bad_width len) inval
                    >> (throw_if (is_illegal_va_range va len) inval
                        >> (throw_if (no_device pa len) inval >> m)))
                  s
                ≡ fail inval s))
accept_lem va pa len hv hp = elim (Bool-cases (bad_width len)) [
  | inl bad ↦ inr (λ a. cc a.width, λ S A m s. rw bad)
  | inr good ↦
      let small : len < 2 ^ 32 = ground arith in
      let some_bytes : 0 < len = ground arith in
      let range = is_illegal_va_range_lem va len hv small some_bytes in
      elim (Bool-cases (is_illegal_va_range va len)) [
        | inl bad ↦ inr (λ a. let e = range.1 a.legal in absurd cc, λ S A m s. rw (good, bad))
        | inr ok ↦ elim (reach_lem pa len hp good) [
          | inl (e, r) ↦ inl (good, ok, e, record { width = good; legal = range.0 ok; reaches = r })
          | inr (e, r) ↦ inr (λ a. r a.reaches, λ S A m s. rw (good, ok, e))
        ]
      ]
]

-- For machine words, sys_read_dev stores what the device answers to an access of the width at the
-- device address, once, in user memory, if it accepts the request (under the same conditions as
-- sys_write_dev). In all other cases it fails with E_INVAL and stores nothing.
pub sys_read_dev_lem :
    (read : ℕ → ℕ → ℕ) (va pa len : ℕ) (io : Io)
    → va < 2 ^ 32
    → pa < 2 ^ 32
    → (IsAccepted va pa len
        × (sys_read_dev read va pa len io
            ≡ ret tt (record io {
              user = record { width = len; address = va; value = read len (uncached pa) } ∷ io.user;
            })))
      ⊎ (¬ IsAccepted va pa len × (sys_read_dev read va pa len io ≡ fail inval io))
unfolding sys_read_dev
sys_read_dev_lem read va pa len io hv hp = elim (accept_lem va pa len hv hp) [
  | inl (a, b, c, good) ↦ inl (good, rw (a, b, c))
  | inr (bad, e) ↦ inr (
    bad,
    e Io (Unit {0})
        (modify (λ io. record io {
          user = record { width = len; address = va; value = read len (uncached pa) } ∷ io.user;
        }))
        io,
  )
]
