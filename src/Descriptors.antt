-- ===== src/Descriptors.antt =====
-- File descriptors of a user program, user/lib/fd.c. Descriptor `i` is the page at INDEX2FD(i): which
-- page is mapped there, if any, is `fd_page`, and what stands in the pages is `fds`, so that
-- descriptors that were duplicated share one struct Fd. The functions of the devices are parameters:
-- a device reads from and writes to a state of its own. Descriptor numbers are not negative.
pub mod Numbers
pub mod Reading
mod Examples
use Prim.Native.Nat.{bit_and}
use buaa_os_challenge.Base.{
  ℕ, zero, suc, ◌+◌, ◌-◌, ◌*◌, ◌/◌, ◌^◌, ◌%◌, Bool, true, false, List, [], ◌∷◌, ◌++◌, Option, none,
  some, update, length, ltb, leb, ◌==◌, if◌then◌else◌,
}
use buaa_os_challenge.Base.Errors.{Error, inval, max_open}
use buaa_os_challenge.Base.Monad.{
  Run, ret, fail, panic, M, pure, throw, get, gets, modify, throw_if, and_then, ◌>>=◌, ◌>>◌,
}

-- struct Fd
pub record Fd : Type 0 where
  pub fd_dev_id : ℕ
  pub fd_offset : ℕ
  pub fd_omode : ℕ

-- struct Dev, over the state of the devices; what is read is the list of its bytes
pub record Dev (D : Type 0) : Type 0 where
  pub dev_id : ℕ
  pub dev_read : Fd → ℕ → ℕ → M D (List ℕ)
  pub dev_write : Fd → List ℕ → ℕ → M D ℕ
  pub dev_close : Fd → M D (Unit {0})

pub record Process (D : Type 0) : Type 0 where
  pub fd_page : ℕ → Option ℕ
  pub fds : ℕ → Fd
  pub devices : D

abbrev pub fd_table : ℕ
fd_table = 0x5fc0_0000

-- INDEX2FD
abbrev pub num2fd : ℕ → ℕ
num2fd fd = (fd * 4096 + fd_table) % 2 ^ 32

unfoldable pub fd2num : ℕ → ℕ
fd2num fd = (fd + (2 ^ 32 - fd_table)) % 2 ^ 32 / 4096

-- fd2data
unfoldable pub fd2data : ℕ → ℕ
unfolding fd2num
fd2data fd = (0x6000_0000 + fd2num fd * 0x40_0000) % 2 ^ 32

-- dev_lookup
unfoldable pub dev_lookup : {D : Type 0} → List (Dev D) → ℕ → Option (Dev D)
dev_lookup [] dev_id = none
dev_lookup (dev ∷ devs) dev_id =
    let rest = dev_lookup devs dev_id in if dev.dev_id == dev_id then some dev else rest

module _ {D : Type 0} (devtab : List (Dev D)) where
  -- a round of fd_alloc, with the rounds that follow
  abbrev pub free_or_later : Option ℕ → ℕ → M (Process D) ℕ → M (Process D) ℕ
  free_or_later none fdno later s = ret fdno s
  free_or_later (some p) fdno later s = later s

  -- the loop of fd_alloc from `fdno` on, with `n` rounds left
  unfoldable pub fd_alloc_from : ℕ → ℕ → M (Process D) ℕ
  fd_alloc_from zero fdno s = fail max_open s
  fd_alloc_from (suc n) fdno s = free_or_later (s.fd_page fdno) fdno (fd_alloc_from n (fdno + 1)) s

  -- fd_alloc: the number of the descriptor
  unfoldable pub fd_alloc : M (Process D) ℕ
  unfolding fd_alloc_from
  fd_alloc = fd_alloc_from 31 0

  -- fd_close
  abbrev pub fd_close : ℕ → M (Process D) (Unit {0})
  fd_close i s = ret tt (record s { fd_page = update s.fd_page i none })

  abbrev pub mapped_page : Option ℕ → M (Process D) ℕ
  mapped_page none s = fail inval s
  mapped_page (some p) s = ret p s

  -- fd_lookup: the page of the struct Fd
  unfoldable pub fd_lookup : ℕ → M (Process D) ℕ
  fd_lookup fdnum s = if leb 32 fdnum then fail inval s else mapped_page (s.fd_page fdnum) s

  abbrev pub known_device : Option (Dev D) → M (Process D) (Dev D)
  known_device none s = fail inval s
  known_device (some dev) s = ret dev s

  abbrev pub lift_device : {A : Type 0} → Process D → Run D A → Run (Process D) A
  lift_device s (ret a d) = ret a (record s { devices = d })
  lift_device s (fail e d) = fail e (record s { devices = d })
  lift_device s panic = panic

  abbrev pub on_device : {A : Type 0} → M D A → M (Process D) A
  on_device f s = lift_device s (f s.devices)

  -- `fd->fd_offset += r`
  abbrev pub advance : ℕ → ℕ → Process D → Process D
  advance p r s = record s {
    fds = update s.fds p (record (s.fds p) { fd_offset = ((s.fds p).fd_offset + r) % 2 ^ 32 });
  }

  -- What close does with the outcome of dev_close, which it returns.
  abbrev pub closed : ℕ → Run (Process D) (Unit {0}) → Run (Process D) (Unit {0})
  closed i (ret _ s) = fd_close i s
  closed i (fail e s) = and_then (fd_close i s) (λ _. throw e)
  closed i panic = panic

  -- close
  unfoldable pub close : ℕ → M (Process D) (Unit {0})
  unfolding fd_lookup
  close fdnum = do
    p ← fd_lookup fdnum
    s ← get
    dev ← known_device (dev_lookup devtab (s.fds p).fd_dev_id)
    λ t. closed fdnum (on_device (dev.dev_close (t.fds p)) t)

  -- read
  unfoldable pub read : ℕ → ℕ → M (Process D) (List ℕ)
  unfolding fd_lookup
  read fdnum n = do
    p ← fd_lookup fdnum
    s ← get
    dev ← known_device (dev_lookup devtab (s.fds p).fd_dev_id)
    throw_if (bit_and (s.fds p).fd_omode 3 == 1) inval
    bytes ← on_device (dev.dev_read (s.fds p) n (s.fds p).fd_offset)
    modify (advance p (length bytes))
    pure bytes

  -- What readn does with the bytes of a round.
  abbrev pub or_enough : List ℕ → M (Process D) (List ℕ) → M (Process D) (List ℕ)
  or_enough [] more s = ret [] s
  or_enough (b ∷ bytes) more s = and_then (more s) (λ rest. pure ((b ∷ bytes) ++ rest))

  -- The loop of readn, with `n` bytes left, by a bound on its rounds.
  unfoldable pub readn_rounds : ℕ → ℕ → ℕ → M (Process D) (List ℕ)
  unfolding read
  readn_rounds zero fdnum n s = if n == 0 then ret [] s else panic
  readn_rounds (suc r) fdnum n s =
      if n == 0
      then ret [] s
      else and_then (read fdnum n s)
          (λ bytes. or_enough bytes (readn_rounds r fdnum (n - length bytes)))

  -- readn: a round reads at least one byte, or is the last
  unfoldable pub readn : ℕ → ℕ → M (Process D) (List ℕ)
  unfolding readn_rounds
  readn fdnum n = readn_rounds n fdnum n

  -- write
  unfoldable pub write : ℕ → List ℕ → M (Process D) ℕ
  unfolding fd_lookup
  write fdnum bytes = do
    p ← fd_lookup fdnum
    s ← get
    dev ← known_device (dev_lookup devtab (s.fds p).fd_dev_id)
    throw_if (bit_and (s.fds p).fd_omode 3 == 0) inval
    r ← on_device (dev.dev_write (s.fds p) bytes (s.fds p).fd_offset)
    modify (advance p r)
    pure r

  -- seek
  unfoldable pub seek : ℕ → ℕ → M (Process D) (Unit {0})
  unfolding fd_lookup
  seek fdnum offset = do
    p ← fd_lookup fdnum
    modify (λ s. record s { fds = update s.fds p (record (s.fds p) { fd_offset = offset }) })
