-- ===== src/Descriptors/Examples.antt =====
-- A device of five bytes that gives two at a time, and a process that has it open.
use Prim.Native.Nat.{min}
use buaa_os_challenge.Base.{
  ℕ, ◌+◌, ◌-◌, ◌≡◌, refl, [], ◌∷◌, none, some, ◌==◌, if◌then◌else◌, arith, length,
}
use buaa_os_challenge.Base.Monad.{ret}
use buaa_os_challenge.Text.{read as stretch}
use buaa_os_challenge.Descriptors.{Dev, Process, fd_alloc, readn, dev_lookup}
use buaa_os_challenge.Descriptors.Numbers.{FirstFree, fd_alloc-FirstFree}
use buaa_os_challenge.Descriptors.Reading.{Holds, Readable, Moved, readn-Result}

abbrev content : ℕ → ℕ
content i = 100 + i

abbrev two_at_most : ℕ → ℕ → ℕ
two_at_most n off = min 2 (min n (5 - off))

abbrev device : Dev (Unit {0})
device = record {
  dev_id = b'f';
  dev_read = λ fd n off d. ret (stretch (two_at_most n off) off content) d;
  dev_write = λ fd bytes off d. ret (length bytes) d;
  dev_close = λ fd d. ret tt d;
}

abbrev process : Process (Unit {0})
process = record {
  fd_page = λ i. if i == 0 then some 7 else none;
  fds = λ _. record { fd_dev_id = b'f'; fd_offset = 1; fd_omode = 0 };
  devices = tt;
}

device-Holds : Holds device content 5 two_at_most
device-Holds n off = (omega arith, λ h. omega arith, λ fd d. refl)

process-Readable : Readable (device ∷ []) device 0 7 1 process
unfolding dev_lookup
process-Readable = (refl, refl, refl, refl)

readn-Result_example :
    (t : Process (Unit {0})) × (readn (device ∷ []) 0 10 process
      ≡ ret (stretch (min 10 (5 - 1)) 1 content) t)
    × Moved (device ∷ []) device content 5 two_at_most 0 7 process (1 + min 10 (5 - 1)) t
readn-Result_example =
    readn-Result (device ∷ []) device content 5 two_at_most 0 7 10 1 process device-Holds
      (omega arith) (omega arith) process-Readable

fd_alloc-FirstFree_example : FirstFree process 0 31 (fd_alloc (device ∷ []) process)
fd_alloc-FirstFree_example = fd_alloc-FirstFree (device ∷ []) process
