-- ===== src/Memory/Walk.antt =====
-- What each step of pgdir_walk, page_lookup and page_insert computes, as equations.
use buaa_os_challenge.Base.{
  ℕ, ◌<◌, ◌≡◌, refl, Bool, true, false, none, some, List, [], ◌∷◌, arith, update, lt→ltb,
}
use buaa_os_challenge.Base.Errors.{no_mem}
use buaa_os_challenge.Base.Monad.{ret, fail}
use buaa_os_challenge.Memory.{Memory, Pte, pte, load, store, set_ref, pgdir_walk, lookup_at}
use buaa_os_challenge.Memory.Entry.{valid, ppn_of, pdx, ptx, make_pde, entry_hi}
use buaa_os_challenge.Memory.Words.{write_self}
use buaa_os_challenge.Memory.Alloc.{IsFree, taken, page_alloc-none, page_alloc-some}

-- the directory entry for an address, and the place of its page table entry
abbrev pub dir_entry : Memory → ℕ → ℕ → ℕ
dir_entry m g va = m.word g (pdx va)

abbrev pub slot : Memory → ℕ → ℕ → Pte
slot m g va = pte (ppn_of (dir_entry m g va)) (ptx va)

abbrev pub flush : ℕ → ℕ → Memory → Memory
flush asid va m = record m { flushed = entry_hi asid va ∷ m.flushed }

module _ (m : Memory) (g va : ℕ) where
  pub walk-found :
      (c : Bool)
      → valid (dir_entry m g va) ≡ true
      → ppn_of (dir_entry m g va) < m.npage
      → pgdir_walk g va c m ≡ ret (some (slot m g va)) m
  unfolding pgdir_walk
  walk-found c v lt = rw (v, lt→ltb _ _ lt)

  pub walk-missing : valid (dir_entry m g va) ≡ false → pgdir_walk g va false m ≡ ret none m
  unfolding pgdir_walk
  walk-missing v = rw v

  pub walk-no_mem :
      valid (dir_entry m g va) ≡ false → IsFree m [] → pgdir_walk g va true m ≡ fail no_mem m
  unfolding pgdir_walk
  walk-no_mem v is = rw (v, page_alloc-none m is)

  -- the memory after a walk that takes page `x` for a table
  abbrev pub tabled : ℕ → Memory
  tabled x = store (pte g (pdx va)) (make_pde x) (set_ref x 1 (taken x m))

  pub walk-created :
      (x : ℕ) (xs : List ℕ)
      → valid (dir_entry m g va) ≡ false
      → IsFree m (x ∷ xs)
      → ppn_of (make_pde x) ≡ x
      → pgdir_walk g va true m ≡ ret (some (pte x (ptx va))) (tabled x)
  unfolding pgdir_walk
  walk-created x xs v is e =
      rw (v, page_alloc-some m x xs is)
        (rw (
          write_self (update m.word x (λ _. 0)) g (pdx va) (make_pde x),
          e,
          lt→ltb x m.npage (is.below x (ground arith)),
        ))

pub lookup-none : (m : Memory) → lookup_at none m ≡ ret none m
unfolding lookup_at
lookup-none m = refl

pub lookup-invalid :
    (m : Memory) (p : Pte) → valid (load m p) ≡ false → lookup_at (some p) m ≡ ret none m
unfolding lookup_at
lookup-invalid m p v = rw v

pub lookup-found :
    (m : Memory) (p : Pte)
    → valid (load m p) ≡ true
    → ppn_of (load m p) < m.npage
    → lookup_at (some p) m ≡ ret (some (ppn_of (load m p), p)) m
unfolding lookup_at
lookup-found m p v lt = rw (v, lt→ltb _ _ lt)
