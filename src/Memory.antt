-- ===== src/Memory.antt =====
-- Physical memory and page tables: kern/pmap.c with the inline functions of include/pmap.h and the
-- macros of include/mmu.h. A `struct Page *` is the index of the page in `pages`; a frame has the
-- index of its page. A `Pde *` that heads a directory is the frame of the directory, and a `Pte *`
-- is a frame with the index of a word in it.
pub mod Entry
pub mod Alloc
pub mod Boot
pub mod Words
pub mod Walk
pub mod Space
pub mod Insert
pub mod Mapping
pub mod Examples
use Entry.{valid, ppn_of, pdx, ptx, make_pte, make_pde, entry_hi, page2pa}
use buaa_os_challenge.Base.{
  ℕ, ◌+◌, ◌-◌, ◌%◌, ◌^◌, ◌*◌, Bool, true, false, not, ◌&&◌, Option, none, some, List, [], ◌∷◌,
  update, ltb, ◌==◌, if◌then◌else◌,
}
use buaa_os_challenge.Base.Errors.{Error, no_mem}
use buaa_os_challenge.Base.Monad.{
  Run, ret, fail, panic, M, pure, throw, stop, get, gets, modify, assert, and_then, ◌>>=◌, ◌>>◌,
}
use buaa_os_challenge.Queue.{Links, insert_head, remove}

-- The globals of pmap.c. `flushed` is the log of what tlb_out was called with, the last call first.
pub record Memory : Type 0 where
  pub npage : ℕ
  pub ref : ℕ → ℕ
  pub word : ℕ → ℕ → ℕ
  pub free : Links
  pub flushed : List ℕ

-- A pointer to a page table entry.
pub record Pte : Type 0 where
  pub frame : ℕ
  pub index : ℕ

abbrev pub pte : ℕ → ℕ → Pte
pte f i = record { frame = f; index = i }

-- `*p` and `*p = v`
abbrev pub load : Memory → Pte → ℕ
load m p = m.word p.frame p.index

abbrev pub write : (ℕ → ℕ → ℕ) → ℕ → ℕ → ℕ → ℕ → ℕ → ℕ
write w f i v = update w f (update (w f) i v)

abbrev pub store : Pte → ℕ → Memory → Memory
store p v m = record m { word = write m.word p.frame p.index v }

abbrev pub set_ref : ℕ → ℕ → Memory → Memory
set_ref pp n m = record m { ref = update m.ref pp n }

-- page2kva, with the check of KADDR: the frame of a page.
unfoldable pub page2kva : ℕ → M Memory ℕ
page2kva pp = do m ← get; assert (ltb pp m.npage); pure pp

-- pa2page: the page of a physical address or an entry.
unfoldable pub pa2page : ℕ → M Memory ℕ
pa2page pa = do m ← get; assert (ltb (ppn_of pa) m.npage); pure (ppn_of pa)

-- tlb_invalidate
unfoldable pub tlb_invalidate : ℕ → ℕ → M Memory (Unit {0})
tlb_invalidate asid va = modify (λ m. record m { flushed = entry_hi asid va ∷ m.flushed })

-- page_alloc
unfoldable pub page_alloc : M Memory ℕ
unfolding page2kva
page_alloc m = elim m.free.first [
  | none ↦ fail no_mem m
  | some pp ↦
      (do
        modify (λ m. record m { free = remove m.free pp })
        frame ← page2kva pp
        modify (λ m. record m { word = update m.word frame (λ _. 0) })
        pure pp)
        m
]

-- page_free
unfoldable pub page_free : ℕ → M Memory (Unit {0})
page_free pp = do
  m ← get
  assert (m.ref pp == 0)
  modify (λ m. record m { free = insert_head m.free pp })

-- page_decref
unfoldable pub page_decref : ℕ → M Memory (Unit {0})
unfolding page_free
page_decref pp = do
  m ← get
  assert (ltb 0 (m.ref pp))
  modify (set_ref pp (m.ref pp - 1))
  if m.ref pp - 1 == 0 then page_free pp else pure tt

-- `pgdir_walk` once the directory entry is there: the last step.
unfoldable pub walk_table : ℕ → ℕ → M Memory (Option Pte)
walk_table pgdir va = do
  m ← get
  assert (ltb (ppn_of (m.word pgdir (pdx va))) m.npage)
  pure (some (pte (ppn_of (m.word pgdir (pdx va))) (ptx va)))

-- pgdir_walk; `none` is a `*ppte` of NULL
unfoldable pub pgdir_walk : ℕ → ℕ → Bool → M Memory (Option Pte)
unfolding walk_table
pgdir_walk pgdir va create = do
  m ← get
  if valid (m.word pgdir (pdx va))
      then walk_table pgdir va
      else if create
      then (do
        pp ← page_alloc
        modify (set_ref pp 1)
        modify (store (pte pgdir (pdx va)) (make_pde pp))
        walk_table pgdir va)
      else pure none

-- What `page_lookup` does with the entry that the walk found.
unfoldable pub lookup_at : Option Pte → M Memory (Option (ℕ × Pte))
unfolding pa2page
lookup_at none = pure none
lookup_at (some p) = do
  m ← get
  if valid (load m p) then (do pp ← pa2page (load m p); pure (some (pp, p))) else pure none

-- page_lookup; `none` is NULL
unfoldable pub page_lookup : ℕ → ℕ → M Memory (Option (ℕ × Pte))
unfolding lookup_at
page_lookup pgdir va = pgdir_walk pgdir va false >>= lookup_at

unfoldable pub unmap : ℕ → ℕ → Option (ℕ × Pte) → M Memory (Unit {0})
unfolding tlb_invalidate
unmap asid va none = pure tt
unmap asid va (some (pp, p)) = do page_decref pp; modify (store p 0); tlb_invalidate asid va

-- page_remove
unfoldable pub page_remove : ℕ → ℕ → ℕ → M Memory (Unit {0})
unfolding unmap
page_remove pgdir asid va = page_lookup pgdir va >>= unmap asid va

-- The last step of `page_insert`.
unfoldable pub map_at : ℕ → ℕ → Option Pte → M Memory (Unit {0})
map_at pp perm none = stop
map_at pp perm (some p) = do
  m ← get
  modify (set_ref pp ((m.ref pp + 1) % 2 ^ 16))
  modify (store p (make_pte pp perm))

-- `page_insert` where the address does not have this page yet.
unfoldable pub insert_new : ℕ → ℕ → ℕ → ℕ → ℕ → M Memory (Unit {0})
unfolding tlb_invalidate map_at
insert_new pgdir asid pp va perm = do
  tlb_invalidate asid va
  p ← pgdir_walk pgdir va true
  map_at pp perm p

-- `page_insert` with the page that is mapped at the address so far.
unfoldable pub insert_over : ℕ → ℕ → ℕ → ℕ → ℕ → Option (ℕ × Pte) → M Memory (Unit {0})
unfolding tlb_invalidate
insert_over pgdir asid pp va perm none = insert_new pgdir asid pp va perm
insert_over pgdir asid pp va perm (some (old, p)) =
    if old == pp
    then (do tlb_invalidate asid va; modify (store p (make_pte pp perm)))
    else (do page_remove pgdir asid va; insert_new pgdir asid pp va perm)

-- page_insert
unfoldable pub page_insert : ℕ → ℕ → ℕ → ℕ → ℕ → M Memory (Unit {0})
unfolding lookup_at
page_insert pgdir asid pp va perm =
    pgdir_walk pgdir va false >>= λ p. lookup_at p >>= insert_over pgdir asid pp va perm

-- va2pa; `none` is ~0
unfoldable pub va2pa : ℕ → ℕ → M Memory (Option ℕ)
unfolding walk_table
va2pa pgdir va = do
  m ← get
  if valid (m.word pgdir (pdx va))
      then (do
        assert (ltb (ppn_of (m.word pgdir (pdx va))) m.npage)
        let e = m.word (ppn_of (m.word pgdir (pdx va))) (ptx va)
        pure (if valid e then some (ppn_of e * 4096) else none))
      else pure none
