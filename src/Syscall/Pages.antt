-- ===== src/Syscall/Pages.antt =====
-- sys_mem_alloc, sys_mem_map and sys_mem_unmap against what the MMU sees.
use buaa_os_challenge.Base.{
  ℕ, ◌<◌, ◌≡◌, ◌≢◌, ◌⊎◌, inl, inr, refl, sym, ap, ◌∙◌, true, false, ◌||◌, Option, none, some, List,
  [], ◌∷◌, arith, has, Bool-cases, bit_or, ◌%◌, ◌^◌,
}
use buaa_os_challenge.Base.Errors.{no_mem}
use buaa_os_challenge.Base.Monad.{Run, ret, fail}
use buaa_os_challenge.Memory.{Memory}
use buaa_os_challenge.Memory.Entry.{
  valid, ppn_of, pdx, make_pte, pte_v, pte_c_cacheable, ppn_of-make_pte_low, make_pte-flags,
}
use buaa_os_challenge.Memory.Alloc.{taken, page_alloc-none, page_alloc-some, taken-IsFree}
use buaa_os_challenge.Memory.Walk.{flush}
use buaa_os_challenge.Memory.Space.{utop, look, IsTable, IsSpace, pdx-lt}
use buaa_os_challenge.Memory.Insert.{
  IsCounted, OthersKept, page_lookup-some, page_remove-none, page_remove-some,
}
use buaa_os_challenge.Memory.Mapping.{page_insert_lem}
use buaa_os_challenge.Env.State.{Kernel, env_of}
use buaa_os_challenge.Syscall.{find_env, sys_mem_alloc, sys_mem_map, sys_mem_unmap}
use buaa_os_challenge.Syscall.Range.{is_illegal_va}

-- Taking a free page changes neither the tables of a space nor what the MMU sees in it.
module _ (m : Memory) (g x : ℕ) (xs : List ℕ) (sp : IsSpace m g (x ∷ xs)) where
  dir_ne : g ≢ x
  dir_ne e = ground (arith, sp.dir_used)

  dir_row : (taken x m).word g ≡ m.word g
  dir_row = ground (arith, dir_ne)

  dir_word : (d : ℕ) → (taken x m).word g d ≡ m.word g d
  dir_word d = ap (λ (f : ℕ → ℕ). f d) dir_row

  IsTable-taken : (d t : ℕ) → IsTable (taken x m).word g d t → IsTable m.word g d t
  IsTable-taken d t (lt, v, e) =
      (lt, ap valid (sym (dir_word d)) ∙ v, ap ppn_of (sym (dir_word d)) ∙ e)

  pub taken-IsSpace : IsSpace (taken x m) g xs
  taken-IsSpace = record {
    free = taken-IsFree m x xs sp.free;
    small = sp.small;
    dir_in = sp.dir_in;
    dir_used = ground (arith, sp.dir_used);
    table_in = λ d t h. sp.table_in d t (IsTable-taken d t h);
    table_ne = λ d t h. sp.table_ne d t (IsTable-taken d t h);
    table_used = λ d t h. ground (arith, sp.table_used d t (IsTable-taken d t h));
    apart = λ d d' t h h'. sp.apart d d' t (IsTable-taken d t h) (IsTable-taken d' t h');
  }

  pub look-taken : (va : ℕ) → va < utop → look (taken x m).word g va ≡ look m.word g va
  look-taken va h = elim (Bool-cases (valid (m.word g (pdx va)))) [
    | inr n ↦ rw (dir_word (pdx va), n)
    | inl v ↦
        let t = ppn_of (m.word g (pdx va)) in
        let other : t ≢ x = λ e. ground (arith, sp.table_used (pdx va) t (pdx-lt va h, v, refl)) in
        let row : (taken x m).word t ≡ m.word t = ground arith in rw (dir_word (pdx va), v, row)
  ]

-- An address that the kernel accepts lies in user space.
legal-lt : (va : ℕ) → is_illegal_va va ≡ false → va < utop
legal-lt va h = ground arith

-- The page that is mapped at the address, if there is one, is counted.
abbrev pub PageCounted : Memory → ℕ → ℕ → List ℕ → Type 0
PageCounted m g va xs = (e : ℕ) → look m.word g va ≡ some e → IsCounted m xs (ppn_of e)

-- The MMU sees at the address an entry that points to the page and has the permission, with
-- PTE_C_CACHEABLE and PTE_V, and at other pages of user space what it saw before; of the kernel, only
-- the memory changed.
pub record Mapped (k : Kernel) (g va pp perm : ℕ) (k' : Kernel) : Type 0 where
  pub seen : look k'.mem.word g va ≡ some (make_pte pp perm)
  pub page : ppn_of (make_pte pp perm) ≡ pp
  pub permission : make_pte pp perm % 4096 ≡ bit_or (bit_or perm pte_c_cacheable) pte_v
  pub others : OthersKept k.mem k'.mem g va
  pub rest : k' ≡ record k { mem = k'.mem }

-- The MMU sees in the space what it saw before; of the kernel, only the memory changed.
pub record Unseen (k : Kernel) (g : ℕ) (k' : Kernel) : Type 0 where
  pub same : (va : ℕ) → va < utop → look k'.mem.word g va ≡ look k.mem.word g va
  pub rest : k' ≡ record k { mem = k'.mem }

-- the two outcomes of sys_mem_alloc
abbrev pub AllocResult : Kernel → ℕ → ℕ → ℕ → List ℕ → Run Kernel (Unit {0}) → Type 0
AllocResult k g va perm xs r =
    ((pp : ℕ) × (k' : Kernel) × (r ≡ ret tt k') × (has pp xs ≡ true) × Mapped k g va pp perm k')
    ⊎ ((k' : Kernel) × (r ≡ fail no_mem k')
        × ((xs ≡ []) ⊎ ((x : ℕ) × (xs ≡ x ∷ [])))
        × Unseen k g k')

module _ (k : Kernel) (envid e va perm : ℕ) (find : find_env envid true k ≡ ret e k)
    (legal : is_illegal_va va ≡ false) where
  abbrev dir : ℕ
  dir = (env_of k e).pgdir

  alloc_cases :
      (xs : List ℕ)
      → perm < 4096
      → IsSpace k.mem dir xs
      → PageCounted k.mem dir va xs
      → AllocResult k dir va perm xs (sys_mem_alloc envid va perm k)
  unfolding sys_mem_alloc
  alloc_cases [] low sp c = inr (
    k,
    rw (legal, find, page_alloc-none k.mem sp.free),
    inl refl,
    record { same = λ a h. refl; rest = refl },
  )
  alloc_cases (x ∷ xs) low sp c =
      let m1 = taken x k.mem in
      let in_range : x < 2 ^ 20 = omega (arith, sp.free.below x (ground arith), sp.small) in
      let h = legal-lt va legal in
      let sp1 = taken-IsSpace k.mem dir x xs sp in
      let counted : PageCounted m1 dir va xs = λ y q.
        let old = c y (sym (look-taken k.mem dir x xs sp va h) ∙ q) in
        record { below = old.below; used = ground (arith, old.used); counted = old.counted } in
      elim (page_insert_lem m1 dir va xs sp1 h (env_of k e).asid x perm
        (sp.free.below x (ground arith)) sp.free.list.distinct.0 counted) [
          | inl (m2, run, ins) ↦ inl (
            x,
            record k { mem = m2 },
            rw (legal, find, page_alloc-some k.mem x xs sp.free, run),
            ground arith,
            record {
              seen = ins.seen;
              page = ppn_of-make_pte_low x perm in_range low;
              permission = make_pte-flags x perm in_range low;
              others = λ a lt far. ins.others a lt far ∙ look-taken k.mem dir x xs sp a lt;
              rest = refl;
            },
          )
          | inr (run, q, _) ↦ inr (
            record k { mem = flush (env_of k e).asid va m1 },
            rw (legal, find, page_alloc-some k.mem x xs sp.free, run),
            inr (x, ap (λ (l : List ℕ). x ∷ l) q),
            record { same = λ a lt. look-taken k.mem dir x xs sp a lt; rest = refl },
          )
        ]

  -- For a legal address of an environment that the caller may change, whose space is well-formed
  -- and whose page at the address, if there is one, is counted, and a permission below 2 ^ 12:
  -- sys_mem_alloc either maps a page that was free at the address, by an entry that points to it
  -- and has the permission with PTE_C_CACHEABLE and PTE_V in its low twelve bits, and the other
  -- pages of user space are seen as before; or it fails with E_NO_MEM, at most one page was free, and the space is seen as
  -- before.
  pub sys_mem_alloc_lem :
      (xs : List ℕ)
      → perm < 4096
      → IsSpace k.mem dir xs
      → PageCounted k.mem dir va xs
      → AllocResult k dir va perm xs (sys_mem_alloc envid va perm k)
  sys_mem_alloc_lem xs low sp c = alloc_cases xs low sp c

  -- For such an address, sys_mem_unmap succeeds; then the MMU sees no page there, and sees the
  -- other pages of user space as before.
  pub sys_mem_unmap_lem :
      (xs : List ℕ)
      → IsSpace k.mem dir xs
      → PageCounted k.mem dir va xs
      → (k' : Kernel) × (sys_mem_unmap envid va k ≡ ret tt k')
        × (look k'.mem.word dir va ≡ none)
        × OthersKept k.mem k'.mem dir va
  unfolding sys_mem_unmap
  sys_mem_unmap_lem xs sp c = by_look (look k.mem.word dir va) refl
    where
      by_look :
          (o : Option ℕ)
          → look k.mem.word dir va ≡ o
          → (k' : Kernel) × (sys_mem_unmap envid va k ≡ ret tt k')
            × (look k'.mem.word dir va ≡ none)
            × OthersKept k.mem k'.mem dir va
      by_look none q =
          let run = page_remove-none k.mem dir va xs sp (legal-lt va legal) (env_of k e).asid q in
          (k, rw (legal, find, run), q, λ a lt far. refl)
      by_look (some y) q =
          let (m', run, un) =
            page_remove-some k.mem dir va xs sp (legal-lt va legal) (env_of k e).asid y q (c y q) in
          (record k { mem = m' }, rw (legal, find, run), un.gone, un.others)

-- For two legal addresses of environments that the caller may change, where both spaces are
-- well-formed, the MMU sees an entry for a counted page in use at the source address, and the page
-- at the target, if there is one, is counted, and for a permission below 2 ^ 12: sys_mem_map
-- either maps this page at the target, by an entry that points to it and has the permission with
-- PTE_C_CACHEABLE and PTE_V in its low twelve bits, and the other pages of the target's user space
-- are seen as before; or it fails with E_NO_MEM, no page was free, and nothing was
-- mapped at the target.
pub sys_mem_map_lem :
    (k : Kernel) (srcid srcva dstid dstva perm src dst y : ℕ) (xs : List ℕ)
    → (is_illegal_va srcva || is_illegal_va dstva) ≡ false
    → find_env srcid true k ≡ ret src k
    → find_env dstid true k ≡ ret dst k
    → perm < 4096
    → IsSpace k.mem (env_of k src).pgdir xs
    → IsSpace k.mem (env_of k dst).pgdir xs
    → look k.mem.word (env_of k src).pgdir srcva ≡ some y
    → IsCounted k.mem xs (ppn_of y)
    → PageCounted k.mem (env_of k dst).pgdir dstva xs
    → ((k' : Kernel) × (sys_mem_map srcid srcva dstid dstva perm k ≡ ret tt k')
        × Mapped k (env_of k dst).pgdir dstva (ppn_of y) perm k')
      ⊎ ((k' : Kernel) × (sys_mem_map srcid srcva dstid dstva perm k ≡ fail no_mem k')
          × (xs ≡ [])
          × (look k.mem.word (env_of k dst).pgdir dstva ≡ none))
unfolding sys_mem_map
sys_mem_map_lem k srcid srcva dstid dstva perm src dst y xs legal fs fd low sps spd q c cd =
    let in_range : ppn_of y < 2 ^ 20 = omega (arith, c.below, sps.small) in
    let hs : srcva < utop = legal-lt srcva (ground arith) in
    let hd : dstva < utop = legal-lt dstva (ground arith) in
    let found = page_lookup-some k.mem (env_of k src).pgdir srcva xs sps hs y q c.below in
    elim (page_insert_lem k.mem (env_of k dst).pgdir dstva xs spd hd (env_of k dst).asid (ppn_of y)
      perm c.below c.used cd) [
        | inl (m', run, ins) ↦ inl (
          record k { mem = m' },
          rw (legal, fs, fd, found, run),
          record {
            seen = ins.seen;
            page = ppn_of-make_pte_low (ppn_of y) perm in_range low;
            permission = make_pte-flags (ppn_of y) perm in_range low;
            others = ins.others;
            rest = refl;
          },
        )
        | inr (run, none_left, gap) ↦ inr (
          record k { mem = flush (env_of k dst).asid dstva k.mem },
          rw (legal, fs, fd, found, run),
          none_left,
          gap,
        )
      ]
