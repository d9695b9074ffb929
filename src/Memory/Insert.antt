-- ===== src/Memory/Insert.antt =====
-- page_lookup, page_remove and page_insert against what the MMU sees.
use buaa_os_challenge.Base.{
  ℕ, ◌-◌, ◌/◌, ◌<◌, ◌≡◌, ◌≢◌, refl, ap, ◌∙◌, true, false, Option, none, some, List, ◌∷◌, has, ◌==◌,
  if◌then◌else◌, Bool-cases, inl, inr,
}
use buaa_os_challenge.Base.Monad.{ret, and_then}
use buaa_os_challenge.Memory.{
  Memory, load, store, pgdir_walk, lookup_at, page_lookup, unmap, page_decref, page_remove, write,
}
use buaa_os_challenge.Memory.Entry.{valid, ppn_of, pdx, ptx, entry_hi, valid-zero}
use buaa_os_challenge.Memory.Alloc.{IsFree, page_decref_lem}
use buaa_os_challenge.Memory.Walk.{
  dir_entry, slot, flush, walk-found, walk-missing, lookup-none, lookup-invalid, lookup-found,
}
use buaa_os_challenge.Memory.Space.{
  utop, look, IsTable, IsSpace, pdx-lt, look-write_self, look-write_ne,
}

-- The three things that an address can be: without a table, without a page, or with one.
pub data View (m : Memory) (g va : ℕ) : Option ℕ → Type 0 where
  untabled : valid (dir_entry m g va) ≡ false → View m g va none
  unmapped :
      valid (dir_entry m g va) ≡ true → valid (load m (slot m g va)) ≡ false → View m g va none
  mapped :
      valid (dir_entry m g va) ≡ true
      → valid (load m (slot m g va)) ≡ true
      → View m g va (some (load m (slot m g va)))

pub view : (m : Memory) (g va : ℕ) → View m g va (look m.word g va)
view m g va = elim (Bool-cases (valid (dir_entry m g va))) [
  | inr n ↦ rw n (untabled n)
  | inl y ↦ elim (Bool-cases (valid (load m (slot m g va)))) [
    | inr n ↦ rw (y, n) (unmapped y n)
    | inl z ↦ rw (y, z) (mapped y z)
  ]
]

-- The page that an entry maps is in range, in use and counted.
pub record IsCounted (m : Memory) (xs : List ℕ) (p : ℕ) : Type 0 where
  pub below : p < m.npage
  pub used : has p xs ≡ false
  pub counted : 0 < m.ref p

-- Other addresses of user space than those of the page of `va` are seen as before.
abbrev pub OthersKept : Memory → Memory → ℕ → ℕ → Type 0
OthersKept m m' g va =
    (va' : ℕ) → va' < utop → va' / 4096 ≢ va / 4096 → look m'.word g va' ≡ look m.word g va'

module _ (m : Memory) (g va : ℕ) (xs : List ℕ) (sp : IsSpace m g xs) (h : va < utop) where
  pub table_bound : valid (dir_entry m g va) ≡ true → ppn_of (dir_entry m g va) < m.npage
  table_bound v = sp.table_in (pdx va) (ppn_of (dir_entry m g va)) (pdx-lt va h, v, refl)

  pub table_other : valid (dir_entry m g va) ≡ true → ppn_of (dir_entry m g va) ≢ g
  table_other v = sp.table_ne (pdx va) (ppn_of (dir_entry m g va)) (pdx-lt va h, v, refl)

  -- page_lookup finds nothing where the MMU sees no entry.
  pub page_lookup-none : look m.word g va ≡ none → page_lookup g va m ≡ ret none m
  unfolding page_lookup
  page_lookup-none e = elim_view (look m.word g va) (view m g va) e
    where
      elim_view :
          (o : Option ℕ)
          → View m g va o
          → o ≡ none
          → and_then (pgdir_walk g va false m) lookup_at ≡ ret none m
      elim_view none (untabled n) e = rw (walk-missing m g va n) (lookup-none m)
      elim_view none (unmapped y n) e =
          rw (walk-found m g va false y (table_bound y)) (lookup-invalid m (slot m g va) n)
      elim_view (some _) (mapped y z) e = cc

  -- page_lookup finds the page of the entry that the MMU sees.
  pub page_lookup-some :
      (e : ℕ)
      → look m.word g va ≡ some e
      → ppn_of e < m.npage
      → page_lookup g va m ≡ ret (some (ppn_of e, slot m g va)) m
  unfolding page_lookup
  page_lookup-some e q lt = elim_view (look m.word g va) (view m g va) q
    where
      elim_view :
          (o : Option ℕ)
          → View m g va o
          → o ≡ some e
          → and_then (pgdir_walk g va false m) lookup_at ≡ ret (some (ppn_of e, slot m g va)) m
      elim_view none v q = cc
      elim_view (some _) (mapped y z) q =
          let s : load m (slot m g va) ≡ e = cc in
          rw (walk-found m g va false y (table_bound y))
            (rw (lookup-found m (slot m g va) z (rw s lt)) (rw s))

  -- the directory entry is valid where the MMU sees an entry
  pub seen_valid :
      (e : ℕ)
      → look m.word g va ≡ some e
      → (valid (dir_entry m g va) ≡ true) × (load m (slot m g va) ≡ e)
  seen_valid e q = elim_view (look m.word g va) (view m g va) q
    where
      elim_view :
          (o : Option ℕ)
          → View m g va o
          → o ≡ some e
          → (valid (dir_entry m g va) ≡ true) × (load m (slot m g va) ≡ e)
      elim_view none v q = cc
      elim_view (some _) (mapped y z) q = (y, cc)

  pub alone :
      (d : ℕ)
      → valid (dir_entry m g va) ≡ true
      → IsTable m.word g d (ppn_of (dir_entry m g va))
      → d ≡ pdx va
  alone d v t = sp.apart d (pdx va) (ppn_of (dir_entry m g va)) t (pdx-lt va h, v, refl)

  -- page_remove where nothing is mapped changes nothing.
  pub page_remove-none : (asid : ℕ) → look m.word g va ≡ none → page_remove g asid va m ≡ ret tt m
  unfolding page_remove
  page_remove-none asid e = rw (page_lookup-none e) (unmap_none asid)
    where
      unmap_none : (asid : ℕ) → unmap asid va none m ≡ ret tt m
      unmap_none asid = unfold unmap in refl

  page_remove-run :
      (asid e : ℕ) (m1 : Memory)
      → look m.word g va ≡ some e
      → ppn_of e < m.npage
      → page_decref (ppn_of e) m ≡ ret tt m1
      → page_remove g asid va m ≡ ret tt (flush asid va (store (slot m g va) 0 m1))
  unfolding page_remove
  page_remove-run asid e m1 q lt d = rw (page_lookup-some e q lt) (rw d)

  -- What a successful page_remove leaves, where `e` was mapped.
  pub record Unmapped (asid e : ℕ) (m' : Memory) : Type 0 where
    pub gone : look m'.word g va ≡ none
    pub others : OthersKept m m' g va
    pub count : m'.ref (ppn_of e) ≡ m.ref (ppn_of e) - 1
    pub counts : (y : ℕ) → y ≢ ppn_of e → m'.ref y ≡ m.ref y
    pub free : IsFree m' (if m.ref (ppn_of e) == 1 then ppn_of e ∷ xs else xs)
    pub flushed : m'.flushed ≡ entry_hi asid va ∷ m.flushed
    pub words : m'.word ≡ write m.word (ppn_of (dir_entry m g va)) (ptx va) 0
    pub npage : m'.npage ≡ m.npage

  -- In a well-formed space, page_remove of an address that is mapped to a counted page succeeds.
  -- Then the MMU sees no entry there, and sees at all other pages of user space what it saw. The
  -- page loses one count, no other page does, and it is put on the list of free pages exactly if
  -- the count was one. The TLB entry of the address is invalidated.
  pub page_remove-some :
      (asid e : ℕ)
      → look m.word g va ≡ some e
      → IsCounted m xs (ppn_of e)
      → (m' : Memory) × (page_remove g asid va m ≡ ret tt m') × Unmapped asid e m'
  page_remove-some asid e q c =
      let (m1, d, r) = page_decref_lem m (ppn_of e) xs sp.free c.below c.used c.counted in
      let (v, s) = seen_valid e q in
      let words : (store (slot m g va) 0 m1).word
          ≡ write m.word (ppn_of (dir_entry m g va)) (ptx va) 0 =
        ap (λ w. write w (ppn_of (dir_entry m g va)) (ptx va) 0) r.words in
      (
        flush asid va (store (slot m g va) 0 m1),
        page_remove-run asid e m1 q c.below d,
        record {
          gone =
              ap (λ (w : ℕ → ℕ → ℕ). look w g va) words
              ∙ look-write_self m.word g va 0 v (table_other v)
              ∙ rw valid-zero;
          others = λ va' h' far.
              ap (λ (w : ℕ → ℕ → ℕ). look w g va') words
              ∙ look-write_ne m.word g va 0 v (table_other v) va' h h' far (λ d t. alone d v t);
          count = r.count;
          counts = r.others;
          free = record { list = r.free.list; below = r.free.below };
          flushed = ap (λ f. entry_hi asid va ∷ f) r.flushed;
          words = words;
          npage = r.npage;
        },
      )
