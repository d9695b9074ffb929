-- ===== src/Memory/Mapping.antt =====
-- page_insert against what the MMU sees.
use buaa_os_challenge.Base.{
  ℕ, ◌+◌, ◌-◌, ◌%◌, ◌^◌, ◌<◌, ◌≡◌, ◌≢◌, refl, ap, ◌∙◌, sym, true, false, Option, none, some, List,
  [], ◌∷◌, arith, has, ◌==◌, inl, inr, ◌⊎◌,
}
use buaa_os_challenge.Base.Errors.{no_mem}
use buaa_os_challenge.Base.Monad.{Run, ret, fail, panic, and_then}
use buaa_os_challenge.Memory.{
  Memory, pte, store, set_ref, pgdir_walk, lookup_at, page_lookup, insert_new, insert_over,
  page_insert,
}
use buaa_os_challenge.Memory.Entry.{
  valid, ppn_of, pdx, ptx, make_pte, valid-make_pte, ppn_of-make_pde,
}
use buaa_os_challenge.Memory.Alloc.{IsFree}
use buaa_os_challenge.Memory.Walk.{
  dir_entry, slot, flush, walk-found, walk-no_mem, walk-created, tabled,
}
use buaa_os_challenge.Memory.Space.{
  utop, look, IsTable, IsSpace, look-write_self, look-write_ne, look-created_self, look-created_ne,
}
use native.Mathlib.Decide.{ℕ_discrete}
use buaa_os_challenge.Base.{some_inj}
use buaa_os_challenge.Memory.Words.{write_row}
use buaa_os_challenge.Memory.Insert.{
  View, untabled, unmapped, view, IsCounted, OthersKept, Unmapped, page_lookup-none,
  page_lookup-some, page_remove-some, seen_valid, alone, table_bound, table_other,
}

-- The address has a page table, of its own.
record IsTabled (m : Memory) (g va : ℕ) : Type 0 where
  there : valid (dir_entry m g va) ≡ true
  below : ppn_of (dir_entry m g va) < m.npage
  other : ppn_of (dir_entry m g va) ≢ g
  alone : (d : ℕ) → IsTable m.word g d (ppn_of (dir_entry m g va)) → d ≡ pdx va

module _ (m : Memory) (g va asid pp perm : ℕ) where
  -- the memory after `insert_new` at an address that has a table
  abbrev placed : Memory
  placed =
      store (slot m g va) (make_pte pp perm)
        (set_ref pp ((m.ref pp + 1) % 2 ^ 16) (flush asid va m))

  insert_new-found : IsTabled m g va → insert_new g asid pp va perm m ≡ ret tt placed
  unfolding insert_new
  insert_new-found t = rw (walk-found (flush asid va m) g va true t.there t.below)

  placed-seen : pp < 2 ^ 20 → IsTabled m g va → look placed.word g va ≡ some (make_pte pp perm)
  placed-seen lt t =
      look-write_self m.word g va (make_pte pp perm) t.there t.other
      ∙ rw (valid-make_pte pp perm lt)

  placed-others : va < utop → IsTabled m g va → OthersKept m placed g va
  placed-others h t va' h' far =
      look-write_ne m.word g va (make_pte pp perm) t.there t.other va' h h' far t.alone

  insert_new-no_mem :
      valid (dir_entry m g va) ≡ false
      → IsFree m []
      → insert_new g asid pp va perm m ≡ fail no_mem (flush asid va m)
  unfolding insert_new
  insert_new-no_mem v is =
      rw (walk-no_mem (flush asid va m) g va v (record { list = is.list; below = is.below }))

  -- the memory after page_insert took page `x` for a table
  abbrev tabled_map : ℕ → Memory
  tabled_map x =
      let t = tabled (flush asid va m) g va x in
      store (pte x (ptx va)) (make_pte pp perm) (set_ref pp ((t.ref pp + 1) % 2 ^ 16) t)

  insert_new-created :
      (x : ℕ) (ys : List ℕ)
      → valid (dir_entry m g va) ≡ false
      → IsFree m (x ∷ ys)
      → x < 2 ^ 20
      → insert_new g asid pp va perm m ≡ ret tt (tabled_map x)
  unfolding insert_new
  insert_new-created x ys v is lt = rw (
      walk-created (flush asid va m) g va x ys v (record { list = is.list; below = is.below })
        (ppn_of-make_pde x lt))

-- What a successful page_insert leaves.
pub record Inserted (m : Memory) (g va pp perm : ℕ) (m' : Memory) : Type 0 where
  pub seen : look m'.word g va ≡ some (make_pte pp perm)
  pub others : OthersKept m m' g va
  pub kept : (e : ℕ) → look m.word g va ≡ some e → ppn_of e ≡ pp → m'.ref pp ≡ m.ref pp
  pub counted :
      ((e : ℕ) → look m.word g va ≡ some e → ppn_of e ≢ pp) → m'.ref pp ≡ (m.ref pp + 1) % 2 ^ 16
  pub replaced :
      (e : ℕ) → look m.word g va ≡ some e → ppn_of e ≢ pp → m'.ref (ppn_of e) ≡ m.ref (ppn_of e) - 1

module _ (m : Memory) (g va : ℕ) (xs : List ℕ) (sp : IsSpace m g xs) (h : va < utop)
    (asid pp perm : ℕ) (lt : pp < m.npage) (used : has pp xs ≡ false) where
  small : pp < 2 ^ 20
  small = omega (arith, sp.small)

  here : valid (dir_entry m g va) ≡ true → IsTabled m g va
  here v = record {
    there = v;
    below = table_bound m g va xs sp h v;
    other = table_other m g va xs sp h v;
    alone = λ d t. alone m g va xs sp h d v t;
  }

  abbrev Result : Run Memory (Unit {0}) → Type 0
  Result r =
      ((m' : Memory) × (r ≡ ret tt m') × Inserted m g va pp perm m')
      ⊎ ((r ≡ fail no_mem (flush asid va m)) × (xs ≡ []) × (look m.word g va ≡ none))

  -- nothing was mapped, and the table is there
  insert_unmapped :
      valid (dir_entry m g va) ≡ true
      → look m.word g va ≡ none
      → Result (insert_new g asid pp va perm m)
  insert_unmapped v e = inl (
    placed m g va asid pp perm,
    insert_new-found m g va asid pp perm (here v),
    record {
      seen = placed-seen m g va asid pp perm small (here v);
      others = placed-others m g va asid pp perm h (here v);
      kept = λ e' q. cc;
      counted = λ _. ground arith;
      replaced = λ e' q. cc;
    },
  )

  -- nothing was mapped, and the table is missing
  insert_untabled :
      (ys : List ℕ)
      → xs ≡ ys
      → IsFree m ys
      → valid (dir_entry m g va) ≡ false
      → look m.word g va ≡ none
      → Result (insert_new g asid pp va perm m)
  insert_untabled [] q is v e = inr (insert_new-no_mem m g va asid pp perm v is, q, e)
  insert_untabled (x ∷ ys) q is v e =
      let fit : x < 2 ^ 20 = omega (arith, is.below x (ground arith), sp.small) in
      let free : has x xs ≡ true = rw q (ground arith) in
      let ne : x ≢ g = λ i. ground (arith, sp.dir_used) in
      let differ : pp ≢ x = λ i. ground arith in
      inl (
        tabled_map m g va asid pp perm x,
        insert_new-created m g va asid pp perm x ys v is fit,
        record {
          seen =
              look-created_self m.word g va x (make_pte pp perm) fit ne
              ∙ rw (valid-make_pte pp perm small);
          others = λ va' h' far.
              look-created_ne m.word g va x (make_pte pp perm) fit ne va' h h' far v
                (λ d t i. (sp.table_ne d t i, λ j. ground (arith, sp.table_used d t i)));
          kept = λ e' q. cc;
          counted = λ _. ground arith;
          replaced = λ e' q. cc;
        },
      )

  -- the page was mapped already
  insert_same :
      (e : ℕ)
      → look m.word g va ≡ some e
      → valid (dir_entry m g va) ≡ true
      → ppn_of e ≡ pp
      → Result (insert_over g asid pp va perm (some (ppn_of e, slot m g va)) m)
  unfolding insert_over
  insert_same e q v same = inl (
    store (slot m g va) (make_pte pp perm) (flush asid va m),
    ground arith,
    record {
      seen =
          look-write_self m.word g va (make_pte pp perm) v (table_other m g va xs sp h v)
          ∙ rw (valid-make_pte pp perm small);
      others = placed-others m g va asid pp perm h (here v);
      kept = λ _ _ _. refl;
      counted = λ no. absurd (no e q same);
      replaced = λ e' q' ne. absurd (ne (ap ppn_of (some_inj (sym q' ∙ q)) ∙ same));
    },
  )

  -- another page was mapped
  insert_replaced :
      (e : ℕ)
      → look m.word g va ≡ some e
      → IsCounted m xs (ppn_of e)
      → ppn_of e ≢ pp
      → Result (insert_over g asid pp va perm (some (ppn_of e, slot m g va)) m)
  unfolding insert_over
  insert_replaced e q c ne =
      let (m1, run, un) = page_remove-some m g va xs sp h asid e q c in
      let (v, _) = seen_valid m g va xs sp h e q in
      let t : IsTabled m1 g va = after_removal m1 e v un in
      let no : (ppn_of e == pp) ≡ false = ground arith in
      inl (
        placed m1 g va asid pp perm,
        rw (no, run) (insert_new-found m1 g va asid pp perm t),
        record {
          seen = placed-seen m1 g va asid pp perm small t;
          others = λ va' h' far.
              placed-others m1 g va asid pp perm h t va' h' far ∙ un.others va' h' far;
          kept = λ e' q' same. absurd (ne (ap ppn_of (some_inj (sym q ∙ q')) ∙ same));
          counted = λ _. ground (arith, un.counts pp);
          replaced =
              λ e' q' ne'. let s : e' ≡ e = some_inj (sym q' ∙ q) in ground (arith, un.count);
        },
      )
    where
      after_removal :
          (m1 : Memory) (e : ℕ)
          → valid (dir_entry m g va) ≡ true
          → Unmapped m g va xs sp h asid e m1
          → IsTabled m1 g va
      after_removal m1 e v un =
          let old = here v in
          let row : (d : ℕ) → m1.word g d ≡ m.word g d = λ d.
            ap (λ (w : ℕ → ℕ → ℕ). w g d) un.words
            ∙ write_row m.word (ppn_of (dir_entry m g va)) (ptx va) 0 g d
                (λ i. old.other (sym i)) in
          record {
            there = ap valid (row (pdx va)) ∙ v;
            below = rw (row (pdx va), un.npage) old.below;
            other = rw (row (pdx va)) old.other;
            alone = λ d k. old.alone d (
              k.0,
              ap valid (sym (row d)) ∙ k.1,
              ap ppn_of (sym (row d)) ∙ k.2 ∙ ap ppn_of (row (pdx va)),
            );
          }

  assoc :
      {A B C : Type 0} (r : Run Memory A) (f : A → Memory → Run Memory B)
      (k : B → Memory → Run Memory C)
      → and_then r (λ a s. and_then (f a s) k) ≡ and_then (and_then r f) k
  assoc (ret a s) f k = refl
  assoc (fail e s) f k = refl
  assoc panic f k = refl

  page_insert_eq :
      page_insert g asid pp va perm m
      ≡ and_then (page_lookup g va m) (insert_over g asid pp va perm)
  unfolding page_insert page_lookup
  page_insert_eq = assoc (pgdir_walk g va false m) lookup_at (insert_over g asid pp va perm)

  by_cases :
      (o : Option ℕ)
      → View m g va o
      → look m.word g va ≡ o
      → ((e : ℕ) → o ≡ some e → IsCounted m xs (ppn_of e))
      → Result (page_insert g asid pp va perm m)
  by_cases none (untabled n) q c =
      rw (page_insert_eq, page_lookup-none m g va xs sp h q)
        (unfold insert_over in insert_untabled xs refl sp.free n q)
  by_cases none (unmapped y n) q c =
      rw (page_insert_eq, page_lookup-none m g va xs sp h q)
        (unfold insert_over in insert_unmapped y q)
  by_cases (some e) v q c =
      let k = c e refl in
      rw (page_insert_eq, page_lookup-some m g va xs sp h e q k.below)
        (elim (ℕ_discrete (ppn_of e) pp) [
          | yes same ↦ insert_same e q (seen_valid m g va xs sp h e q).0 same
          | no other ↦ insert_replaced e q k other
        ])

  -- In a well-formed space, page_insert of a page in use at an address whose page, if there is
  -- one, is counted, ends in one of two ways. It returns 0; then the MMU sees the entry of the
  -- page with the permission at the address, and at all other pages of user space what it saw; the
  -- count of the page is kept if the address had this page and goes up by one (modulo 2 ^ 16)
  -- otherwise; and a page that is replaced loses one count. Or it returns E_NO_MEM; then no page
  -- was free, nothing was mapped at the address, and only the TLB was flushed.
  pub page_insert_lem :
      ((e : ℕ) → look m.word g va ≡ some e → IsCounted m xs (ppn_of e))
      → ((m' : Memory) × (page_insert g asid pp va perm m ≡ ret tt m') × Inserted m g va pp perm m')
        ⊎ ((page_insert g asid pp va perm m ≡ fail no_mem (flush asid va m))
            × (xs ≡ [])
            × (look m.word g va ≡ none))
  page_insert_lem c = by_cases (look m.word g va) (view m g va) refl c
