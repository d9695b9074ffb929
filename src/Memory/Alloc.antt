-- ===== src/Memory/Alloc.antt =====
-- page_alloc, page_free and page_decref against the list of free pages.
use buaa_os_challenge.Base.{
  ℕ, ◌-◌, ◌<◌, ◌≡◌, ◌≢◌, refl, true, false, List, [], ◌∷◌, arith, has, update, lt→ltb, ◌==◌, erase,
  inl, inr, Bool-cases, if◌then◌else◌,
}
use buaa_os_challenge.Base.Errors.{no_mem}
use buaa_os_challenge.Base.Monad.{Run, ret, fail, panic, ◌>>◌}
use buaa_os_challenge.Queue.{remove, insert_head}
use buaa_os_challenge.Queue.Chain.{IsList}
use buaa_os_challenge.Queue.Laws.{remove-IsList, insert_head-IsList}
use buaa_os_challenge.Memory.{Memory, set_ref, page_alloc, page_free, page_decref}

-- The free pages, in the order of `page_free_list`.
pub record IsFree (m : Memory) (xs : List ℕ) : Type 0 where
  pub list : IsList m.free xs
  pub below : (x : ℕ) → has x xs ≡ true → x < m.npage

-- The memory after the page is taken from the list and cleared.
abbrev pub taken : ℕ → Memory → Memory
taken x m = record m { free = remove m.free x; word = update m.word x (λ _. 0) }

pub page_alloc-none : (m : Memory) → IsFree m [] → page_alloc m ≡ fail no_mem m
unfolding page_alloc
page_alloc-none m is = rw is.list.chain

pub page_alloc-some :
    (m : Memory) (x : ℕ) (xs : List ℕ) → IsFree m (x ∷ xs) → page_alloc m ≡ ret x (taken x m)
unfolding page_alloc
page_alloc-some m x xs is = rw (is.list.chain.0, lt→ltb x m.npage (is.below x (ground arith)))

pub taken-IsFree : (m : Memory) (x : ℕ) (xs : List ℕ) → IsFree m (x ∷ xs) → IsFree (taken x m) xs
taken-IsFree m x xs is = record {
  list = rw erase_head at (remove-IsList m.free (x ∷ xs) x is.list (ground arith));
  below = λ y h. is.below y (ground arith);
}
  where
    erase_head : erase x (x ∷ xs) ≡ xs
    erase_head = ground arith

-- What page_alloc returns, by the list of free pages.
abbrev pub Allocated : Memory → List ℕ → Run Memory ℕ → Type 0
Allocated m [] r = r ≡ fail no_mem m
Allocated m (x ∷ xs) r =
    (m' : Memory) × (r ≡ ret x m')
    × IsFree m' xs
    × ((i : ℕ) → m'.word x i ≡ 0)
    × ((p i : ℕ) → p ≢ x → m'.word p i ≡ m.word p i)
    × (m'.ref ≡ m.ref)

-- Given the free pages in the order of the list, page_alloc fails with E_NO_MEM and changes
-- nothing if there is none. Otherwise it returns the first one, takes it off the list, fills it
-- with zeros, and leaves the other frames and all reference counts alone.
pub page_alloc_lem : (m : Memory) (xs : List ℕ) → IsFree m xs → Allocated m xs (page_alloc m)
page_alloc_lem m [] is = page_alloc-none m is
page_alloc_lem m (x ∷ xs) is = (
  taken x m,
  page_alloc-some m x xs is,
  taken-IsFree m x xs is,
  λ i. ground arith,
  λ p i ne. ground arith,
  refl,
)

-- The memory after the page is put on the list.
abbrev pub freed : ℕ → Memory → Memory
freed x m = record m { free = insert_head m.free x }

pub page_free-ok : (m : Memory) (x : ℕ) → m.ref x ≡ 0 → page_free x m ≡ ret tt (freed x m)
unfolding page_free
page_free-ok m x h = rw h

pub freed-IsFree :
    (m : Memory) (x : ℕ) (xs : List ℕ)
    → IsFree m xs
    → x < m.npage
    → has x xs ≡ false
    → IsFree (freed x m) (x ∷ xs)
freed-IsFree m x xs is lt out = record {
  list = insert_head-IsList m.free xs x is.list out;
  below = λ y h. ground (arith, is.below y);
}

-- A page that is given back with a count of zero is the next one that page_alloc hands out, and
-- the free pages are then those from before.
pub page_free-page_alloc :
    (m : Memory) (x : ℕ) (xs : List ℕ)
    → IsFree m xs
    → x < m.npage
    → has x xs ≡ false
    → m.ref x ≡ 0
    → (m' : Memory) × ((page_free x >> page_alloc) m ≡ ret x m') × IsFree m' xs
page_free-page_alloc m x xs is lt out h =
    let is' = freed-IsFree m x xs is lt out in
    (
      taken x (freed x m),
      rw (page_free-ok m x h) (page_alloc-some (freed x m) x xs is'),
      taken-IsFree (freed x m) x xs is',
    )

-- What page_decref does, by the count of the page.
pub record Released (m : Memory) (x : ℕ) (xs : List ℕ) (m' : Memory) : Type 0 where
  pub count : m'.ref x ≡ m.ref x - 1
  pub others : (y : ℕ) → y ≢ x → m'.ref y ≡ m.ref y
  pub free : IsFree m' (if m.ref x == 1 then x ∷ xs else xs)
  pub words : m'.word ≡ m.word
  pub npage : m'.npage ≡ m.npage
  pub flushed : m'.flushed ≡ m.flushed

-- For an allocated page with a positive count, page_decref takes one off the count of this page
-- only, and puts the page on the list of free pages exactly if the count was one. No word of
-- memory changes.
pub page_decref_lem :
    (m : Memory) (x : ℕ) (xs : List ℕ)
    → IsFree m xs
    → x < m.npage
    → has x xs ≡ false
    → 0 < m.ref x
    → (m' : Memory) × (page_decref x m ≡ ret tt m') × Released m x xs m'
unfolding page_decref
page_decref_lem m x xs is lt out pos =
    let m1 = set_ref x (m.ref x - 1) m in
    elim (Bool-cases (m.ref x == 1)) [
      | inl e ↦
          let z : m.ref x - 1 ≡ 0 = ground arith in
          (
            freed x m1,
            rw (lt→ltb 0 (m.ref x) pos, z) (page_free-ok (set_ref x 0 m) x (ground arith)),
            record {
              count = ground arith;
              others = λ y ne. ground arith;
              free =
                  rw e (freed-IsFree m1 x xs (record { list = is.list; below = is.below }) lt out);
              words = refl;
              npage = refl;
              flushed = refl;
            },
          )
      | inr e ↦ (
        m1,
        rw (lt→ltb 0 (m.ref x) pos) (ground arith),
        record {
          count = ground arith;
          others = λ y ne. ground arith;
          free = rw e (record { list = is.list; below = is.below });
          words = refl;
          npage = refl;
          flushed = refl;
        },
      )
    ]

-- page_decref of a page with a count of zero is a failed assertion.
pub page_decref_zero : (m : Memory) (x : ℕ) → m.ref x ≡ 0 → page_decref x m ≡ panic
unfolding page_decref
page_decref_zero m x h = rw h
