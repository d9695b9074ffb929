-- ===== src/Memory/Examples.antt =====
-- A small address space: page 0 is a directory whose entry 1 points to the table in page 1, and
-- word 2 of the table maps page 2. Pages 4 and 3 are free.
use buaa_os_challenge.Base.{
  ℕ, ◌≡◌, ◌⊎◌, ◌*◌, ◌∙◌, sym, refl, some, none, List, [], ◌∷◌, arith, update, inl, inr, ◌==◌, ◌+◌,
  ◌^◌, Bool-cases,
}
use buaa_os_challenge.Base.Errors.{no_mem}
use buaa_os_challenge.Base.Monad.{ret, fail}
use buaa_os_challenge.Queue.{next_of, Links, list_init, insert_head}
use buaa_os_challenge.Queue.Laws.{list_init-IsList, insert_head-IsList}
use buaa_os_challenge.Memory.{Memory, page_decref, page_remove, page_insert}
use buaa_os_challenge.Memory.Entry.{valid, ppn_of, make_pte, make_pde, valid-zero, ppn_of-make_pde}
use buaa_os_challenge.Memory.Alloc.{IsFree, Released, page_decref_lem}
use buaa_os_challenge.Memory.Boot.{page_init, Ready, page_init-Ready}
use buaa_os_challenge.Memory.Walk.{flush}
use buaa_os_challenge.Memory.Space.{look, IsTable, IsSpace}
use buaa_os_challenge.Memory.Insert.{IsCounted, Unmapped, page_remove-some}
use buaa_os_challenge.Memory.Mapping.{Inserted, page_insert_lem}

abbrev garbage : Links
garbage = record { first = some 9; next = λ _. some 9; prev = λ _. next_of 9 }

abbrev pub space : Memory
space = record {
  npage = 5;
  ref = update (update (update (λ _. 0) 0 1) 1 1) 2 1;
  word =
      update (update (λ _ _. 0) 0 (update (λ _. 0) 1 (make_pde 1))) 1
        (update (λ _. 0) 2 (make_pte 2 0));
  free = insert_head (insert_head (list_init garbage) 3) 4;
  flushed = [];
}

abbrev pub free_pages : List ℕ
free_pages = 4 ∷ 3 ∷ []

space-IsFree : IsFree space free_pages
space-IsFree = record {
  list =
      insert_head-IsList (insert_head (list_init garbage) 3) (3 ∷ []) 4
        (insert_head-IsList (list_init garbage) [] 3 (list_init-IsList garbage) refl) refl;
  below = λ x h. ground arith;
}

-- its only table
only_table : (d t : ℕ) → IsTable space.word 0 d t → (d ≡ 1) × (t ≡ 1)
only_table d t (lt, v, e) = elim (Bool-cases (d == 1)) [
  | inl y ↦ let i : d ≡ 1 = ground arith in (i, ground (arith, ppn_of-make_pde 1 (omega arith)))
  | inr n ↦ absurd (ground (arith, valid-zero))
]

pub space-IsSpace : IsSpace space 0 free_pages
space-IsSpace = record {
  free = space-IsFree;
  small = omega arith;
  dir_in = omega arith;
  dir_used = refl;
  table_in = λ d t h. omega (arith, (only_table d t h).1);
  table_ne = λ d t h. let e = (only_table d t h).1 in λ i. omega arith;
  table_used = λ d t h. let e = (only_table d t h).1 in ground arith;
  apart = λ d d' t h h'. omega (arith, (only_table d t h).0, (only_table d' t h').0);
}

abbrev pub address : ℕ
address = 2 ^ 22 + 2 * 4096

pub mapped_there : look space.word 0 address ≡ some (make_pte 2 0)
unfolding valid make_pte make_pde
mapped_there = refl

pub nothing_there : look space.word 0 (2 ^ 23) ≡ none
unfolding valid
nothing_there = refl

pub page_two : IsCounted space free_pages (ppn_of (make_pte 2 0))
unfolding make_pte
page_two = record { below = omega arith; used = refl; counted = omega arith }

page_decref_lem_example :
    (m' : Memory) × (page_decref 2 space ≡ ret tt m') × Released space 2 free_pages m'
page_decref_lem_example =
    page_decref_lem space 2 free_pages space-IsFree (omega arith) refl (omega arith)

page_remove-some_example :
    (m' : Memory) × (page_remove 0 7 address space ≡ ret tt m')
    × Unmapped space 0 address free_pages space-IsSpace (omega arith) 7 (make_pte 2 0) m'
page_remove-some_example =
    page_remove-some space 0 address free_pages space-IsSpace (omega arith) 7 (make_pte 2 0)
      mapped_there page_two

page_insert_lem_example :
    ((m' : Memory) × (page_insert 0 7 2 (2 ^ 23) 1024 space ≡ ret tt m')
      × Inserted space 0 (2 ^ 23) 2 1024 m')
    ⊎ ((page_insert 0 7 2 (2 ^ 23) 1024 space ≡ fail no_mem (flush 7 (2 ^ 23) space))
        × (free_pages ≡ [])
        × (look space.word 0 (2 ^ 23) ≡ none))
page_insert_lem_example =
    page_insert_lem space 0 (2 ^ 23) free_pages space-IsSpace (omega arith) 7 2 1024 (omega arith)
      refl (λ e q. let p : none ≡ some e = sym nothing_there ∙ q in absurd cc)

-- five pages, of which the kernel takes two
page_init-Ready_example :
    (m' : Memory) × (page_init 0x8000_1804 space ≡ ret tt m') × Ready 2 space m'
page_init-Ready_example = page_init-Ready space 0x8000_1804 (omega arith) (omega arith)
