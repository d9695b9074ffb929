-- ===== src/Memory/Boot.antt =====
-- page_init of kern/pmap.c: the table of pages at the start.
use buaa_os_challenge.Base.{
  ℕ, zero, suc, ◌+◌, ◌-◌, ◌*◌, ◌/◌, ◌%◌, ◌^◌, ◌<◌, ◌≤◌, ◌≡◌, refl, ap, ◌∙◌, true, ◌&&◌, List, [],
  ◌∷◌, arith, has, update, ltb, leb, if◌then◌else◌,
}
use mathlib.Core.Path.{subst}
use buaa_os_challenge.Base.Monad.{
  ret, M, modify, get, assert, ◌>>=◌, ◌>>◌, for_from, for_from-zero, for_from-suc,
}
use buaa_os_challenge.Queue.{list_init, insert_head}
use buaa_os_challenge.Queue.Laws.{list_init-IsList, insert_head-IsList}
use buaa_os_challenge.Memory.{Memory, set_ref}
use buaa_os_challenge.Memory.Alloc.{IsFree}

-- `ROUND(freemem, PAGE_SIZE)`
abbrev pub round_page : ℕ → ℕ
round_page a = (a + 4095) % 2 ^ 32 / 4096 * 4096

-- the bodies of the two loops
abbrev pub reserve : ℕ → M Memory (Unit {0})
reserve i = modify (set_ref i 1)

abbrev pub release : ℕ → M Memory (Unit {0})
release i m = ret tt (record m { ref = update m.ref i 0; free = insert_head m.free i })

-- page_init, from the first address that alloc left free; `used` is usedPageNum
unfoldable pub page_init : ℕ → M Memory (Unit {0})
unfolding for_from
page_init freemem = do
  modify (λ m. record m { free = list_init m.free })
  assert (leb 0x8000_0000 (round_page freemem))
  let used = (round_page freemem - 0x8000_0000) / 4096
  for_from used 0 reserve
  m ← get
  for_from (m.npage - used) used release

-- What the first loop leaves: the counts below `n` are one.
reserve_lem :
    (n i : ℕ) (m : Memory)
    → (m' : Memory) × (for_from n i reserve m ≡ ret tt m')
      × ((y : ℕ) → m'.ref y ≡ (if leb i y && ltb y (i + n) then 1 else m.ref y))
      × (m'.free ≡ m.free)
      × (m'.npage ≡ m.npage)
reserve_lem zero i m = (m, for_from-zero i reserve m, λ y. ground arith, refl, refl)
reserve_lem (suc n) i m =
    let (m', run, refs, free, size) = reserve_lem n (i + 1) (set_ref i 1 m) in
    (
      m',
      for_from-suc n i reserve m (set_ref i 1 m) refl ∙ run,
      λ y. ground (arith, refs y),
      free,
      size,
    )

-- The pages from `lo` to `hi` are free.
record FreeBetween (lo hi : ℕ) (m : Memory) : Type 0 where
  order : List ℕ
  free : IsFree m order
  members : (x : ℕ) → has x order ≡ (leb lo x && ltb x hi)

release_one :
    (lo i : ℕ) (m : Memory)
    → lo ≤ i
    → i < m.npage
    → FreeBetween lo i m
    → FreeBetween lo (i + 1) (record m { ref = update m.ref i 0; free = insert_head m.free i })
release_one lo i m le lt f = record {
  order = i ∷ f.order;
  free = record {
    list = insert_head-IsList m.free f.order i f.free.list (f.members i ∙ ground arith);
    below = λ x h. ground (arith, f.free.below x);
  };
  members = λ x. ground (arith, f.members x);
}

release_lem :
    (n lo i : ℕ) (m : Memory)
    → lo ≤ i
    → i + n ≡ m.npage
    → FreeBetween lo i m
    → (m' : Memory) × (for_from n i release m ≡ ret tt m')
      × FreeBetween lo m.npage m'
      × ((y : ℕ) → m'.ref y ≡ (if leb i y && ltb y m.npage then 0 else m.ref y))
release_lem zero lo i m le e f =
    let s : i ≡ m.npage = omega arith in
    (m, for_from-zero i release m, subst (λ (h : ℕ). FreeBetween lo h m) s f, λ y. ground arith)
release_lem (suc n) lo i m le e f =
    let m1 = record m { ref = update m.ref i 0; free = insert_head m.free i } in
    let (m', run, f', refs) =
      release_lem n lo (i + 1) m1 (omega arith) (omega arith)
        (release_one lo i m le (omega arith) f) in
    (m', for_from-suc n i release m m1 refl ∙ run, f', λ y. ground (arith, refs y))

-- What page_init leaves: the first `used` pages have a count of one, all others are free.
pub record Ready (used : ℕ) (m m' : Memory) : Type 0 where
  pub order : List ℕ
  pub free : IsFree m' order
  pub members : (x : ℕ) → has x order ≡ (leb used x && ltb x m.npage)
  pub reserved : (x : ℕ) → x < used → m'.ref x ≡ 1
  pub released : (x : ℕ) → used ≤ x → x < m.npage → m'.ref x ≡ 0

-- If the memory that is used at the start ends within the physical memory, page_init puts exactly
-- the pages above it on the list of free pages, whatever the list and the counts were before; these
-- have a count of zero, and the pages below have a count of one.
pub page_init-Ready :
    (m : Memory) (freemem : ℕ)
    → 0x8000_0000 ≤ round_page freemem
    → (round_page freemem - 0x8000_0000) / 4096 ≤ m.npage
    → (m' : Memory) × (page_init freemem m ≡ ret tt m')
      × Ready ((round_page freemem - 0x8000_0000) / 4096) m m'
unfolding page_init
page_init-Ready m freemem lo hi =
    let used = (round_page freemem - 0x8000_0000) / 4096 in
    let m0 = record m { free = list_init m.free } in
    let (m1, run1, refs1, free1, size1) = reserve_lem used 0 m0 in
    let start : FreeBetween used used m1 = record {
      order = [];
      free = record { list = rw free1 (list_init-IsList m.free); below = λ x h. cc };
      members = λ x. ground arith;
    } in
    let (m2, run2, f, refs2) =
      release_lem (m1.npage - used) used used m1 (omega arith) (omega (arith, size1)) start in
    let kernel : leb 0x8000_0000 (round_page freemem) ≡ true = ground arith in
    (
      m2,
      rw (kernel, run1) run2,
      record {
        order = f.order;
        free = f.free;
        members = λ x. f.members x ∙ ap (λ (n : ℕ). leb used x && ltb x n) size1;
        reserved = λ x lt. ground (arith, refs2 x, refs1 x);
        released = λ x le lt. ground (arith, refs2 x, size1);
      },
    )
