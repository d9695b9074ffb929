-- ===== src/Disk/Blocks.antt =====
-- The blocks of a file, and the cache of disk blocks.
use buaa_os_challenge.Base.{
  ℕ, suc, ◌+◌, ◌-◌, ◌<◌, ◌≤◌, ◌≡◌, ◌≢◌, ◌⊎◌, refl, true, false, arith, update, ◌==◌, Bool-cases,
  inl, inr, leb, ltb, lt→ltb,
}
use buaa_os_challenge.Base.BitSet.{bit_at}
use buaa_os_challenge.Base.Errors.{no_disk}
use buaa_os_challenge.Base.Monad.{Run, ret, fail, panic, and_then, ◌>>◌, for_from}
use buaa_os_challenge.Disk.{
  Disk, Place, peek, poke, bitmap, block_is_free, block_is_dirty, write_block, alloc_page,
  read_block, map_block, unmap_block, alloc_block_num, alloc_block, or_free, f_direct, f_indirect,
  f_size, indirect_block, file_block_walk, file_map_block, file_clear_block, file_truncate,
  blocks_of, clear_or_panic,
}
use buaa_os_challenge.Disk.Bitmap.{BitmapMapped, BlockResult, taken, disk_full, alloc_block_num_lem}

map_block-ret : (b : ℕ) (d : Disk) → 0 < d.pages → (d' : Disk) × (map_block b d ≡ ret tt d')
unfolding map_block alloc_page
map_block-ret b d h = elim (Bool-cases (d.mapped b)) [
  | inl y ↦ (d, rw y)
  | inr n ↦
      let e : (d.pages == 0) ≡ false = ground arith in
      (
        record d {
          pages = d.pages - 1;
          mapped = update d.mapped b true;
          dirty = update d.dirty b false;
          cache = update d.cache b (λ _. 0);
        },
        rw (n, e),
      )
]

-- The two outcomes of an allocation, where the server still gets pages.
abbrev Outcome : Disk → Run Disk ℕ → Type 0
Outcome d r =
    ((b : ℕ) × (d' : Disk) × (r ≡ ret b d')
      × (3 ≤ b)
      × (b < d.nblocks)
      × (block_is_free d b ≡ true))
    ⊎ ((r ≡ fail no_disk d) × ((j : ℕ) → 3 ≤ j → j < d.nblocks → block_is_free d j ≡ false))

alloc_block-Outcome : (d : Disk) → BitmapMapped d → 0 < d.pages → Outcome d (alloc_block d)
unfolding alloc_block
alloc_block-Outcome d h pos = by_result (alloc_block_num d) refl (alloc_block_num_lem d h)
  where
    by_result :
        (r : Run Disk ℕ)
        → alloc_block_num d ≡ r
        → BlockResult d 3 r
        → Outcome d (and_then (alloc_block_num d) (λ b d. or_free b (map_block b d)))
    by_result (ret _ _) e (taken b d1 lo lt free below all disk pages size) =
        let (d2, run) = map_block-ret b d1 (omega (arith, pages)) in
        inl (b, d2, rw (e, run), lo, lt, free)
    by_result (fail _ _) e (disk_full all) = inr (rw e, all)
    by_result panic e x = elim x [ ]

-- For a block number below ten, with the bitmap in the cache and a page left for the server:
-- file_map_block with `alloc` set either returns a block, which is not 0, and file_map_block without
-- `alloc` then returns the same block: if the file had such a block, it is this one and nothing
-- changes; if not, it is a block of the disk from block 3 on that was free. Or file_map_block fails
-- with E_NO_DISK and changes nothing, where the file had no such block and no block of the disk from
-- block 3 on was free.
pub file_map_block-file_map_block :
    (d : Disk) (f : Place) (n : ℕ)
    → n < 10
    → BitmapMapped d
    → 0 < d.pages
    → ((b : ℕ) × (d' : Disk) × (file_map_block f n true d ≡ ret b d')
        × (file_map_block f n false d' ≡ ret b d')
        × (b ≢ 0)
        × (((peek d (f_direct f n) ≢ 0) × (b ≡ peek d (f_direct f n)) × (d' ≡ d))
            ⊎ ((peek d (f_direct f n) ≡ 0)
                × (3 ≤ b)
                × (b < d.nblocks)
                × (block_is_free d b ≡ true))))
      ⊎ ((file_map_block f n true d ≡ fail no_disk d)
          × (peek d (f_direct f n) ≡ 0)
          × ((j : ℕ) → 3 ≤ j → j < d.nblocks → block_is_free d j ≡ false))
unfolding file_map_block file_block_walk
file_map_block-file_map_block d f n lt h pos =
    let few : ltb n 10 ≡ true = lt→ltb n 10 lt in
    elim (Bool-cases (peek d (f_direct f n) == 0)) [
      | inr there ↦ inl (
        peek d (f_direct f n),
        d,
        rw (few, there),
        rw (few, there),
        λ e. ground arith,
        inl (λ e. ground arith, refl, refl),
      )
      | inl gap ↦ elim (alloc_block-Outcome d h pos) [
        | inl (b, d1, run, some_block, on_disk, free) ↦
            let now : peek (poke (f_direct f n) b d1) (f_direct f n) ≡ b = ground arith in
            let real : (b == 0) ≡ false = ground arith in
            inl (
              b,
              poke (f_direct f n) b d1,
              rw (few, gap, run),
              rw (few, now, real),
              λ e. omega arith,
              inr (ground arith, some_block, on_disk, free),
            )
        | inr (run, all) ↦ inr (rw (few, gap, run), ground arith, all)
      ]
    ]

module _ (d : Disk) (b : ℕ) (lt : b < d.nblocks) (busy : block_is_free d b ≡ false) where
  in_range : leb d.nblocks b ≡ false
  in_range = ground arith

  bit : bit_at (bitmap d) b ≡ false
  bit = ground (arith, in_range)

  -- the disk after the block is written and given up
  abbrev evicted : Disk
  evicted = record d {
    sectors = update d.sectors b (d.cache b);
    mapped = update d.mapped b false;
    pages = d.pages + 1;
  }

  unmap_block-evicted : block_is_dirty d b ≡ true → unmap_block b d ≡ ret tt evicted
  unfolding unmap_block write_block
  unmap_block-evicted soiled =
      let there : d.mapped b ≡ true = ground arith in
      let marked : d.dirty b ≡ true = ground arith in rw (there, marked, in_range, bit, there)

  -- the disk after the block is read
  abbrev loaded : Disk
  loaded = record d {
    pages = d.pages - 1;
    mapped = update d.mapped b true;
    dirty = update d.dirty b false;
    cache = update (update d.cache b (λ _. 0)) b (d.sectors b);
  }

  read_block-loaded : d.mapped b ≡ false → (d.pages == 0) ≡ false → read_block b d ≡ ret tt loaded
  unfolding read_block alloc_page
  read_block-loaded out some_left = rw (in_range, bit, out, some_left)

-- For a used block of the disk that is in the cache and marked dirty, unmap_block writes it to the
-- disk, and read_block then brings back the words that the cache held.
pub unmap_block-read_block :
    (d : Disk) (b : ℕ)
    → b < d.nblocks
    → block_is_free d b ≡ false
    → block_is_dirty d b ≡ true
    → (d' : Disk) × ((unmap_block b >> read_block b) d ≡ ret tt d')
      × ((i : ℕ) → d'.cache b i ≡ d.cache b i)
      × (d'.mapped b ≡ true)
      × ((i : ℕ) → d'.sectors b i ≡ d.cache b i)
unmap_block-read_block d b lt busy soiled =
    let d1 = evicted d b lt busy in
    let read = read_block-loaded d1 b lt busy (ground arith) (ground arith) in
    (
      loaded d1 b lt busy,
      rw (unmap_block-evicted d b lt busy soiled) read,
      λ i. ground arith,
      ground arith,
      λ i. ground arith,
    )

-- A file that has no indirect block although its size asks for more than ten blocks, as
-- file_set_size leaves it where it only makes a file larger: to truncate it to ten blocks is a
-- panic of the server.
pub file_truncate-sparse :
    (d : Disk) (f : Place) (newsize : ℕ)
    → peek d (f_indirect f) ≡ 0
    → 10 < blocks_of (peek d (f_size f))
    → blocks_of newsize ≡ 10
    → newsize ≢ 0
    → file_truncate f newsize d ≡ panic
unfolding file_truncate file_clear_block file_block_walk indirect_block
file_truncate-sparse d f newsize gap big ten nz =
    let z : (newsize == 0) ≡ false = ground arith in
    let (k, e) = rounds in rw (z, ten, e, for_from) (rw first)
  where
    rounds : (k : ℕ) × (blocks_of (peek d (f_size f)) - 10 ≡ suc k)
    rounds = (blocks_of (peek d (f_size f)) - 11, omega arith)

    first : clear_or_panic f 10 d ≡ panic
    first = rw gap
