-- ===== src/Disk/Bitmap.antt =====
-- free_block and alloc_block_num against the set of free blocks.
use buaa_os_challenge.Base.{
  ℕ, zero, suc, ◌+◌, ◌-◌, ◌/◌, ◌%◌, ◌<◌, ◌≤◌, ◌≡◌, ◌≢◌, refl, sym, ap, ◌∙◌, true, false, arith,
  update, ◌==◌, if◌then◌else◌, Bool-cases, inl, inr, leb,
}
use buaa_os_challenge.Base.BitSet.{bit_at, has_bit, set_bit, clear_bit}
use buaa_os_challenge.Base.Bitmap.{bit_at-mark, bit_at-unmark}
use buaa_os_challenge.Base.Errors.{no_disk}
use buaa_os_challenge.Base.Monad.{Run, ret, fail, panic}
use buaa_os_challenge.Disk.{
  Disk, poke, bitmap_place, bitmap, block_is_free, write_block, free_block, take_block,
  search_block, alloc_block_num,
}

place_ne : (i j : ℕ) → j ≢ i → j / 1024 ≡ i / 1024 → j % 1024 ≢ i % 1024
place_ne i j ne e = λ e'. ne (omega arith)

bitmap-poke :
    (d : Disk) (i v j : ℕ) → bitmap (poke (bitmap_place i) v d) j ≡ update (bitmap d) i v j
bitmap-poke d i v j = elim (Bool-cases (j == i)) [
  | inl e ↦ let s : j ≡ i = ground arith in rw (e, s) (ground arith)
  | inr n ↦ rw n (elim (Bool-cases (2 + j / 1024 == 2 + i / 1024)) [
    | inr far ↦ rw far
    | inl near ↦
        let d : (j % 1024 == i % 1024) ≡ false = ground (arith, place_ne i j) in
        rw (near, d) (ground arith)
  ])
]

module _ (d : Disk) (b : ℕ) where
  -- the disk with the bit of a block set, or cleared
  abbrev pub given : Disk
  given = poke (bitmap_place (b / 32)) (set_bit (bitmap d (b / 32)) (b % 32)) d

  abbrev pub used : Disk
  used = poke (bitmap_place (b / 32)) (clear_bit (bitmap d (b / 32)) (b % 32)) d

  bit_at-given : (j : ℕ) → bit_at (bitmap given) j ≡ (if j == b then true else bit_at (bitmap d) j)
  bit_at-given j =
      ap (λ (w : ℕ). has_bit w (j % 32))
        (bitmap-poke d (b / 32) (set_bit (bitmap d (b / 32)) (b % 32)) (j / 32))
      ∙ bit_at-mark (bitmap d) b j

  bit_at-used : (j : ℕ) → bit_at (bitmap used) j ≡ (if j == b then false else bit_at (bitmap d) j)
  bit_at-used j =
      ap (λ (w : ℕ). has_bit w (j % 32))
        (bitmap-poke d (b / 32) (clear_bit (bitmap d (b / 32)) (b % 32)) (j / 32))
      ∙ bit_at-unmark (bitmap d) b j

-- For a block of the disk other than block 0, free_block makes this block free, and no other block
-- changes.
pub free_block_lem :
    (d : Disk) (b : ℕ)
    → 0 < b
    → b < d.nblocks
    → (d' : Disk) × (free_block b d ≡ ret tt d')
      × ((j : ℕ) → block_is_free d' j ≡ (if j == b then true else block_is_free d j))
unfolding free_block
free_block_lem d b pos lt =
    let z : (b == 0) ≡ false = ground arith in
    let in_range : leb d.nblocks b ≡ false = ground arith in
    (
      given d b,
      rw (z, in_range),
      λ j. elim (Bool-cases (j == b)) [
        | inl e ↦ let s : j ≡ b = ground arith in rw (bit_at-given d b j, e) (ground arith)
        | inr n ↦ rw (bit_at-given d b j, n)
      ],
    )

-- The blocks of the bitmap are in the cache.
abbrev pub BitmapMapped : Disk → Type 0
BitmapMapped d = (b : ℕ) → b < d.nblocks → d.mapped (b / 32768 + 2) ≡ true

-- What alloc_block_num does to the set of free blocks.
pub data BlockResult (d : Disk) (from : ℕ) : Run Disk ℕ → Type 0 where
  taken :
      (b : ℕ) (d' : Disk)
      → from ≤ b
      → b < d.nblocks
      → block_is_free d b ≡ true
      → ((j : ℕ) → from ≤ j → j < b → block_is_free d j ≡ false)
      → ((j : ℕ) → block_is_free d' j ≡ (if j == b then false else block_is_free d j))
      → d'.sectors (b / 32768 + 2) ≡ d'.cache (b / 32768 + 2)
      → d'.pages ≡ d.pages
      → d'.nblocks ≡ d.nblocks
      → BlockResult d from (ret b d')
  disk_full :
      ((j : ℕ) → from ≤ j → j < d.nblocks → block_is_free d j ≡ false)
      → BlockResult d from (fail no_disk d)

-- the disk after a block is taken
abbrev written : Disk → ℕ → Disk
written d b =
    let d1 = used d b in
    record d1 { sectors = update d1.sectors (b / 32768 + 2) (d1.cache (b / 32768 + 2)) }

take_block-written :
    (d : Disk) (b : ℕ) → d.mapped (b / 32768 + 2) ≡ true → take_block b d ≡ ret b (written d b)
unfolding take_block write_block
take_block-written d b h = rw h

block_is_free-used :
    (d : Disk) (b j : ℕ)
    → block_is_free (written d b) j ≡ (if j == b then false else block_is_free d j)
block_is_free-used d b j = elim (Bool-cases (j == b)) [
  | inl e ↦ rw (bit_at-used d b j, e) (ground arith)
  | inr n ↦ rw (bit_at-used d b j, n)
]

bit-free : (d : Disk) (b : ℕ) → b < d.nblocks → block_is_free d b ≡ bit_at (bitmap d) b
bit-free d b lt = let e : leb d.nblocks b ≡ false = ground arith in rw e

search_block_lem :
    (n b : ℕ) (d : Disk) → BitmapMapped d → n ≡ d.nblocks - b → BlockResult d b (search_block n b d)
unfolding search_block
search_block_lem zero b d h e = disk_full (λ j lo hi. absurd (omega arith))
search_block_lem (suc n) b d h e =
    let lt : b < d.nblocks = omega arith in
    elim (Bool-cases (bit_at (bitmap d) b)) [
      | inl clear ↦
          rw (clear, search_block, take_block-written d b (h b lt))
            (taken b (written d b) (omega arith) lt (bit-free d b lt ∙ clear)
              (λ j lo hi. absurd (omega arith)) (block_is_free-used d b) (ground arith) refl refl)
      | inr in_use ↦
          rw (in_use, search_block)
            (widen (search_block_lem n (b + 1) d h (omega arith)) (bit-free d b lt ∙ in_use))
    ]
  where
    widen :
        {r : Run Disk ℕ} → BlockResult d (b + 1) r → block_is_free d b ≡ false → BlockResult d b r
    widen (taken x d' lo lt free below all disk pages size) busy =
        taken x d' (omega arith) lt free (λ j from to. ground (arith, below j)) all disk pages size
    widen (disk_full all) busy = disk_full (λ j from to. ground (arith, all j))

-- With the bitmap in the cache, alloc_block_num returns the least free block from block 3 on,
-- makes it used and leaves all others as they are, and writes the block of the bitmap to the disk;
-- or it fails with E_NO_DISK, where no block from block 3 on is free, and changes nothing.
pub alloc_block_num_lem : (d : Disk) → BitmapMapped d → BlockResult d 3 (alloc_block_num d)
unfolding alloc_block_num
alloc_block_num_lem d h = search_block_lem (d.nblocks - 3) 3 d h refl

-- With the bitmap in the cache and a free block from block 3 on, alloc_block_num returns a block,
-- and free_block of this block gives back the set of free blocks from before.
pub alloc_block_num-free_block :
    (d : Disk) (x : ℕ)
    → BitmapMapped d
    → 3 ≤ x
    → block_is_free d x ≡ true
    → (b : ℕ) × (d' : Disk) × (d'' : Disk) × (alloc_block_num d ≡ ret b d')
      × (free_block b d' ≡ ret tt d'')
      × ((j : ℕ) → block_is_free d'' j ≡ block_is_free d j)
alloc_block_num-free_block d x h lo free =
    by_result (alloc_block_num d) refl (alloc_block_num_lem d h)
  where
    by_result :
        (r : Run Disk ℕ)
        → alloc_block_num d ≡ r
        → BlockResult d 3 r
        → (b : ℕ) × (d' : Disk) × (d'' : Disk) × (alloc_block_num d ≡ ret b d')
          × (free_block b d' ≡ ret tt d'')
          × ((j : ℕ) → block_is_free d'' j ≡ block_is_free d j)
    by_result (ret _ _) e (taken b d' from lt was below all disk pages size) =
        let (d'', run, back) = free_block_lem d' b (omega arith) (omega (arith, size)) in
        (
          b,
          d',
          d'',
          e,
          run,
          λ j. elim (Bool-cases (j == b)) [
            | inl s ↦ let i : j ≡ b = ground arith in back j ∙ rw (s, i) (sym was)
            | inr n ↦ back j ∙ rw n (all j ∙ rw n)
          ],
        )
    by_result (fail _ _) e (disk_full all) =
        let in_range : x < d.nblocks = ground arith in
        let f = all x lo in_range in absurd (ground arith)
    by_result panic e x = elim x [ ]
