-- ===== src/Disk.antt =====
-- The block layer and the files of the file system server, fs/fs.c, with fs/serv.h and
-- user/include/fs.h. The cache of disk blocks is memory of the server: block `b` at DISKMAP +
-- b * BLOCK_SIZE, here as words by block and index. All structures of the file system lie in it: the
-- bitmap from block 2 on, and each `struct File` at a place of a block. The model starts after
-- fs_init: `super` and `bitmap` are set. Of the system calls that the server makes, the model keeps
-- which blocks are mapped and marked dirty, and how many pages syscall_mem_alloc still gives.
pub mod Bitmap
pub mod Blocks
pub mod Directory
pub mod Paths
pub mod Search
pub mod Lookup
pub mod Walking
pub mod Naming
pub mod Total
pub mod Create
mod Examples
use buaa_os_challenge.Base.{
  ℕ, zero, suc, ◌+◌, ◌-◌, ◌*◌, ◌/◌, ◌%◌, ◌^◌, Bool, true, false, not, ◌&&◌, ◌||◌, update, ltb, leb,
  ◌==◌, if◌then◌else◌, Option, none, some,
}
use buaa_os_challenge.Base.BitSet.{bit_at, set_bit, clear_bit}
use buaa_os_challenge.Base.Errors.{Error, no_mem, no_disk, not_found, inval}
use buaa_os_challenge.Base.Monad.{
  Run, ret, fail, panic, M, pure, throw, stop, get, gets, modify, assert, or_panic, for_from,
  and_then, ◌>>=◌, ◌>>◌,
}

pub record Disk : Type 0 where
  pub nblocks : ℕ
  pub cache : ℕ → ℕ → ℕ
  pub mapped : ℕ → Bool
  pub dirty : ℕ → Bool
  pub sectors : ℕ → ℕ → ℕ
  pub pages : ℕ

-- a pointer into the cache
pub record Place : Type 0 where
  pub block : ℕ
  pub index : ℕ

abbrev pub peek : Disk → Place → ℕ
peek d p = d.cache p.block p.index

abbrev pub poke : Place → ℕ → Disk → Disk
poke p v d = record d { cache = update d.cache p.block (update (d.cache p.block) p.index v) }

-- `&bitmap[i]` and the words of the bitmap
abbrev pub bitmap_place : ℕ → Place
bitmap_place i = record { block = 2 + i / 1024; index = i % 1024 }

abbrev pub bitmap : Disk → ℕ → ℕ
bitmap d i = peek d (bitmap_place i)

-- block_is_free
abbrev pub block_is_free : Disk → ℕ → Bool
block_is_free d b = not (leb d.nblocks b) && bit_at (bitmap d) b

-- block_is_dirty
abbrev pub block_is_dirty : Disk → ℕ → Bool
block_is_dirty d b = d.mapped b && d.dirty b

-- dirty_block
unfoldable pub dirty_block : ℕ → M Disk (Unit {0})
dirty_block b = do
  d ← get
  if not (d.mapped b)
      then throw not_found
      else if d.dirty b
      then pure tt
      else modify (λ d. record d { dirty = update d.dirty b true })

-- write_block
unfoldable pub write_block : ℕ → M Disk (Unit {0})
write_block b = do
  d ← get
  assert (d.mapped b)
  modify (λ d. record d { sectors = update d.sectors b (d.cache b) })

-- syscall_mem_alloc of the page of a block
unfoldable pub alloc_page : ℕ → M Disk (Unit {0})
alloc_page b = do
  d ← get
  if d.pages == 0
      then throw no_mem
      else modify (λ d. record d {
        pages = d.pages - 1;
        mapped = update d.mapped b true;
        dirty = update d.dirty b false;
        cache = update d.cache b (λ _. 0);
      })

-- read_block
unfoldable pub read_block : ℕ → M Disk (Unit {0})
unfolding alloc_page
read_block b = do
  d ← get
  assert (not (leb d.nblocks b))
  assert (not (block_is_free d b))
  if d.mapped b
      then pure tt
      else (do alloc_page b; modify (λ d. record d { cache = update d.cache b (d.sectors b) }))

-- map_block
unfoldable pub map_block : ℕ → M Disk (Unit {0})
map_block b = do d ← get; if d.mapped b then pure tt else alloc_page b

-- unmap_block
unfoldable pub unmap_block : ℕ → M Disk (Unit {0})
unfolding write_block
unmap_block b = do
  d ← get
  if not (d.mapped b) then pure tt else (do
    if not (block_is_free d b) && block_is_dirty d b then write_block b else pure tt
    modify (λ d. record d { mapped = update d.mapped b false; pages = d.pages + 1 }))

-- free_block
unfoldable pub free_block : ℕ → M Disk (Unit {0})
free_block b = do
  d ← get
  if b == 0 || leb d.nblocks b
      then pure tt
      else modify (poke (bitmap_place (b / 32)) (set_bit (bitmap d (b / 32)) (b % 32)))

-- The body of alloc_block_num where the block is free.
unfoldable pub take_block : ℕ → M Disk ℕ
take_block b = do
  d ← get
  modify (poke (bitmap_place (b / 32)) (clear_bit (bitmap d (b / 32)) (b % 32)))
  write_block (b / 32768 + 2)
  pure b

-- The loop of alloc_block_num from `b` on, with `n` rounds left.
unfoldable pub search_block : ℕ → ℕ → M Disk ℕ
search_block zero b d = fail no_disk d
search_block (suc n) b d = elim (bit_at (bitmap d) b) [
  | true ↦ take_block b d
  | false ↦ search_block n (b + 1) d
]

-- alloc_block_num
unfoldable pub alloc_block_num : M Disk ℕ
alloc_block_num d = search_block (d.nblocks - 3) 3 d

-- What alloc_block does with the outcome of map_block.
abbrev pub or_free : ℕ → Run Disk (Unit {0}) → Run Disk ℕ
or_free b (ret _ d) = ret b d
or_free b (fail e d) = and_then (free_block b d) (λ _. throw e)
or_free b panic = panic

-- alloc_block
unfoldable pub alloc_block : M Disk ℕ
alloc_block d = and_then (alloc_block_num d) (λ b d. or_free b (map_block b d))

-- Fields of a `struct File` at a place.
abbrev pub at : Place → ℕ → Place
at f i = record { block = f.block; index = f.index + i }

abbrev pub f_size : Place → Place
f_size f = at f 32

abbrev pub f_direct : Place → ℕ → Place
f_direct f i = at f (34 + i)

abbrev pub f_indirect : Place → Place
f_indirect f = at f 44

abbrev pub f_dir : Place → Place
f_dir f = at f 45

-- The indirect block, allocated where it is missing and `alloc` is set.
unfoldable pub indirect_block : Place → Bool → M Disk (Unit {0})
indirect_block f alloc = do
  d ← get
  if not (peek d (f_indirect f) == 0)
      then pure tt
      else if not alloc
      then throw not_found
      else (alloc_block >>= λ r. modify (poke (f_indirect f) r))

-- file_block_walk
unfoldable pub file_block_walk : Place → ℕ → Bool → M Disk Place
file_block_walk f n alloc =
    if ltb n 10
    then pure (f_direct f n)
    else if ltb n 1024
    then (do
      indirect_block f alloc
      d ← get
      read_block (peek d (f_indirect f))
      pure (record { block = peek d (f_indirect f); index = n }))
    else throw inval

-- file_map_block
unfoldable pub file_map_block : Place → ℕ → Bool → M Disk ℕ
file_map_block f n alloc = do
  p ← file_block_walk f n alloc
  d ← get
  if not (peek d p == 0)
      then pure (peek d p)
      else if not alloc
      then throw not_found
      else (do r ← alloc_block; modify (poke p r); pure r)

-- file_clear_block
unfoldable pub file_clear_block : Place → ℕ → M Disk (Unit {0})
file_clear_block f n = do
  p ← file_block_walk f n false
  d ← get
  if peek d p == 0 then pure tt else (do free_block (peek d p); modify (poke p 0))

-- file_get_block; the result is the block that `*blk` points to
unfoldable pub file_get_block : Place → ℕ → M Disk ℕ
file_get_block f n = do b ← file_map_block f n true; read_block b; pure b

-- file_dirty
unfoldable pub file_dirty : Place → ℕ → M Disk (Unit {0})
file_dirty f offset = do b ← file_map_block f (offset / 4096) false; dirty_block b

-- `ROUND(size, BLOCK_SIZE) / BLOCK_SIZE`
abbrev pub blocks_of : ℕ → ℕ
blocks_of size = (size + 4095) % 2 ^ 32 / 4096

-- `panic_on(file_clear_block(f, bno))`
abbrev pub clear_or_panic : Place → ℕ → M Disk (Unit {0})
clear_or_panic f n d = or_panic (file_clear_block f n d)

-- The indirect block is given up where ten blocks are enough.
unfoldable pub drop_indirect : Place → M Disk (Unit {0})
drop_indirect f = do
  d ← get
  if peek d (f_indirect f) == 0
      then pure tt
      else (do free_block (peek d (f_indirect f)); modify (poke (f_indirect f) 0))

-- file_truncate
unfoldable pub file_truncate : Place → ℕ → M Disk (Unit {0})
unfolding for_from
file_truncate f newsize = do
  d ← get
  let old = blocks_of (peek d (f_size f))
  let new = if newsize == 0 then 0 else blocks_of newsize
  for_from (old - new) new (clear_or_panic f)
  if leb new 10 then drop_indirect f else pure tt
  modify (poke (f_size f) newsize)

-- What file_flush does with a block, by the outcome of file_map_block: an error is passed over.
abbrev pub write_if_dirty : Run Disk ℕ → Run Disk (Unit {0})
write_if_dirty (ret b d) = if block_is_dirty d b then write_block b d else ret tt d
write_if_dirty (fail e d) = ret tt d
write_if_dirty panic = panic

-- file_flush
unfoldable pub file_flush : Place → M Disk (Unit {0})
unfolding for_from
file_flush f = do
  d ← get
  for_from (blocks_of (peek d (f_size f))) 0 (λ n d. write_if_dirty (file_map_block f n false d))

-- the place of the directory that the field f_dir points to
abbrev pub directory : ℕ → Place
directory va = record { block = (va - 0x1000_0000) / 4096; index = va % 4096 / 4 }

-- `if (f->f_dir) file_flush(f->f_dir);`
unfoldable pub flush_dir : Place → M Disk (Unit {0})
flush_dir f = do
  d ← get
  if peek d (f_dir f) == 0 then pure tt else file_flush (directory (peek d (f_dir f)))

-- file_set_size
unfoldable pub file_set_size : Place → ℕ → M Disk (Unit {0})
file_set_size f newsize = do
  d ← get
  if ltb newsize (peek d (f_size f)) then file_truncate f newsize else pure tt
  modify (poke (f_size f) newsize)
  flush_dir f

-- file_close
unfoldable pub file_close : Place → M Disk (Unit {0})
file_close f = do file_flush f; flush_dir f

-- fs_sync
unfoldable pub fs_sync : M Disk (Unit {0})
unfolding for_from
fs_sync = do
  d ← get
  for_from d.nblocks 0 (λ b d. if block_is_dirty d b then write_block b d else ret tt d)
