-- ===== src/Disk/Total.antt =====
-- Calls of fs/fs.c that return no error: they end normally, or the server panics.
use buaa_os_challenge.Base.{
  ℕ, zero, suc, ◌+◌, ◌-◌, Bool, true, false, ◌||◌, ◌==◌, ltb, leb, if◌then◌else◌,
}
use buaa_os_challenge.Base.Monad.{
  Run, ret, fail, panic, M, pure, modify, assert, or_panic, for_from, and_then, ◌>>◌,
}
use buaa_os_challenge.Disk.{
  Disk, Place, peek, poke, f_size, f_indirect, f_dir, blocks_of, free_block, write_block,
  block_is_dirty, clear_or_panic, file_clear_block, drop_indirect, file_truncate, write_if_dirty,
  file_map_block, file_flush, flush_dir, directory, file_set_size, fs_sync,
}

abbrev pub NeverFails : {S A : Type 0} → Run S A → Type 0
NeverFails (ret a s) = Unit
NeverFails (fail e s) = ⊥
NeverFails panic = Unit

and_then-NeverFails :
    {S A B : Type 0} (r : Run S A) (k : A → M S B)
    → NeverFails r
    → ((a : A) (s : S) → NeverFails (k a s))
    → NeverFails (and_then r k)
and_then-NeverFails (ret a s) k h hk = hk a s
and_then-NeverFails (fail e s) k h hk = absurd h
and_then-NeverFails panic k h hk = tt

or_panic-NeverFails : {S A : Type 0} (r : Run S A) → NeverFails (or_panic r)
or_panic-NeverFails (ret a s) = tt
or_panic-NeverFails (fail e s) = tt
or_panic-NeverFails panic = tt

if-NeverFails :
    {S A : Type 0} (b : Bool) (m n : M S A) (s : S)
    → NeverFails (m s)
    → NeverFails (n s)
    → NeverFails ((if b then m else n) s)
if-NeverFails true m n s h k = h
if-NeverFails false m n s h k = k

seq-NeverFails :
    {S A B : Type 0} (m : M S A) (n : M S B) (s : S)
    → NeverFails (m s)
    → ((s : S) → NeverFails (n s))
    → NeverFails ((m >> n) s)
seq-NeverFails m n s h k = and_then-NeverFails (m s) (λ _. n) h (λ _ t. k t)

for_from-NeverFails :
    {S : Type 0} (n i : ℕ) (body : ℕ → M S (Unit {0})) (s : S)
    → ((j : ℕ) (s : S) → NeverFails (body j s))
    → NeverFails (for_from n i body s)
unfolding for_from
for_from-NeverFails zero i body s h = tt
for_from-NeverFails (suc n) i body s h =
    and_then-NeverFails (body i s) (λ _. for_from n (i + 1) body) (h i s)
      (λ _ t. for_from-NeverFails n (i + 1) body t h)

assert-NeverFails : {S : Type 0} (b : Bool) (s : S) → NeverFails (assert b s)
assert-NeverFails true s = tt
assert-NeverFails false s = tt

free_block-NeverFails : (b : ℕ) (d : Disk) → NeverFails (free_block b d)
unfolding free_block
free_block-NeverFails b d = if-NeverFails (b == 0 || leb d.nblocks b) (pure tt) _ d tt tt

write_block-NeverFails : (b : ℕ) (d : Disk) → NeverFails (write_block b d)
unfolding write_block
write_block-NeverFails b d =
    and_then-NeverFails (assert (d.mapped b) d) _ (assert-NeverFails (d.mapped b) d) (λ _ _. tt)

drop_indirect-NeverFails : (f : Place) (d : Disk) → NeverFails (drop_indirect f d)
unfolding drop_indirect
drop_indirect-NeverFails f d = if-NeverFails (peek d (f_indirect f) == 0) (pure tt) _ d tt (
    seq-NeverFails (free_block (peek d (f_indirect f))) (modify (poke (f_indirect f) 0)) d
      (free_block-NeverFails (peek d (f_indirect f)) d) (λ _. tt))

file_truncate-NeverFails : (f : Place) (n : ℕ) (d : Disk) → NeverFails (file_truncate f n d)
unfolding file_truncate
file_truncate-NeverFails f n d =
    let new = if n == 0 then 0 else blocks_of n in
    seq-NeverFails (for_from (blocks_of (peek d (f_size f)) - new) new (clear_or_panic f)) _ d
      (for_from-NeverFails (blocks_of (peek d (f_size f)) - new) new (clear_or_panic f) d
        (λ j t. or_panic-NeverFails (file_clear_block f j t)))
      (λ t.
        seq-NeverFails (if leb new 10 then drop_indirect f else pure tt)
          (modify (poke (f_size f) n)) t
          (if-NeverFails (leb new 10) (drop_indirect f) (pure tt) t (drop_indirect-NeverFails f t)
            tt)
          (λ _. tt))

write_dirty : (b : ℕ) (d : Disk) (c : Bool) → NeverFails (if c then write_block b d else ret tt d)
write_dirty b d true = write_block-NeverFails b d
write_dirty b d false = tt

write_if_dirty-NeverFails : (r : Run Disk ℕ) → NeverFails (write_if_dirty r)
write_if_dirty-NeverFails (ret b d) = write_dirty b d (block_is_dirty d b)
write_if_dirty-NeverFails (fail e d) = tt
write_if_dirty-NeverFails panic = tt

file_flush-NeverFails : (f : Place) (d : Disk) → NeverFails (file_flush f d)
unfolding file_flush
file_flush-NeverFails f d =
    for_from-NeverFails (blocks_of (peek d (f_size f))) 0 _ d
      (λ j t. write_if_dirty-NeverFails (file_map_block f j false t))

flush_dir-NeverFails : (f : Place) (d : Disk) → NeverFails (flush_dir f d)
unfolding flush_dir
flush_dir-NeverFails f d =
    if-NeverFails (peek d (f_dir f) == 0) (pure tt) _ d tt
      (file_flush-NeverFails (directory (peek d (f_dir f))) d)

pub file_set_size-NeverFails : (f : Place) (n : ℕ) (d : Disk) → NeverFails (file_set_size f n d)
unfolding file_set_size
file_set_size-NeverFails f n d =
    seq-NeverFails (if ltb n (peek d (f_size f)) then file_truncate f n else pure tt) _ d
      (if-NeverFails (ltb n (peek d (f_size f))) (file_truncate f n) (pure tt) d
        (file_truncate-NeverFails f n d) tt)
      (λ t. flush_dir-NeverFails f (poke (f_size f) n t))

pub fs_sync-NeverFails : (d : Disk) → NeverFails (fs_sync d)
unfolding fs_sync
fs_sync-NeverFails d =
    for_from-NeverFails d.nblocks 0 _ d (λ b t. write_dirty b t (block_is_dirty t b))
