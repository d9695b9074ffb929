-- ===== src/Disk/Directory.antt =====
-- Directories and paths of fs/fs.c. A directory is a file of `struct File`s, 16 of them in a block
-- of 1024 words; the name of each is its first 32 words, as bytes with the lowest byte of a word
-- first. Names and paths that come from outside are lists of bytes without the zero at their end.
use buaa_os_challenge.Base.{
  ℕ, zero, suc, ◌+◌, ◌-◌, ◌*◌, ◌/◌, ◌%◌, ◌^◌, Bool, false, List, Option, none, some, get_or, ◌==◌,
  if◌then◌else◌,
}
use buaa_os_challenge.Base.Int.{ℤ, pos}
use buaa_os_challenge.Base.Errors.{not_found}
use buaa_os_challenge.Base.Monad.{ret, fail, M, pure, get, modify, and_then, ◌>>=◌, ◌>>◌}
use buaa_os_challenge.Bytes.Strings.{strcmp}
use buaa_os_challenge.Disk.{Disk, Place, peek, poke, at, f_size, f_dir, file_get_block}

abbrev pub byte_of : ℕ → ℕ → ℕ
byte_of w j = w / 256 ^ j % 256

abbrev pub set_byte : ℕ → ℕ → ℕ → ℕ
set_byte w j b = w - byte_of w j * 256 ^ j + b * 256 ^ j

-- `f->f_name[k]`
abbrev pub name_byte : Disk → Place → ℕ → ℕ
name_byte d f k = byte_of (peek d (at f (k / 4))) (k % 4)

-- `f->f_name[k] = b`
abbrev pub set_name_byte : Place → ℕ → ℕ → Disk → Disk
set_name_byte f k b d = poke (at f (k / 4)) (set_byte (peek d (at f (k / 4))) (k % 4) b) d

abbrev pub f_type : Place → Place
f_type f = at f 33

-- `files + i` of a block
abbrev pub slot : ℕ → ℕ → Place
slot b i = record { block = b; index = 64 * i }

-- `&super->s_root`
abbrev pub root : Place
root = record { block = 1; index = 2 }

-- the address of a place
abbrev pub address : Place → ℕ
address f = 0x1000_0000 + f.block * 4096 + f.index * 4

abbrev pub is_zero : Option ℤ → Bool
is_zero (some (pos n)) = n == 0
is_zero _ = false

-- `strcmp(name, f->f_name) == 0`, for a name below MAXNAMELEN
unfoldable pub same_name : Disk → List ℕ → Place → Bool
same_name d name f = is_zero (strcmp 128 (λ k. get_or name k 0) 0 (name_byte d f) 0)

-- The loop of dir_lookup over the files of a block, with `n` of them left.
unfoldable pub search_file : ℕ → ℕ → ℕ → List ℕ → Disk → Option Place
search_file zero i b name d = none
search_file (suc n) i b name d =
    let more = search_file n (i + 1) b name d in
    if same_name d name (slot b i) then some (slot b i) else more

-- What dir_lookup does after the files of a block.
abbrev pub or_later : Place → Option Place → M Disk Place → M Disk Place
or_later dir (some f) later = do modify (poke (f_dir f) (address dir)); pure f
or_later dir none later = later

-- The loop of dir_lookup over the blocks of the directory, with `n` of them left.
unfoldable pub lookup_from : ℕ → ℕ → Place → List ℕ → M Disk Place
lookup_from zero i dir name d = fail not_found d
lookup_from (suc n) i dir name d =
    and_then (file_get_block dir i d)
      (λ b d. or_later dir (search_file 16 0 b name d) (lookup_from n (i + 1) dir name) d)

-- dir_lookup
unfoldable pub dir_lookup : Place → List ℕ → M Disk Place
unfolding lookup_from
dir_lookup dir name d = lookup_from (peek d (f_size dir) / 4096) 0 dir name d

-- The loop of dir_alloc_file over the files of a block.
unfoldable pub search_free : ℕ → ℕ → ℕ → Disk → Option Place
search_free zero i b d = none
search_free (suc n) i b d =
    let more = search_free n (i + 1) b d in
    if name_byte d (slot b i) 0 == 0 then some (slot b i) else more

abbrev pub or_next : Option Place → M Disk Place → M Disk Place
or_next (some f) next d = ret f d
or_next none next d = next d

-- The directory grows by one block, of the number `i`.
unfoldable pub grow : ℕ → Place → M Disk Place
grow i dir = do
  d ← get
  modify (poke (f_size dir) ((peek d (f_size dir) + 4096) % 2 ^ 32))
  b ← file_get_block dir i
  pure (slot b 0)

-- The loop of dir_alloc_file over the blocks.
unfoldable pub alloc_from : ℕ → ℕ → Place → M Disk Place
unfolding grow
alloc_from zero i dir d = grow i dir d
alloc_from (suc n) i dir d =
    and_then (file_get_block dir i d)
      (λ b d. or_next (search_free 16 0 b d) (alloc_from n (i + 1) dir) d)

-- dir_alloc_file
unfoldable pub dir_alloc_file : Place → M Disk Place
unfolding alloc_from
dir_alloc_file dir d = alloc_from (peek d (f_size dir) / 4096) 0 dir d
