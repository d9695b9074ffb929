-- ===== src/Disk/Paths.antt =====
-- Paths of fs/fs.c: walk_path and the calls that begin with it.
use buaa_os_challenge.Base.{
  ℕ, zero, suc, ◌+◌, Bool, true, false, not, List, [], ◌∷◌, Option, none, some, length, leb, ◌==◌,
  if◌then◌else◌,
}
use buaa_os_challenge.Base.Errors.{not_found, bad_path, file_exists}
use buaa_os_challenge.Base.Monad.{
  Run, ret, fail, panic, M, pure, throw, modify, throw_if, and_then, ◌>>=◌, ◌>>◌,
}
use buaa_os_challenge.Disk.{Disk, Place, peek, file_truncate, file_flush, flush_dir}
use buaa_os_challenge.Disk.Directory.{f_type, root, set_name_byte, dir_lookup, dir_alloc_file}

-- How walk_path ends, but for other errors: `*pdir` and `*pfile`; or E_NOT_FOUND with `*pdir` and
-- the name in `lastelem`.
pub data Walk : Type 0 where
  found : Option Place → Place → Walk
  absent : Place → List ℕ → Walk

-- skip_slash
abbrev pub skip_slash : List ℕ → List ℕ
skip_slash [] = []
skip_slash (c ∷ s) = let rest = skip_slash s in if c == b'/' then rest else c ∷ s

-- the bytes before the next '/', and the rest from it on
abbrev pub take_name : List ℕ → List ℕ × List ℕ
take_name [] = ([], [])
take_name (c ∷ s) =
    let (name, rest) = take_name s in if c == b'/' then ([], c ∷ s) else (c ∷ name, rest)

-- `*path == '\0'`
abbrev pub is_end : List ℕ → Bool
is_end [] = true
is_end (c ∷ s) = false

-- The outcome of dir_lookup, for the last name of a path and for others.
abbrev pub looked_up :
    Place → List ℕ → Bool → Run Disk Place → (Place → M Disk Walk) → Run Disk Walk
looked_up dir name last (ret f d) next = next f d
looked_up dir name true (fail not_found d) next = ret (absent dir name) d
looked_up dir name last (fail e d) next = fail e d
looked_up dir name last panic next = panic

-- A round of walk_path behind the copy of the name, with the rounds that follow.
unfoldable pub walk_name : Place → List ℕ → Bool → (Place → M Disk Walk) → M Disk Walk
walk_name file name last next d = and_then (throw_if (leb 128 (length name)) bad_path d) (λ _ d.
    and_then (throw_if (not (peek d (f_type file) == 1)) not_found d)
      (λ _ d. looked_up file name last (dir_lookup file name d) next))

abbrev pub walk_round :
    (List ℕ → Option Place → Place → M Disk Walk) → List ℕ → Option Place → Place → M Disk Walk
walk_round later [] dir file d = ret (found dir file) d
walk_round later (c ∷ s) dir file d =
    let (name, rest) = take_name (c ∷ s) in
    let path = skip_slash rest in walk_name file name (is_end path) (later path (some file)) d

-- The loop of walk_path, by a bound on its rounds.
unfoldable pub walk_from : ℕ → List ℕ → Option Place → Place → M Disk Walk
walk_from zero path dir file d = panic
walk_from (suc n) path dir file d = walk_round (walk_from n) path dir file d

-- walk_path: a round takes at least one byte of the path
unfoldable pub walk_path : List ℕ → M Disk Walk
unfolding walk_from
walk_path path d = walk_from (suc (length path)) (skip_slash path) none root d

-- `walk_path(path, 0, &f, 0)`
abbrev pub the_file : Walk → M Disk Place
the_file (found dir f) = pure f
the_file (absent dir name) = throw not_found

-- file_open
unfoldable pub file_open : List ℕ → M Disk Place
unfolding walk_path
file_open path = walk_path path >>= the_file

-- `strcpy(f->f_name, name)`
unfoldable pub store_name : Place → ℕ → List ℕ → Disk → Disk
store_name f k [] d = set_name_byte f k 0 d
store_name f k (c ∷ s) d = store_name f (k + 1) s (set_name_byte f k c d)

-- What file_create does with the outcome of dir_alloc_file: its error is passed over.
abbrev pub named : List ℕ → Run Disk Place → Run Disk Place
named name (ret f d) = ret f (store_name f 0 name d)
named name (fail e d) = fail not_found d
named name panic = panic

-- file_create, after walk_path
abbrev pub create_at : Walk → M Disk Place
create_at (found dir f) d = fail file_exists d
create_at (absent dir name) d = named name (dir_alloc_file dir d)

unfoldable pub file_create : List ℕ → M Disk Place
unfolding walk_path store_name
file_create path = walk_path path >>= create_at

-- file_remove
unfoldable pub file_remove : List ℕ → M Disk (Unit {0})
unfolding walk_path
file_remove path = do
  w ← walk_path path
  f ← the_file w
  file_truncate f 0
  modify (set_name_byte f 0 0)
  file_flush f
  flush_dir f
