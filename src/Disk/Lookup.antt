-- ===== src/Disk/Lookup.antt =====
-- dir_lookup and dir_alloc_file find the first file of a directory that has the name, or none.
use mathlib.Core.Path.{subst}
use buaa_os_challenge.Base.{
  ℕ, zero, suc, ◌+◌, ◌*◌, ◌/◌, ◌%◌, ◌^◌, ◌<◌, ◌≡◌, ◌≢◌, ◌⊎◌, ◌↔◌, refl, ap, sym, ◌∙◌, Bool, true,
  false, List, [], ◌∷◌, Option, none, some, get_or, length, ◌==◌, arith, inl, inr,
}
use buaa_os_challenge.Base.Int.{ℤ, pos, negsuc}
use buaa_os_challenge.Base.Errors.{not_found}
use buaa_os_challenge.Base.Monad.{ret, fail, and_then}
use buaa_os_challenge.Bytes.Ended.{StringAt, strcmp-zero}
use buaa_os_challenge.Disk.{Disk, Place, peek, poke, f_size, f_dir, file_get_block}
use buaa_os_challenge.Disk.Search.{Search, Search-step, entry, Outcome, block_step}
use buaa_os_challenge.Disk.Directory.{
  name_byte, slot, address, is_zero, same_name, search_file, lookup_from, dir_lookup, search_free,
  grow, alloc_from, dir_alloc_file,
}

-- bytes other than zero
abbrev pub IsText : List ℕ → Type 0
IsText [] = Unit
IsText (c ∷ s) = (0 < c) × (c < 256) × IsText s

StringAt-list :
    (f : ℕ → ℕ) (s : ℕ) (t : List ℕ)
    → ((k : ℕ) → f (s + k) ≡ get_or t k 0)
    → IsText t
    → StringAt f s t
StringAt-list f s [] h w = let e : s + 0 ≡ s = omega arith in ap f (sym e) ∙ h 0
StringAt-list f s (c ∷ t) h (nz, fits, w) =
    let e : s + 0 ≡ s = omega arith in
    let shifted : (k : ℕ) → f (s + 1 + k) ≡ get_or t k 0 =
      λ k. let e' : s + 1 + k ≡ s + suc k = omega arith in ap f e' ∙ h (suc k) in
    (ap f (sym e) ∙ h 0, nz, fits, StringAt-list f (s + 1) t shifted w)

-- A file has a name.
abbrev pub HasName : Disk → Place → List ℕ → Type 0
HasName d f name = StringAt (name_byte d f) 0 name

is_zero-some : (o : Option ℤ) → is_zero o ≡ true → o ≡ some (pos 0)
is_zero-some none h = cc
is_zero-some (some (pos n)) h = let e : n ≡ 0 = ground arith in ap (λ (k : ℕ). some (pos k)) e
is_zero-some (some (negsuc n)) h = cc

pub false≢true : false ≢ true
false≢true = λ e. cc

same_name-HasName :
    (d : Disk) (name : List ℕ) (f : Place)
    → IsText name
    → length name < 128
    → (same_name d name f ≡ true) ↔ HasName d f name
unfolding same_name
same_name-HasName d name f w lt =
    let here : StringAt (λ k. get_or name k 0) 0 name =
      StringAt-list (λ k. get_or name k 0) 0 name
        (λ k. let e : 0 + k ≡ k = omega arith in ap (λ (j : ℕ). get_or name j 0) e) w in
    let (there, back) =
      strcmp-zero 128 0 0 (λ k. get_or name k 0) (name_byte d f) name here (λ i. omega arith) lt in
    (λ h. there (is_zero-some _ h), λ h. ap is_zero (back h))

search_file_lem :
    (n i b : ℕ) (name : List ℕ) (d : Disk)
    → Search (λ k. same_name d name (slot b k)) (slot b) i (i + n) (search_file n i b name d)
unfolding search_file
search_file_lem zero i b name d = inr (λ k l u. absurd (omega arith), refl)
search_file_lem (suc n) i b name d =
    Search-step (λ k. same_name d name (slot b k)) (slot b) i n (search_file n (i + 1) b name d)
      (search_file_lem n (i + 1) b name d)

lookup_from_lem :
    (d : Disk) (dir : Place) (name : List ℕ) (blocks : ℕ → ℕ) (n i : ℕ)
    → ((k : ℕ) → k < i + n → file_get_block dir k d ≡ ret (blocks k) d)
    → Outcome blocks
        (same_name d name)
        (16 * i)
        (16 * (i + n))
        (λ f. ret f (poke (f_dir f) (address dir) d))
        (fail not_found d)
        (lookup_from n i dir name d)
unfolding lookup_from
lookup_from_lem d dir name blocks zero i h = inr (λ k l u. absurd (omega arith), refl)
lookup_from_lem d dir name blocks (suc n) i h =
    let get = h i (omega arith) in
    block_step blocks (same_name d name) i n (λ f. ret f (poke (f_dir f) (address dir) d))
      (fail not_found d) (lookup_from n (i + 1) dir name d) _ (search_file 16 0 (blocks i) name d)
      (search_file_lem 16 0 (blocks i) name d) (λ f e. rw (get, e)) (λ e. rw (get, e))
      (lookup_from_lem d dir name blocks n (i + 1) (λ k lt. h k (omega arith)))

-- In a directory whose blocks can be read, as they are, from the cache or the disk without a change
-- of the state, dir_lookup of a name of at most 127 bytes finds the first file that has the name,
-- and makes the directory that file's f_dir; or no file of the directory has the name, and
-- dir_lookup fails with E_NOT_FOUND and changes nothing.
pub dir_lookup_lem :
    (d : Disk) (dir : Place) (name : List ℕ) (blocks : ℕ → ℕ)
    → IsText name
    → length name < 128
    → ((k : ℕ) → k < peek d (f_size dir) / 4096 → file_get_block dir k d ≡ ret (blocks k) d)
    → ((j : ℕ) × (j < 16 * (peek d (f_size dir) / 4096))
        × HasName d (entry blocks j) name
        × ((k : ℕ) → k < j → ¬ HasName d (entry blocks k) name)
        × (dir_lookup dir name d
            ≡ ret (entry blocks j) (poke (f_dir (entry blocks j)) (address dir) d)))
      ⊎ (((k : ℕ) → k < 16 * (peek d (f_size dir) / 4096) → ¬ HasName d (entry blocks k) name)
          × (dir_lookup dir name d ≡ fail not_found d))
unfolding dir_lookup
dir_lookup_lem d dir name blocks w lt present =
    let n = peek d (f_size dir) / 4096 in
    let differs : (f : Place) → same_name d name f ≡ false → ¬ HasName d f name =
      λ f e h. absurd (false≢true (sym e ∙ (same_name-HasName d name f w lt).1 h)) in
    elim (lookup_from_lem d dir name blocks n 0 (λ k l. present k (omega arith))) [
      | inl (j, (l, u, y, before), e) ↦ inl (
        j,
        omega arith,
        (same_name-HasName d name (entry blocks j) w lt).0 y,
        λ k l'. differs (entry blocks k) (before k (omega arith) l'),
        e,
      )
      | inr (never, e) ↦
          inr (λ k l. differs (entry blocks k) (never k (omega arith) (omega arith)), e)
    ]

-- the first byte of the name is zero
abbrev pub is_unused : Disk → Place → Bool
is_unused d f = name_byte d f 0 == 0

search_free_lem :
    (n i b : ℕ) (d : Disk)
    → Search (λ k. is_unused d (slot b k)) (slot b) i (i + n) (search_free n i b d)
unfolding search_free
search_free_lem zero i b d = inr (λ k l u. absurd (omega arith), refl)
search_free_lem (suc n) i b d =
    Search-step (λ k. is_unused d (slot b k)) (slot b) i n (search_free n (i + 1) b d)
      (search_free_lem n (i + 1) b d)

alloc_from_lem :
    (d : Disk) (dir : Place) (blocks : ℕ → ℕ) (n i : ℕ)
    → ((k : ℕ) → k < i + n → file_get_block dir k d ≡ ret (blocks k) d)
    → Outcome blocks
        (is_unused d)
        (16 * i)
        (16 * (i + n))
        (λ f. ret f d)
        (grow (i + n) dir d)
        (alloc_from n i dir d)
unfolding alloc_from
alloc_from_lem d dir blocks zero i h =
    let e : i + 0 ≡ i = omega arith in
    inr (λ k l u. absurd (omega arith), ap (λ (k : ℕ). grow k dir d) (sym e))
alloc_from_lem d dir blocks (suc n) i h =
    let get = h i (omega arith) in
    let e : i + suc n ≡ i + 1 + n = omega arith in
    let rest = alloc_from_lem d dir blocks n (i + 1) (λ k lt. h k (omega arith)) in
    subst
      (λ (m : ℕ).
        Outcome blocks (is_unused d) (16 * i) (16 * (i + suc n)) (λ f. ret f d) (grow m dir d)
          (alloc_from (suc n) i dir d))
      (sym e)
      (block_step blocks (is_unused d) i n (λ f. ret f d) (grow (i + 1 + n) dir d)
        (alloc_from n (i + 1) dir d) _ (search_free 16 0 (blocks i) d)
        (search_free_lem 16 0 (blocks i) d) (λ f e. rw (get, e)) (λ e. rw (get, e)) rest)

-- In a directory whose blocks can be read, as they are, without a change of the state,
-- dir_alloc_file returns the first unused file and changes nothing; or all of its files are used,
-- and dir_alloc_file adds 4096 to the size of the directory and returns the first file of the block
-- behind, or the error of file_get_block, with the size that was set.
pub dir_alloc_file_lem :
    (d : Disk) (dir : Place) (blocks : ℕ → ℕ)
    → ((k : ℕ) → k < peek d (f_size dir) / 4096 → file_get_block dir k d ≡ ret (blocks k) d)
    → ((j : ℕ) × (j < 16 * (peek d (f_size dir) / 4096))
        × (is_unused d (entry blocks j) ≡ true)
        × ((k : ℕ) → k < j → is_unused d (entry blocks k) ≡ false)
        × (dir_alloc_file dir d ≡ ret (entry blocks j) d))
      ⊎ (((k : ℕ) → k < 16 * (peek d (f_size dir) / 4096) → is_unused d (entry blocks k) ≡ false)
          × (dir_alloc_file dir d
              ≡ and_then
                  (file_get_block dir
                    (peek d (f_size dir) / 4096)
                    (poke (f_size dir) ((peek d (f_size dir) + 4096) % 2 ^ 32) d))
                  (λ b d. ret (slot b 0) d)))
unfolding dir_alloc_file grow
dir_alloc_file_lem d dir blocks present =
    let n = peek d (f_size dir) / 4096 in
    elim (alloc_from_lem d dir blocks n 0 (λ k l. present k (omega arith))) [
      | inl (j, (l, u, y, before), e) ↦
          inl (j, omega arith, y, λ k l'. before k (omega arith) l', e)
      | inr (never, e) ↦
          let z : 0 + n ≡ n = omega arith in
          inr (λ k l. never k (omega arith) (omega arith), e ∙ ap (λ (k : ℕ). grow k dir d) z)
    ]
