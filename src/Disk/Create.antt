-- ===== src/Disk/Create.antt =====
-- A file that is created in a directory is the one that the directory is then searched for.
use mathlib.Core.Path.{subst}
use buaa_os_challenge.Base.{
  ℕ, ◌+◌, ◌*◌, ◌/◌, ◌%◌, ◌<◌, ◌≡◌, ◌≢◌, ap, sym, ◌∙◌, true, false, List, [], ◌∷◌, length, ltb, ◌==◌,
  arith, Bool-cases, inl, inr,
}
use buaa_os_challenge.Base.Monad.{ret}
use buaa_os_challenge.Bytes.Ended.{StringAt}
use buaa_os_challenge.Disk.{Disk, Place, peek, poke, f_size, f_dir, file_get_block}
use buaa_os_challenge.Disk.Directory.{name_byte, address, dir_lookup, dir_alloc_file}
use buaa_os_challenge.Disk.Paths.{absent, store_name, create_at, named}
use buaa_os_challenge.Disk.Search.{entry}
use buaa_os_challenge.Disk.Lookup.{
  IsText, HasName, is_unused, false≢true, dir_lookup_lem, dir_alloc_file_lem,
}
use buaa_os_challenge.Disk.Naming.{Apart, store_name-HasName}

-- Two different files of a directory, whose blocks are different.
entry-Apart :
    (blocks : ℕ → ℕ) (i j : ℕ)
    → i ≢ j
    → (blocks (i / 16) ≡ blocks (j / 16) → i / 16 ≡ j / 16)
    → Apart (entry blocks i) (entry blocks j)
entry-Apart blocks i j ne inj = elim (Bool-cases (blocks (i / 16) == blocks (j / 16))) [
  | inr far ↦ inl (λ e. ground arith)
  | inl near ↦
      let e : i / 16 ≡ j / 16 = inj (ground arith) in
      elim (Bool-cases (ltb (i % 16) (j % 16))) [
        | inl lt ↦ let l : i % 16 < j % 16 = ground arith in inr (inl (omega arith))
        | inr ge ↦ let l : ¬ (i % 16 < j % 16) = ground arith in inr (inr (omega arith))
      ]
]

StringAt-same :
    (f g : ℕ → ℕ) (s : ℕ) (t : List ℕ)
    → s + length t < 128
    → ((k : ℕ) → k < 128 → f k ≡ g k)
    → StringAt f s t
    → StringAt g s t
StringAt-same f g s [] lt e h = sym (e s (omega arith)) ∙ h
StringAt-same f g s (c ∷ t) lt e (b, nz, fits, rest) =
    (sym (e s (omega arith)) ∙ b, nz, fits, StringAt-same f g (s + 1) t (omega arith) e rest)

-- dir_alloc_file returns the file that is known to be the first unused one.
first_unused :
    (d : Disk) (dir : Place) (blocks : ℕ → ℕ) (n j : ℕ)
    → peek d (f_size dir) / 4096 ≡ n
    → ((k : ℕ) → k < n → file_get_block dir k d ≡ ret (blocks k) d)
    → j < 16 * n
    → is_unused d (entry blocks j) ≡ true
    → ((k : ℕ) → k < j → is_unused d (entry blocks k) ≡ false)
    → dir_alloc_file dir d ≡ ret (entry blocks j) d
first_unused d dir blocks n j size present below unused first =
    elim (dir_alloc_file_lem d dir blocks (λ k lt. present k (omega (arith, size)))) [
      | inl (i, l, y, before, e) ↦
          let le : ¬ (i < j) = λ lt. absurd (false≢true (sym (first i lt) ∙ y)) in
          let ge : ¬ (j < i) = λ lt. absurd (false≢true (sym (before j lt) ∙ unused)) in
          let eq : i ≡ j = omega arith in
          subst (λ (k : ℕ). dir_alloc_file dir d ≡ ret (entry blocks k) d) eq e
      | inr (never, _) ↦ absurd (false≢true (sym (never j (omega (arith, size))) ∙ unused))
    ]

-- dir_lookup returns the only file with the name.
only_new :
    (d' : Disk) (dir : Place) (name : List ℕ) (blocks : ℕ → ℕ) (n j : ℕ)
    → IsText name
    → length name < 128
    → peek d' (f_size dir) / 4096 ≡ n
    → ((k : ℕ) → k < n → file_get_block dir k d' ≡ ret (blocks k) d')
    → j < 16 * n
    → HasName d' (entry blocks j) name
    → ((k : ℕ) → k ≢ j → k < 16 * n → ¬ HasName d' (entry blocks k) name)
    → dir_lookup dir name d' ≡ ret (entry blocks j) (poke (f_dir (entry blocks j)) (address dir) d')
only_new d' dir name blocks n j w lt size after below here others =
    elim (dir_lookup_lem d' dir name blocks w lt (λ k l. after k (omega (arith, size)))) [
      | inl (i, l, y, before, e) ↦ elim (Bool-cases (i == j)) [
        | inr ne ↦ absurd (others i (λ q. ground arith) (omega (arith, size)) y)
        | inl s ↦
            let eq : i ≡ j = ground arith in
            subst
              (λ (k : ℕ).
                dir_lookup dir name d'
                ≡ ret (entry blocks k) (poke (f_dir (entry blocks k)) (address dir) d'))
              eq e
      ]
      | inr (never, _) ↦ absurd (never j (omega (arith, size)) here)
    ]

-- In a directory whose blocks are different and can be read, as they are, without a change of the
-- state, before and after, that has an unused file and none with a name of at most 127 bytes:
-- file_create gives the name to the first unused file of it, and dir_lookup of the name then finds
-- this file. (The size of the directory is the same after.)
pub create_at-dir_lookup :
    (d : Disk) (dir : Place) (name : List ℕ) (blocks : ℕ → ℕ) (n j : ℕ)
    → IsText name
    → length name < 128
    → peek d (f_size dir) / 4096 ≡ n
    → ((k : ℕ) → k < n → file_get_block dir k d ≡ ret (blocks k) d)
    → ((i k : ℕ) → i < n → k < n → blocks i ≡ blocks k → i ≡ k)
    → ((k : ℕ) → k < 16 * n → ¬ HasName d (entry blocks k) name)
    → j < 16 * n
    → is_unused d (entry blocks j) ≡ true
    → ((k : ℕ) → k < j → is_unused d (entry blocks k) ≡ false)
    → peek (store_name (entry blocks j) 0 name d) (f_size dir) ≡ peek d (f_size dir)
    → ((k : ℕ)
        → k < n
        → file_get_block dir k (store_name (entry blocks j) 0 name d)
          ≡ ret (blocks k) (store_name (entry blocks j) 0 name d))
    → (create_at (absent dir name) d ≡ ret (entry blocks j) (store_name (entry blocks j) 0 name d))
      × (dir_lookup dir name (store_name (entry blocks j) 0 name d)
          ≡ ret
              (entry blocks j)
              (poke (f_dir (entry blocks j)) (address dir) (store_name (entry blocks j) 0 name d)))
create_at-dir_lookup d dir name blocks n j w lt size present distinct new below unused first same
      after =
    let d' = store_name (entry blocks j) 0 name d in
    (
      ap (named name) (first_unused d dir blocks n j size present below unused first),
      only_new d' dir name blocks n j w lt (ap (λ (s : ℕ). s / 4096) same ∙ size) after below
          (store_name-HasName d (entry blocks j) name w lt).0
          (λ k ne kn h. new k kn (
            StringAt-same (name_byte d' (entry blocks k)) (name_byte d (entry blocks k)) 0 name
              (omega arith)
              (λ i lt'.
                (store_name-HasName d (entry blocks j) name w lt).1 (entry blocks k) i
                  (entry-Apart blocks j k (λ e. ne (sym e))
                    (λ e. distinct (j / 16) (k / 16) (omega arith) (omega arith) e))
                  lt')
              h)),
    )
