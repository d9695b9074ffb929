-- ===== src/Disk/Examples.antt =====
-- A small disk: of its 8 blocks 5, 6 and 7 are free. The root directory stands in block 1; its size
-- asks for 13 blocks, of which it has none. Block 4 is in the cache and dirty.
use buaa_os_challenge.Base.Bits.{all_below, all_below_sound}
use buaa_os_challenge.Base.{
  zero, suc, List, [], ◌∷◌, not, none, ℕ, ◌*◌, ◌/◌, ◌<◌, ◌≤◌, ◌≡◌, ◌≢◌, ◌⊎◌, refl, true, false,
  arith, update, ◌==◌, ltb,
}
use buaa_os_challenge.Base.BitSet.{has_bit}
use buaa_os_challenge.Base.Errors.{no_disk, not_found}
use buaa_os_challenge.Base.Monad.{ret, fail, panic}
use buaa_os_challenge.Disk.{
  Disk, peek, poke, block_is_free, read_block, f_direct, file_map_block, file_truncate,
}
use buaa_os_challenge.Disk.{file_get_block, file_block_walk, f_size, f_dir}
use buaa_os_challenge.Disk.Directory.{root, name_byte, address, dir_lookup}
use buaa_os_challenge.Disk.Paths.{absent, store_name, create_at, walk_path}
use buaa_os_challenge.Disk.Search.{entry}
use buaa_os_challenge.Disk.Lookup.{HasName, dir_lookup_lem, is_unused}
use buaa_os_challenge.Disk.Create.{create_at-dir_lookup}
use buaa_os_challenge.Disk.Walking.{components, walk_names, walk_path-components}
use buaa_os_challenge.Disk.Bitmap.{BitmapMapped}
use buaa_os_challenge.Disk.Blocks.{file_map_block-file_map_block, file_truncate-sparse}

abbrev disk : Disk
disk = record {
  nblocks = 8;
  cache = update (update (λ _ _. 0) 2 (update (λ _. 0) 0 224)) 1 (update (λ _. 0) 34 50000);
  mapped = λ b. ltb b 5;
  dirty = λ b. b == 4;
  sectors = λ _ _. 0;
  pages = 3;
}

disk-BitmapMapped : BitmapMapped disk
disk-BitmapMapped b lt = ground arith

five_free : block_is_free disk 5 ≡ true
unfolding has_bit
five_free = refl

four_used : block_is_free disk 4 ≡ false
unfolding has_bit
four_used = refl

file_map_block-file_map_block_example :
    ((b : ℕ) × (d' : Disk) × (file_map_block root 0 true disk ≡ ret b d')
      × (file_map_block root 0 false d' ≡ ret b d')
      × (b ≢ 0)
      × (((peek disk (f_direct root 0) ≢ 0) × (b ≡ peek disk (f_direct root 0)) × (d' ≡ disk))
          ⊎ ((peek disk (f_direct root 0) ≡ 0)
              × (3 ≤ b)
              × (b < 8)
              × (block_is_free disk b ≡ true))))
    ⊎ ((file_map_block root 0 true disk ≡ fail no_disk disk)
        × (peek disk (f_direct root 0) ≡ 0)
        × ((j : ℕ) → 3 ≤ j → j < 8 → block_is_free disk j ≡ false))
file_map_block-file_map_block_example =
    file_map_block-file_map_block disk root 0 (omega arith) disk-BitmapMapped (omega arith)

file_truncate-sparse_example : file_truncate root 40000 disk ≡ panic
file_truncate-sparse_example =
    file_truncate-sparse disk root 40000 refl (omega arith) refl (λ e. ground arith)

-- A root directory of one block, block 4, whose first file is called "a".
abbrev shelf : Disk
shelf = record disk {
  cache =
      update
        (update (update (λ _ _. 0) 1 (update (update (update (λ _. 0) 34 4096) 35 1) 36 4)) 4
          (update (λ _. 0) 0 97))
        2 (update (λ _. 0) 0 224);
}

readable : (k : ℕ) → k < 1 → file_get_block root k shelf ≡ ret 4 shelf
unfolding file_get_block file_map_block file_block_walk read_block has_bit
readable zero lt = refl
readable (suc k) lt = absurd (omega arith)

name_b : List ℕ
name_b = b'b' ∷ []

no_b : (k : ℕ) → k < 16 → ¬ HasName shelf (entry (λ _. 4) k) name_b
unfolding name_b all_below
no_b k lt (e, _, _, _) =
    let test =
      all_below_sound 16 (λ k. not (name_byte shelf (entry (λ _. 4) k) 0 == 98)) k refl lt in
    ground arith

named_b-f_size :
    peek (store_name (entry (λ _. 4) 1) 0 name_b shelf) (f_size root) ≡ peek shelf (f_size root)
unfolding store_name name_b
named_b-f_size = refl

named_b-readable :
    (k : ℕ)
    → k < 1
    → file_get_block root k (store_name (entry (λ _. 4) 1) 0 name_b shelf)
      ≡ ret 4 (store_name (entry (λ _. 4) 1) 0 name_b shelf)
unfolding file_get_block file_map_block file_block_walk read_block has_bit store_name name_b
named_b-readable zero lt = refl
named_b-readable (suc k) lt = absurd (omega arith)

first_used : (k : ℕ) → k < 1 → is_unused shelf (entry (λ _. 4) k) ≡ false
first_used zero lt = refl
first_used (suc k) lt = absurd (omega arith)

create_at-dir_lookup_example :
    (create_at (absent root name_b) shelf
      ≡ ret (entry (λ _. 4) 1) (store_name (entry (λ _. 4) 1) 0 name_b shelf))
    × (dir_lookup root name_b (store_name (entry (λ _. 4) 1) 0 name_b shelf)
        ≡ ret (entry (λ _. 4) 1) (
            poke
              (f_dir (entry (λ _. 4) 1))
              (address root)
              (store_name (entry (λ _. 4) 1) 0 name_b shelf)))
unfolding name_b
create_at-dir_lookup_example =
    create_at-dir_lookup shelf root name_b (λ _. 4) 1 1 (omega arith, omega arith, tt) (omega arith)
      refl readable (λ i k l l' e. omega arith) no_b (omega arith) refl first_used named_b-f_size
      named_b-readable

dir_lookup_lem_example :
    ((j : ℕ) × (j < 16 * (peek shelf (f_size root) / 4096))
      × HasName shelf (entry (λ _. 4) j) (b'a' ∷ [])
      × ((k : ℕ) → k < j → ¬ HasName shelf (entry (λ _. 4) k) (b'a' ∷ []))
      × (dir_lookup root (b'a' ∷ []) shelf
          ≡ ret (entry (λ _. 4) j) (poke (f_dir (entry (λ _. 4) j)) (address root) shelf)))
    ⊎ (((k : ℕ)
          → k < 16 * (peek shelf (f_size root) / 4096)
          → ¬ HasName shelf (entry (λ _. 4) k) (b'a' ∷ []))
        × (dir_lookup root (b'a' ∷ []) shelf ≡ fail not_found shelf))
dir_lookup_lem_example =
    dir_lookup_lem shelf root (b'a' ∷ []) (λ _. 4) (omega arith, omega arith, tt) (omega arith)
      readable

walk_path-components_example :
    walk_path (b'/' ∷ b'/' ∷ b'a' ∷ b'/' ∷ []) shelf
    ≡ walk_names (components (b'/' ∷ b'/' ∷ b'a' ∷ b'/' ∷ [])) none root shelf
walk_path-components_example = walk_path-components (b'/' ∷ b'/' ∷ b'a' ∷ b'/' ∷ []) shelf

slashes : components (b'/' ∷ b'/' ∷ b'a' ∷ b'/' ∷ []) ≡ (b'a' ∷ []) ∷ []
slashes = refl
