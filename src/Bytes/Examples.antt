-- ===== src/Bytes/Examples.antt =====
-- A copy of six bytes between addresses that are aligned alike, and six bytes filled.
use buaa_os_challenge.Base.Int.{pos}
use buaa_os_challenge.Bytes.Strings.{strcmp, strcpy, strlen, strchr}
use buaa_os_challenge.Bytes.Ended.{StringAt, compare_strings, position, strcmp_lem, strcpy_lem}
use buaa_os_challenge.Base.{
  refl, inr, ◌↔◌, ℕ, List, ◌∷◌, [], some, false, arith, get_or, ◌≡◌, ◌+◌, ◌&&◌, leb,
}
use buaa_os_challenge.Bytes.{copy_bytes, memcpy}
use buaa_os_challenge.Bytes.Copy.{memcpy-copy_bytes}

memcpy-copy_bytes_example : memcpy 6 2 6 (λ a. a + 1) ≡ copy_bytes 6 6 2 (λ a. a + 1)
memcpy-copy_bytes_example = memcpy-copy_bytes 6 2 6 (λ a. a + 1)

-- two strings with their zeros
abbrev text_a : List ℕ
text_a = b'l' ∷ b's' ∷ []

abbrev text_b : List ℕ
text_b = b'l' ∷ b'u' ∷ []

abbrev name_a : ℕ → ℕ
name_a i = get_or text_a i 0

abbrev name_b : ℕ → ℕ
name_b i = get_or text_b i 0

strcmp_lem_example :
    (strcmp 3 name_a 0 name_b 0 ≡ some (compare_strings text_a text_b))
    × ((strcmp 3 name_a 0 name_b 0 ≡ some (pos 0)) ↔ (text_a ≡ text_b))
strcmp_lem_example =
    strcmp_lem 3 0 0 name_a name_b text_a text_b
      (refl, omega arith, omega arith, (refl, omega arith, omega arith, refl))
      (refl, omega arith, omega arith, (refl, omega arith, omega arith, refl)) (omega arith)

strcpy_lem_example :
    (m' : ℕ → ℕ) × (strcpy 3 8 0 name_a ≡ some m')
    × StringAt m' 8 text_a
    × ((a : ℕ) → leb 8 a && leb a (8 + 2) ≡ false → m' a ≡ name_a a)
    × (strlen 3 8 m' ≡ some 2)
    × ((c : ℕ) → strchr 3 8 c m' ≡ some (position 8 c text_a))
strcpy_lem_example =
    strcpy_lem 3 8 0 name_a text_a
      (refl, omega arith, omega arith, (refl, omega arith, omega arith, refl)) (omega arith)
      (inr (omega arith))
