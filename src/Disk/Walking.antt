-- ===== src/Disk/Walking.antt =====
-- walk_path goes through the names of a path, whatever slashes stand between them.
use buaa_os_challenge.Base.{
  ℕ, zero, suc, ◌<◌, ◌≤◌, ◌≡◌, refl, ap, sym, ◌∙◌, Bool, true, false, List, [], ◌∷◌, Option, none,
  some, length, ◌==◌, if◌then◌else◌, arith, Bool-cases, inl, inr, fun_ext,
}
use buaa_os_challenge.Base.Monad.{ret, M}
use buaa_os_challenge.Disk.{Disk, Place}
use buaa_os_challenge.Disk.Directory.{root}
use buaa_os_challenge.Disk.Paths.{
  Walk, found, skip_slash, take_name, is_end, walk_name, walk_from, walk_path,
}

-- the stretches between slashes
abbrev pub push : ℕ → List (List ℕ) → List (List ℕ)
push c [] = (c ∷ []) ∷ []
push c (w ∷ ws) = (c ∷ w) ∷ ws

abbrev pub split : List ℕ → List (List ℕ)
split [] = [] ∷ []
split (c ∷ s) = let rest = split s in if c == b'/' then [] ∷ rest else push c rest

abbrev pub drop_empty : List (List ℕ) → List (List ℕ)
drop_empty [] = []
drop_empty ([] ∷ ws) = drop_empty ws
drop_empty ((c ∷ s) ∷ ws) = (c ∷ s) ∷ drop_empty ws

-- the names of a path
abbrev pub components : List ℕ → List (List ℕ)
components path = drop_empty (split path)

abbrev pub is_last : List (List ℕ) → Bool
is_last [] = true
is_last (w ∷ ws) = false

-- The walk along a list of names.
unfoldable pub walk_names : List (List ℕ) → Option Place → Place → M Disk Walk
walk_names [] dir file d = ret (found dir file) d
walk_names (name ∷ names) dir file d =
    walk_name file name (is_last names) (walk_names names (some file)) d

after : List ℕ → List (List ℕ)
after [] = []
after (c ∷ s) = split s

split-take_name : (s : List ℕ) → split s ≡ (take_name s).0 ∷ after (take_name s).1
unfolding after
split-take_name [] = refl
split-take_name (c ∷ s) = elim (Bool-cases (c == b'/')) [
  | inl y ↦ rw y
  | inr n ↦ rw (n, split-take_name s)
]

components-skip_slash : (s : List ℕ) → components (skip_slash s) ≡ components s
components-skip_slash [] = refl
components-skip_slash (c ∷ s) = elim (Bool-cases (c == b'/')) [
  | inl y ↦ rw y (components-skip_slash s)
  | inr n ↦ ap (λ (b : Bool). components (if b then skip_slash s else c ∷ s)) n
]

components-after : (s : List ℕ) → drop_empty (after (take_name s).1) ≡ components (take_name s).1
unfolding after
components-after [] = refl
components-after (c ∷ s) = elim (Bool-cases (c == b'/')) [
  | inl y ↦ rw (y, y)
  | inr n ↦ rw n (components-after s)
]

-- The first name of a path that does not start with a slash.
components-cons :
    (c : ℕ) (s : List ℕ)
    → (c == b'/') ≡ false
    → components (c ∷ s) ≡ (take_name (c ∷ s)).0 ∷ components (skip_slash (take_name (c ∷ s)).1)
components-cons c s n =
    let tail = components-skip_slash (take_name s).1 ∙ sym (components-after s) in
    rw (n, split-take_name s) (ap (λ (w : List (List ℕ)). (c ∷ (take_name s).0) ∷ w) (sym tail))

skip_slash_le : (s : List ℕ) → length (skip_slash s) ≤ length s
skip_slash_le [] = omega arith
skip_slash_le (c ∷ s) = ground (arith, skip_slash_le s)

take_name_le : (s : List ℕ) → length (take_name s).1 ≤ length s
take_name_le [] = omega arith
take_name_le (c ∷ s) = ground (arith, take_name_le s)

rest_shorter : (s : List ℕ) → length (skip_slash (take_name s).1) ≤ length s
rest_shorter s = omega (arith, skip_slash_le (take_name s).1, take_name_le s)

abbrev NoSlash : List ℕ → Type 0
NoSlash [] = Unit
NoSlash (c ∷ s) = (c == b'/') ≡ false

skip_slash-NoSlash : (s : List ℕ) → NoSlash (skip_slash s)
skip_slash-NoSlash [] = tt
skip_slash-NoSlash (c ∷ s) = elim (Bool-cases (c == b'/')) [
  | inl y ↦ rw y (skip_slash-NoSlash s)
  | inr n ↦ rw n n
]

is_last-components : (s : List ℕ) → NoSlash s → is_last (components s) ≡ is_end s
is_last-components [] h = refl
is_last-components (c ∷ s) h = rw (components-cons c s h) refl

walk_from-names :
    (n : ℕ) (path : List ℕ) (dir : Option Place) (file : Place) (d : Disk)
    → length path < n
    → NoSlash path
    → walk_from n path dir file d ≡ walk_names (components path) dir file d
unfolding walk_from walk_names
walk_from-names zero path dir file d h s = absurd (omega arith)
walk_from-names (suc n) [] dir file d h s = refl
walk_from-names (suc n) (c ∷ p) dir file d h s =
    let (name, rest) = take_name (c ∷ p) in
    let path = skip_slash rest in
    let start : NoSlash path = skip_slash-NoSlash rest in
    let short : length path < n = rw s (omega (arith, h, rest_shorter p)) in
    let next : walk_from n path (some file) ≡ walk_names (components path) (some file) =
      fun_ext (λ f. fun_ext (λ d. walk_from-names n path (some file) f d short start)) in
    ap (λ (k : Place → M Disk Walk). walk_name file name (is_end path) k d) next
    ∙ ap (λ (b : Bool). walk_name file name b (walk_names (components path) (some file)) d)
        (sym (is_last-components path start))
    ∙ ap (λ (ws : List (List ℕ)). walk_names ws dir file d) (sym (components-cons c p s))

-- walk_path comes to an end for every path, and goes along the names between its slashes from the
-- root on: any number of slashes at the start, between names or at the end makes no difference.
pub walk_path-components :
    (path : List ℕ) (d : Disk) → walk_path path d ≡ walk_names (components path) none root d
unfolding walk_path
walk_path-components path d =
    walk_from-names (suc (length path)) (skip_slash path) none root d
      (omega (arith, skip_slash_le path)) (skip_slash-NoSlash path)
    ∙ ap (λ (ws : List (List ℕ)). walk_names ws none root d) (components-skip_slash path)
