-- ===== src/Disk/Search.antt =====
-- The loops over the files of a directory: the first file that passes a test, by the blocks.
use buaa_os_challenge.Base.{
  ℕ, suc, ◌+◌, ◌-◌, ◌*◌, ◌/◌, ◌%◌, ◌<◌, ◌≤◌, ◌≡◌, ◌⊎◌, refl, ap, sym, ◌∙◌, Bool, true, false,
  Option, none, some, ltb, ◌==◌, if◌then◌else◌, arith, Bool-cases, inl, inr,
}
use buaa_os_challenge.Base.Monad.{Run}
use buaa_os_challenge.Disk.{Disk, Place}
use buaa_os_challenge.Disk.Directory.{slot}

-- The first number from `lo` on and below `hi` that passes a test, or none.
abbrev pub FirstIn : (ℕ → Bool) → ℕ → ℕ → ℕ → Type 0
FirstIn test lo hi j =
    (lo ≤ j) × (j < hi) × (test j ≡ true) × ((k : ℕ) → lo ≤ k → k < j → test k ≡ false)

abbrev pub NoneIn : (ℕ → Bool) → ℕ → ℕ → Type 0
NoneIn test lo hi = (k : ℕ) → lo ≤ k → k < hi → test k ≡ false

-- A search through the numbers from `lo` on and below `hi`.
abbrev pub Search : (ℕ → Bool) → (ℕ → Place) → ℕ → ℕ → Option Place → Type 0
Search test place lo hi r =
    ((j : ℕ) × FirstIn test lo hi j × (r ≡ some (place j))) ⊎ (NoneIn test lo hi × (r ≡ none))

none_before :
    (test : ℕ → Bool) (i hi : ℕ) → test i ≡ false → NoneIn test (i + 1) hi → NoneIn test i hi
none_before test i hi fails rest k l u = elim (Bool-cases (k == i)) [
  | inl y ↦ let e : k ≡ i = ground arith in ap test e ∙ fails
  | inr n ↦ rest k (ground arith) u
]

pub Search-step :
    (test : ℕ → Bool) (place : ℕ → Place) (i n : ℕ) (r : Option Place)
    → Search test place (i + 1) (i + 1 + n) r
    → Search test place i (i + suc n) (if test i then some (place i) else r)
Search-step test place i n r h = elim (Bool-cases (test i)) [
  | inl y ↦ rw y (inl (i, (omega arith, omega arith, y, λ k l u. absurd (omega arith)), refl))
  | inr fails ↦ elim h [
    | inl (j, (l, u, y, before), e) ↦ rw fails (
        inl (
          j,
          (omega arith, omega arith, y, λ k l' u'. none_before test i j fails before k l' u'),
          e,
        ))
    | inr (never, e) ↦
        let same : i + suc n ≡ i + 1 + n = omega arith in
        rw (fails, same) (inr (none_before test i (i + 1 + n) fails never, e))
  ]
]

-- the files of a directory, by the blocks that hold them
abbrev pub entry : (ℕ → ℕ) → ℕ → Place
entry blocks j = slot (blocks (j / 16)) (j % 16)

entry-at : (blocks : ℕ → ℕ) (i k : ℕ) → k < 16 → entry blocks (16 * i + k) ≡ slot (blocks i) k
entry-at blocks i k lt =
    let e : (16 * i + k) / 16 ≡ i = omega arith in
    let e' : (16 * i + k) % 16 ≡ k = omega arith in rw (e, e')

-- A test of files, and the tests of the files of one block.
module _ (blocks : ℕ → ℕ) (test : Place → Bool) where
  within :
      (i j : ℕ)
      → 16 * i ≤ j
      → j < 16 * i + 16
      → test (entry blocks j) ≡ test (slot (blocks i) (j - 16 * i))
  within i j l u =
      let e : 16 * i + (j - 16 * i) ≡ j = omega arith in
      ap (λ (k : ℕ). test (entry blocks k)) (sym e)
      ∙ ap test (entry-at blocks i (j - 16 * i) (omega arith))

  none_block :
      (i : ℕ)
      → NoneIn (λ k. test (slot (blocks i) k)) 0 16
      → NoneIn (λ j. test (entry blocks j)) (16 * i) (16 * i + 16)
  none_block i empty j l u = within i j l u ∙ empty (j - 16 * i) (omega arith) (omega arith)

  first_block :
      (i k : ℕ)
      → FirstIn (λ k. test (slot (blocks i) k)) 0 16 k
      → FirstIn (λ j. test (entry blocks j)) (16 * i) (16 * i + 16) (16 * i + k)
  first_block i k (l, u, y, before) = (
    omega arith,
    omega arith,
    ap test (entry-at blocks i k u) ∙ y,
    λ j l' u'. within i j l' (omega arith) ∙ before (j - 16 * i) (omega arith) (omega arith),
  )

  -- What the search in one block and the search in the blocks after it give together.
  after_block :
      (i hi j : ℕ)
      → NoneIn (λ k. test (slot (blocks i) k)) 0 16
      → FirstIn (λ j. test (entry blocks j)) (16 * (i + 1)) hi j
      → FirstIn (λ j. test (entry blocks j)) (16 * i) hi j
  after_block i hi j empty (l, u, y, before) = (
    omega arith,
    u,
    y,
    λ k l' u'. elim (Bool-cases (ltb k (16 * i + 16))) [
      | inl here ↦ none_block i empty k l' (ground arith)
      | inr later ↦ before k (ground arith) u'
    ],
  )

  -- How a loop over the blocks ends: at the first file, or at none.
  abbrev pub Outcome : ℕ → ℕ → (Place → Run Disk Place) → Run Disk Place → Run Disk Place → Type 0
  Outcome lo hi hit miss r =
      ((j : ℕ) × FirstIn (λ j. test (entry blocks j)) lo hi j × (r ≡ hit (entry blocks j)))
      ⊎ (NoneIn (λ j. test (entry blocks j)) lo hi × (r ≡ miss))

  pub block_step :
      (i n : ℕ) (hit : Place → Run Disk Place) (miss later r : Run Disk Place) (o : Option Place)
      → Search (λ k. test (slot (blocks i) k)) (slot (blocks i)) 0 16 o
      → ((f : Place) → o ≡ some f → r ≡ hit f)
      → (o ≡ none → r ≡ later)
      → Outcome (16 * (i + 1)) (16 * (i + 1 + n)) hit miss later
      → Outcome (16 * i) (16 * (i + suc n)) hit miss r
  block_step i n hit miss later r o (inl (k, first, e)) found missed rest =
      let (l, u, y, before) = first_block i k first in
      inl (
        16 * i + k,
        (l, omega arith, y, before),
        found (slot (blocks i) k) e ∙ ap hit (sym (entry-at blocks i k first.1)),
      )
  block_step i n hit miss later r o (inr (empty, e)) found missed (inl (j, first, e')) =
      let (l, u, y, before) = after_block i (16 * (i + 1 + n)) j empty first in
      inl (j, (l, omega arith, y, before), missed e ∙ e')
  block_step i n hit miss later r o (inr (empty, e)) found missed (inr (never, e')) = inr (
    λ k l u. elim (Bool-cases (ltb k (16 * i + 16))) [
      | inl here ↦ none_block i empty k l (ground arith)
      | inr after ↦ never k (ground arith) (omega arith)
    ],
    missed e ∙ e',
  )
