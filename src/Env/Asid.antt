-- ===== src/Env/Asid.antt =====
-- asid_alloc and asid_free on the bitmap of ASIDs.
use buaa_os_challenge.Base.{
  ℕ, zero, suc, ◌+◌, ◌<◌, ◌≤◌, ◌≡◌, refl, true, false, arith, ◌==◌, if◌then◌else◌, Bool-cases, inl,
  inr,
}
use buaa_os_challenge.Base.BitSet.{bit_at}
use buaa_os_challenge.Base.Bitmap.{mark, unmark, bit_at-mark}
use buaa_os_challenge.Base.Errors.{no_free_env}
use buaa_os_challenge.Base.Monad.{Run, ret, fail, M, modify}
use buaa_os_challenge.Env.State.{Kernel}

-- NASID
abbrev pub nasid : ℕ
nasid = 256

-- The loop of asid_alloc from `i` on, with `n` rounds left.
unfoldable pub asid_search : ℕ → ℕ → M Kernel ℕ
asid_search zero i k = fail no_free_env k
asid_search (suc n) i k = elim (bit_at k.asid_bitmap i) [
  | true ↦ asid_search n (i + 1) k
  | false ↦ ret i (record k { asid_bitmap = mark k.asid_bitmap i })
]

-- asid_alloc
unfoldable pub asid_alloc : M Kernel ℕ
unfolding asid_search
asid_alloc = asid_search nasid 0

-- asid_free
unfoldable pub asid_free : ℕ → M Kernel (Unit {0})
asid_free i = modify (λ k. record k { asid_bitmap = unmark k.asid_bitmap i })

-- What asid_alloc does to the set of ASIDs in use.
pub data AsidResult (k : Kernel) (from : ℕ) : Run Kernel ℕ → Type 0 where
  found :
      (i : ℕ) (k' : Kernel)
      → i < nasid
      → bit_at k.asid_bitmap i ≡ false
      → ((j : ℕ) → from ≤ j → j < i → bit_at k.asid_bitmap j ≡ true)
      → ((j : ℕ) → bit_at k'.asid_bitmap j ≡ (if j == i then true else bit_at k.asid_bitmap j))
      → AsidResult k from (ret i k')
  full :
      ((j : ℕ) → from ≤ j → j < nasid → bit_at k.asid_bitmap j ≡ true)
      → AsidResult k from (fail no_free_env k)

asid_search_lem : (n i : ℕ) (k : Kernel) → i + n ≡ nasid → AsidResult k i (asid_search n i k)
unfolding asid_search
asid_search_lem zero i k e = full (λ j lo hi. absurd (omega arith))
asid_search_lem (suc n) i k e = elim (Bool-cases (bit_at k.asid_bitmap i)) [
  | inl used ↦ rw (used, asid_search) (widen (asid_search_lem n (i + 1) k (omega arith)) used)
  | inr clear ↦
      rw (clear, asid_search)
        (found i (record k { asid_bitmap = mark k.asid_bitmap i }) (omega arith) clear
          (λ j lo hi. absurd (omega arith)) (λ j. bit_at-mark k.asid_bitmap i j))
]
  where
    widen :
        {r : Run Kernel ℕ}
        → AsidResult k (i + 1) r
        → bit_at k.asid_bitmap i ≡ true
        → AsidResult k i r
    widen (found x k' lt clear below marked) used =
        found x k' lt clear (λ j lo hi. ground (arith, below j)) marked
    widen (full all) used = full (λ j lo hi. ground (arith, all j))

-- asid_alloc returns the least ASID below NASID whose bit is clear, sets that bit and no other,
-- or fails with E_NO_FREE_ENV, where all NASID bits are set, and changes nothing.
pub asid_alloc_lem : (k : Kernel) → AsidResult k 0 (asid_alloc k)
unfolding asid_alloc
asid_alloc_lem k = asid_search_lem nasid 0 k refl
