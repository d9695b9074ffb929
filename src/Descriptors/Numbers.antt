-- ===== src/Descriptors/Numbers.antt =====
-- Descriptor numbers: fd_alloc, and the addresses of descriptors.
use buaa_os_challenge.Base.{
  ℕ, zero, suc, ◌+◌, ◌*◌, ◌<◌, ◌≤◌, ◌≡◌, ◌≢◌, ◌⊎◌, refl, List, none, some, arith, Option-cases, inl,
  inr, ◌==◌, Bool-cases,
}
use buaa_os_challenge.Base.Errors.{max_open}
use buaa_os_challenge.Base.Monad.{Run, ret, fail}
use buaa_os_challenge.Descriptors.{Dev, Process, num2fd, fd2num, fd2data, fd_alloc_from, fd_alloc}

-- How the search for a free descriptor ends.
abbrev pub FirstFree : {D : Type 0} → Process D → ℕ → ℕ → Run (Process D) ℕ → Type 0
FirstFree s lo hi r =
    ((i : ℕ) × (lo ≤ i)
      × (i < hi)
      × (s.fd_page i ≡ none)
      × ((k : ℕ) → lo ≤ k → k < i → s.fd_page k ≢ none)
      × (r ≡ ret i s))
    ⊎ (((k : ℕ) → lo ≤ k → k < hi → s.fd_page k ≢ none) × (r ≡ fail max_open s))

module _ {D : Type 0} (devtab : List (Dev D)) where
  used_before :
      (s : Process D) (i p : ℕ) (hi : ℕ)
      → s.fd_page i ≡ some p
      → ((k : ℕ) → i + 1 ≤ k → k < hi → s.fd_page k ≢ none)
      → (k : ℕ) → i ≤ k
      → k < hi
      → s.fd_page k ≢ none
  used_before s i p hi e rest k l u = elim (Bool-cases (k == i)) [
    | inl y ↦ let same : k ≡ i = ground arith in rw same (λ z. cc)
    | inr ne ↦ rest k (ground arith) u
  ]

  fd_alloc_from-FirstFree :
      (n i : ℕ) (s : Process D) → FirstFree s i (i + n) (fd_alloc_from devtab n i s)
  unfolding fd_alloc_from
  fd_alloc_from-FirstFree zero i s = inr (λ k l u. absurd (omega arith), refl)
  fd_alloc_from-FirstFree (suc n) i s = elim (Option-cases (s.fd_page i)) [
    | inl e ↦ inl (i, omega arith, omega arith, e, λ k l u. absurd (omega arith), rw e refl)
    | inr (p, e) ↦ elim (fd_alloc_from-FirstFree n (i + 1) s) [
      | inl (j, l, u, free, before, run) ↦ inl (
        j,
        omega arith,
        omega arith,
        free,
        λ k l' u'. used_before s i p j e before k l' u',
        rw e run,
      )
      | inr (all, run) ↦
          inr (λ k l' u'. used_before s i p (i + 1 + n) e all k l' (omega arith), rw e run)
    ]
  ]

  -- fd_alloc gives the least descriptor that is not mapped, of 0 to 30, and changes nothing; or all
  -- of these are mapped, and it fails with E_MAX_OPEN. The last one, 31, is never given.
  pub fd_alloc-FirstFree : (s : Process D) → FirstFree s 0 31 (fd_alloc devtab s)
  unfolding fd_alloc
  fd_alloc-FirstFree s = fd_alloc_from-FirstFree 31 0 s

-- For the descriptors 0 to 31, fd2num gives back the number whose address num2fd gives, and the data
-- of different descriptors stand 4 MB apart from each other.
pub fd2num-num2fd :
    (i : ℕ) → i < 32 → (fd2num (num2fd i) ≡ i) × (fd2data (num2fd i) ≡ 0x6000_0000 + i * 0x40_0000)
unfolding fd2num fd2data
fd2num-num2fd i lt = (omega arith, omega arith)
