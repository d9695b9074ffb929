-- ===== src/Server/Table.antt =====
-- open_alloc takes the first entry of the table that no client has open.
use buaa_os_challenge.Base.{
  ℕ, zero, suc, ◌+◌, ◌-◌, ◌<◌, ◌≤◌, ◌≡◌, ◌⊎◌, refl, true, false, ◌==◌, arith, Bool-cases, inl, inr,
  update,
}
use buaa_os_challenge.Base.Errors.{no_mem, max_open}
use buaa_os_challenge.Base.Monad.{Run, ret, fail, and_then}
use buaa_os_challenge.Server.{
  Server, alloc_filefd, take_entry, empty_filefd, open_alloc_from, open_alloc,
}

-- The entry is the first from `lo` on whose page at most the server has mapped.
abbrev pub FirstUnused : Server → ℕ → ℕ → ℕ → Type 0
FirstUnused s lo hi i =
    (lo ≤ i) × (i < hi) × (s.refs i ≤ 1) × ((k : ℕ) → lo ≤ k → k < i → 2 ≤ s.refs k)

-- The entry `i` of the new state is cleared, and its page mapped by the server only; all that may
-- change besides is the number of pages that the server has left, by one if the entry had none.
pub record Cleared (s : Server) (i : ℕ) (t : Server) : Type 0 where
  pub page : t.refs i ≡ 1
  pub page_others : (k : ℕ) → (k == i) ≡ false → t.refs k ≡ s.refs k
  pub content :
      t.filefd i
      ≡ record { fd_dev_id = 0; fd_offset = 0; fd_omode = 0; f_fileid = 0; f_file = λ _. 0 }
  pub content_others : (k : ℕ) → (k == i) ≡ false → t.filefd k ≡ s.filefd k
  pub pages :
      ((s.refs i ≡ 1) × (t.disk ≡ s.disk))
      ⊎ ((s.refs i ≡ 0) × (t.disk ≡ record s.disk { pages = s.disk.pages - 1 }))
  pub rest : t ≡ record s { disk = t.disk; refs = t.refs; filefd = t.filefd }

-- The three ways in which the search ends.
abbrev pub Allocated : Server → ℕ → ℕ → Run Server ℕ → Type 0
Allocated s lo hi r =
    ((i : ℕ) × FirstUnused s lo hi i
      × (((t : Server) × (r ≡ ret i t) × Cleared s i t)
          ⊎ ((s.refs i ≡ 0) × (s.disk.pages ≡ 0) × (r ≡ fail no_mem s))))
    ⊎ (((k : ℕ) → lo ≤ k → k < hi → 2 ≤ s.refs k) × (r ≡ fail max_open s))

take_new :
    (s : Server) (i : ℕ)
    → s.refs i ≡ 0
    → ((t : Server) × (and_then (alloc_filefd i s) (λ _. take_entry i) ≡ ret i t) × Cleared s i t)
      ⊎ ((s.refs i ≡ 0)
          × (s.disk.pages ≡ 0)
          × (and_then (alloc_filefd i s) (λ _. take_entry i) ≡ fail no_mem s))
take_new s i h =
    let e : (i == i) ≡ true = ground arith in
    elim (Bool-cases (s.disk.pages == 0)) [
      | inl y ↦ inr (h, ground arith, rw y refl)
      | inr n ↦
          let t = record s {
            disk = record s.disk { pages = s.disk.pages - 1 };
            refs = update s.refs i 1;
            filefd = update s.filefd i empty_filefd;
          } in
          inl (
            t,
            rw n refl,
            record {
              page = rw e refl;
              page_others = λ k ne. rw ne refl;
              content = rw e refl;
              content_others = λ k ne. rw ne refl;
              pages = inr (h, refl);
              rest = refl;
            },
          )
    ]

take_old :
    (s : Server) (i : ℕ) → s.refs i ≡ 1 → (t : Server) × (take_entry i s ≡ ret i t) × Cleared s i t
take_old s i h =
    let e : (i == i) ≡ true = ground arith in
    (
      _,
      refl,
      record {
        page = h;
        page_others = λ k ne. refl;
        content = rw e refl;
        content_others = λ k ne. rw ne refl;
        pages = inl (h, refl);
        rest = refl;
      },
    )

later :
    (s : Server) (i n : ℕ) {r : Run Server ℕ}
    → 2 ≤ s.refs i
    → Allocated s (i + 1) (i + 1 + n) r
    → Allocated s i (i + suc n) r
later s i n used (inl (j, (l, u, free, before), rest)) = inl (
  j,
  (
    omega arith,
    omega arith,
    free,
    λ k l' u'. elim (Bool-cases (k == i)) [
      | inl y ↦ let e : k ≡ i = ground arith in rw e used
      | inr ne ↦ before k (ground arith) u'
    ],
  ),
  rest,
)
later s i n used (inr (all, e)) = inr (
  λ k l' u'. elim (Bool-cases (k == i)) [
    | inl y ↦ let e' : k ≡ i = ground arith in rw e' used
    | inr ne ↦ all k (ground arith) (omega arith)
  ],
  e,
)

open_alloc_from-Allocated : (n i : ℕ) (s : Server) → Allocated s i (i + n) (open_alloc_from n i s)
unfolding open_alloc_from
open_alloc_from-Allocated zero i s = inr (λ k l u. absurd (omega arith), refl)
open_alloc_from-Allocated (suc n) i s = elim (Bool-cases (s.refs i == 0)) [
  | inl y ↦
      let z : s.refs i ≡ 0 = ground arith in
      rw y (
        inl (
          i,
          (omega arith, omega arith, omega arith, λ k l u. absurd (omega arith)),
          take_new s i z,
        ))
  | inr n0 ↦ elim (Bool-cases (s.refs i == 1)) [
    | inl y ↦
        let z : s.refs i ≡ 1 = ground arith in
        rw (n0, y)
          (inl (
            i,
            (omega arith, omega arith, omega arith, λ k l u. absurd (omega arith)),
            inl (take_old s i z),
          ))
    | inr n1 ↦
        let used : 2 ≤ s.refs i = ground arith in
        rw (n0, n1) (later s i n used (open_alloc_from-Allocated n (i + 1) s))
  ]
]

-- open_alloc returns the first entry whose page no client has mapped; it has cleared the Filefd of
-- this entry and maps its page itself once, and leaves the table, the pages and Filefds of all other
-- entries, and all else but the number of pages left; or that entry has no page yet and the server has
-- none left, and it fails with E_NO_MEM; or clients have all 1024 entries open, and it fails with
-- E_MAX_OPEN. Where it fails nothing changes.
pub open_alloc-Allocated : (s : Server) → Allocated s 0 1024 (open_alloc s)
unfolding open_alloc
open_alloc-Allocated s = open_alloc_from-Allocated 1024 0 s
