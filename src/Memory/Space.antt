-- ===== src/Memory/Space.antt =====
-- What the MMU sees: the entry that a directory gives for an address, as a function of the words
-- of memory. UTOP bounds the addresses of user space; the directory entries above it are the
-- kernel's, and the last of them maps the directory itself.
use buaa_os_challenge.Base.{
  ℕ, ◌/◌, ◌^◌, ◌<◌, ◌≤◌, ◌≡◌, ◌≢◌, refl, sym, true, false, Option, none, some, List, arith, has,
  update, if◌then◌else◌, Bool-cases, inl, inr,
}
use native.Mathlib.Decide.{ℕ_discrete}
use buaa_os_challenge.Memory.{Memory, write}
use buaa_os_challenge.Memory.Words.{write_self, write_row, write_col}
use buaa_os_challenge.Memory.Entry.{
  valid, ppn_of, pdx, ptx, make_pde, valid-zero, valid-make_pde, ppn_of-make_pde,
}
use buaa_os_challenge.Memory.Alloc.{IsFree}

abbrev pub utop : ℕ
utop = 0x7f40_0000

abbrev pub if_valid : ℕ → Option ℕ
if_valid e = if valid e then some e else none

abbrev pub look : (ℕ → ℕ → ℕ) → ℕ → ℕ → Option ℕ
look w g va = if valid (w g (pdx va)) then if_valid (w (ppn_of (w g (pdx va))) (ptx va)) else none

-- `t` is the frame of a page table of the directory `g`, in user space.
abbrev pub IsTable : (ℕ → ℕ → ℕ) → ℕ → ℕ → ℕ → Type 0
IsTable w g d t = (d < 509) × (valid (w g d) ≡ true) × (ppn_of (w g d) ≡ t)

-- The page tables of a directory are frames of their own: in range, not free, none of them the
-- directory, and no two entries share one.
pub record IsSpace (m : Memory) (g : ℕ) (xs : List ℕ) : Type 0 where
  pub free : IsFree m xs
  pub small : m.npage ≤ 2 ^ 20
  pub dir_in : g < m.npage
  pub dir_used : has g xs ≡ false
  pub table_in : (d t : ℕ) → IsTable m.word g d t → t < m.npage
  pub table_ne : (d t : ℕ) → IsTable m.word g d t → t ≢ g
  pub table_used : (d t : ℕ) → IsTable m.word g d t → has t xs ≡ false
  pub apart : (d d' t : ℕ) → IsTable m.word g d t → IsTable m.word g d' t → d ≡ d'

-- Addresses of different pages differ in one of the two indices.
index_ne :
    (va va' : ℕ)
    → va < utop
    → va' < utop
    → va' / 4096 ≢ va / 4096
    → pdx va' ≡ pdx va
    → ptx va' ≢ ptx va
index_ne va va' h h' ne e = λ e'. ne (omega arith)

pub pdx-lt : (va : ℕ) → va < utop → pdx va < 509
pdx-lt va h = omega arith

module _ (w : ℕ → ℕ → ℕ) (g va e : ℕ) (v : valid (w g (pdx va)) ≡ true)
    (ne : ppn_of (w g (pdx va)) ≢ g) where
  abbrev table : ℕ
  table = ppn_of (w g (pdx va))

  -- the directory is kept by a write into one of its tables
  dir_kept : (d : ℕ) → write w table (ptx va) e g d ≡ w g d
  dir_kept d = write_row w table (ptx va) e g d (λ i. ne (sym i))

  -- A write of an entry is seen at its address.
  pub look-write_self : look (write w table (ptx va) e) g va ≡ if_valid e
  look-write_self = rw (dir_kept (pdx va), v, write_self w table (ptx va) e)

  -- A write of an entry is not seen at the addresses of other pages.
  pub look-write_ne :
      (va' : ℕ)
      → va < utop
      → va' < utop
      → va' / 4096 ≢ va / 4096
      → ((d : ℕ) → IsTable w g d table → d ≡ pdx va)
      → look (write w table (ptx va) e) g va' ≡ look w g va'
  look-write_ne va' h h' far alone = elim (Bool-cases (valid (w g (pdx va')))) [
    | inr n ↦ rw (dir_kept (pdx va'), n)
    | inl y ↦
        rw (dir_kept (pdx va'), y)
          (elim (ℕ_discrete (ppn_of (w g (pdx va'))) table) [
            | yes same ↦
                let d : pdx va' ≡ pdx va = alone (pdx va') (pdx-lt va' h', y, same) in
                rw same (rw (write_col w table (ptx va) e (ptx va') (index_ne va va' h h' far d)))
            | no other ↦ rw (write_row w table (ptx va) e (ppn_of (w g (pdx va'))) (ptx va') other)
          ])
  ]

-- The words after page `x` becomes the table of `va`, and after the entry is written into it.
abbrev pub new_table : (ℕ → ℕ → ℕ) → ℕ → ℕ → ℕ → ℕ → ℕ → ℕ
new_table w g va x = write (update w x (λ _. 0)) g (pdx va) (make_pde x)

module _ (w : ℕ → ℕ → ℕ) (g va x e : ℕ) (small : x < 2 ^ 20) (ne : x ≢ g) where
  row_other : (p j : ℕ) → p ≢ x → p ≢ g → write (new_table w g va x) x (ptx va) e p j ≡ w p j
  row_other p j h k = ground arith

  row_dir : (j : ℕ) → j ≢ pdx va → write (new_table w g va x) x (ptx va) e g j ≡ w g j
  row_dir j h = ground arith

  row_self : write (new_table w g va x) x (ptx va) e g (pdx va) ≡ make_pde x
  row_self = ground arith

  row_table : (j : ℕ) → j ≢ ptx va → write (new_table w g va x) x (ptx va) e x j ≡ 0
  row_table j h = ground arith

  pub look-created_self : look (write (new_table w g va x) x (ptx va) e) g va ≡ if_valid e
  look-created_self = rw (
    row_self,
    valid-make_pde x small,
    ppn_of-make_pde x small,
    write_self (new_table w g va x) x (ptx va) e,
  )

  pub look-created_ne :
      (va' : ℕ)
      → va < utop
      → va' < utop
      → va' / 4096 ≢ va / 4096
      → valid (w g (pdx va)) ≡ false
      → ((d t : ℕ) → IsTable w g d t → t ≢ g × t ≢ x)
      → look (write (new_table w g va x) x (ptx va) e) g va' ≡ look w g va'
  look-created_ne va' h h' far v tables = elim (ℕ_discrete (pdx va') (pdx va)) [
    | yes d ↦ rw (
      d,
      row_self,
      valid-make_pde x small,
      ppn_of-make_pde x small,
      row_table (ptx va') (index_ne va va' h h' far d),
      v,
      valid-zero,
    )
    | no d ↦ rw (row_dir (pdx va') d) (elim (Bool-cases (valid (w g (pdx va')))) [
      | inr n ↦ rw n
      | inl y ↦
          let t = tables (pdx va') (ppn_of (w g (pdx va'))) (pdx-lt va' h', y, refl) in
          rw (row_other (ppn_of (w g (pdx va'))) (ptx va') t.1 t.0)
    ])
  ]
