-- ===== src/Memory/Entry.antt =====
-- The macros of include/mmu.h on addresses and page table entries, and their laws.
use buaa_os_challenge.Base.{
  ℕ, ◌+◌, ◌*◌, ◌/◌, ◌%◌, ◌^◌, ◌<◌, ◌≡◌, refl, ap, ◌∙◌, Bool, true, false, not, arith, ◌==◌, bit_and,
  bit_or, ltb, ◌&&◌,
}
use buaa_os_challenge.Base.Bits.{
  all_below, all_below_sound, bit_or_split, bit_and_split, bit_or-zero, bit_and-zero, zero-bit_or,
}

-- PTE_V, PTE_D, PTE_G, PTE_C_CACHEABLE, PTE_COW and PTE_LIBRARY
abbrev pub pte_g : ℕ
pte_g = 0x40

abbrev pub pte_v : ℕ
pte_v = 0x80

abbrev pub pte_d : ℕ
pte_d = 0x100

abbrev pub pte_c_cacheable : ℕ
pte_c_cacheable = 0x600

abbrev pub pte_cow : ℕ
pte_cow = 0x1

abbrev pub pte_library : ℕ
pte_library = 0x2

-- PDX and PTX
abbrev pub pdx : ℕ → ℕ
pdx va = va / 2 ^ 22 % 1024

abbrev pub ptx : ℕ → ℕ
ptx va = va / 2 ^ 12 % 1024

-- PPN and VPN
abbrev pub ppn_of : ℕ → ℕ
ppn_of pa = pa / 2 ^ 12

-- `e & PTE_V`, as a test
unfoldable pub valid : ℕ → Bool
valid e = not (bit_and e pte_v == 0)

-- page2pa
abbrev pub page2pa : ℕ → ℕ
page2pa pp = pp * 2 ^ 12 % 2 ^ 32

-- `page2pa(pp) | perm | PTE_C_CACHEABLE | PTE_V`
unfoldable pub make_pte : ℕ → ℕ → ℕ
make_pte pp perm = bit_or (bit_or (bit_or (page2pa pp) perm) pte_c_cacheable) pte_v

-- `page2pa(pp) | PTE_C_CACHEABLE | PTE_V`
unfoldable pub make_pde : ℕ → ℕ
make_pde pp = bit_or (bit_or (page2pa pp) pte_c_cacheable) pte_v

-- The argument of tlb_out: the address without its low 13 bits (GENMASK(PGSHIFT, 0)), and the ASID.
unfoldable pub entry_hi : ℕ → ℕ → ℕ
entry_hi asid va = bit_or (va / 2 ^ 13 * 2 ^ 13) (asid % 256)

-- the flags that an entry gets
abbrev pub flags : ℕ → ℕ
flags p = bit_or (bit_or p pte_c_cacheable) pte_v

abbrev flags_fit : ℕ → Bool
flags_fit p =
    ltb (bit_or p pte_c_cacheable) 4096
    && (ltb (flags p) 4096 && not (bit_and (flags p) pte_v == 0))

flags_table : all_below 4096 flags_fit ≡ true
unfolding all_below
flags_table = refl

flags_range : (p : ℕ) → p < 4096 → flags_fit p ≡ true
flags_range p h = all_below_sound 4096 flags_fit p flags_table h

pub flags-lt : (p : ℕ) → p < 4096 → flags p < 4096
flags-lt p h = ground (arith, flags_range p h)

or_block :
    (a b c d : ℕ)
    → c < 4096
    → d < 4096
    → bit_or (a * 4096 + c) (b * 4096 + d) ≡ bit_or a b * 4096 + bit_or c d
or_block a b c d hc hd = bit_or_split 12 a b c d hc hd

or_low : (a c d : ℕ) → c < 4096 → d < 4096 → bit_or (a * 4096 + c) d ≡ a * 4096 + bit_or c d
or_low a c d hc hd =
    let e : 0 * 4096 + d ≡ d = omega arith in rw (bit_or-zero a, e) at (or_block a 0 c d hc hd)

valid_block : (a c : ℕ) → c < 4096 → valid (a * 4096 + c) ≡ not (bit_and c pte_v == 0)
unfolding valid
valid_block a c h =
    let e = bit_and_split 12 a 0 c pte_v h (omega arith) in let z = bit_and-zero a in ground arith

-- The page number of the permission bits above the low twelve is mixed into the entry.
make_pte_block :
    (pp hi lo : ℕ)
    → pp < 2 ^ 20
    → lo < 4096
    → make_pte pp (hi * 4096 + lo) ≡ bit_or pp hi * 4096 + flags lo
unfolding make_pte
make_pte_block pp hi lo h hl =
    let e1 = or_block pp hi 0 lo (omega arith) hl in
    let e2 = or_low (bit_or pp hi) lo pte_c_cacheable hl (omega arith) in
    let e3 =
      or_low (bit_or pp hi) (bit_or lo pte_c_cacheable) pte_v (ground (arith, flags_range lo hl))
        (omega arith) in
    let z = zero-bit_or lo in
    let pa : page2pa pp ≡ pp * 4096 + 0 = omega arith in rw (pa, e1, z, e2, e3)

make_pte_split :
    (pp perm : ℕ)
    → pp < 2 ^ 20
    → make_pte pp perm ≡ bit_or pp (perm / 2 ^ 12) * 4096 + flags (perm % 4096)
make_pte_split pp perm h =
    let e : perm ≡ perm / 4096 * 4096 + perm % 4096 = omega arith in
    ap (make_pte pp) e ∙ make_pte_block pp (perm / 4096) (perm % 4096) h (omega arith)

-- The entry that page_insert writes is valid, whatever the permission.
pub valid-make_pte : (pp perm : ℕ) → pp < 2 ^ 20 → valid (make_pte pp perm) ≡ true
valid-make_pte pp perm h =
    rw
      (
        make_pte_split pp perm h,
        valid_block (bit_or pp (perm / 2 ^ 12)) (flags (perm % 4096))
            (flags-lt (perm % 4096) (omega arith)),
      )
      (ground (arith, flags_range (perm % 4096) (omega arith)))

-- The entry points to the page, mixed with the bits of the permission above the low twelve.
pub ppn_of-make_pte :
    (pp perm : ℕ) → pp < 2 ^ 20 → ppn_of (make_pte pp perm) ≡ bit_or pp (perm / 2 ^ 12)
ppn_of-make_pte pp perm h =
    rw (make_pte_split pp perm h) (omega (arith, flags-lt (perm % 4096) (omega arith)))

pub ppn_of-make_pte_low : (pp perm : ℕ) → pp < 2 ^ 20 → perm < 4096 → ppn_of (make_pte pp perm) ≡ pp
ppn_of-make_pte_low pp perm h hp =
    let e : perm / 2 ^ 12 ≡ 0 = omega arith in ppn_of-make_pte pp perm h ∙ rw e (bit_or-zero pp)

-- The low twelve bits of the entry are the flags.
pub make_pte-flags :
    (pp perm : ℕ) → pp < 2 ^ 20 → perm < 4096 → make_pte pp perm % 4096 ≡ flags perm
make_pte-flags pp perm h hp =
    let e : perm % 4096 ≡ perm = omega arith in
    rw (make_pte_split pp perm h, e) (omega (arith, flags-lt perm hp))

make_pde_lem : (pp : ℕ) → make_pde pp ≡ make_pte pp 0
unfolding make_pde make_pte
make_pde_lem pp = rw (bit_or-zero (page2pa pp))

pub valid-make_pde : (pp : ℕ) → pp < 2 ^ 20 → valid (make_pde pp) ≡ true
valid-make_pde pp h = rw (make_pde_lem pp) (valid-make_pte pp 0 h)

pub ppn_of-make_pde : (pp : ℕ) → pp < 2 ^ 20 → ppn_of (make_pde pp) ≡ pp
ppn_of-make_pde pp h = rw (make_pde_lem pp) (ppn_of-make_pte_low pp 0 h (omega arith))

-- An entry that is zero is not valid.
pub valid-zero : valid 0 ≡ false
unfolding valid
valid-zero = refl
