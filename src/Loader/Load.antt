-- ===== src/Loader/Load.antt =====
-- elf_load_seg as a whole, with a mapper that maps new pages over what was there.
use Prim.Native.Nat.{min, bit_and}
use buaa_os_challenge.Base.{
  ℕ, suc, ◌+◌, ◌-◌, ◌/◌, ◌%◌, ◌^◌, ◌<◌, ◌≤◌, ◌≡◌, ◌⊎◌, refl, ap, ◌∙◌, Bool, true, false, ◌&&◌, some,
  ltb, leb, ◌==◌, if◌then◌else◌, arith, Bool-cases, inl, inr,
}
use buaa_os_challenge.Base.Monad.{ret}
use buaa_os_challenge.Loader.{
  ProgramHeader, segment_perm, load_from, clear_from, load_first, first_index, elf_load_seg,
}
use buaa_os_challenge.Loader.Filled.{
  Space, page_byte, with_page, map_new, segment_byte, Filled, Filled-trans,
}
use buaa_os_challenge.Loader.Segment.{load_from_lem, clear_from_lem}

-- What the page in which the segment begins holds.
abbrev pub First : (ℕ → ℕ) → ℕ → ℕ → ℕ → Space → Space → Type 0
First image va size perm s t =
    ((a : ℕ)
      → va ≤ a
      → a < va + first_index va size
      → (t.byte a ≡ segment_byte image size (a - va)) × (t.mapped (a / 4096) ≡ some perm))
    × ((a : ℕ)
        → (a / 4096 < va / 4096) ⊎ (va + 4096 ≤ a)
        → (t.byte a ≡ s.byte a) × (t.mapped (a / 4096) ≡ s.mapped (a / 4096)))

first_byte :
    (image : ℕ → ℕ) (va size perm : ℕ) (s : Space) (a : ℕ)
    → va ≤ a
    → a < va + min size (4096 - va % 4096)
    → ((with_page va perm
            (page_byte image (va % 4096) (some 0) (min size (4096 - va % 4096)))
            s).byte
          a
        ≡ segment_byte image size (a - va))
      × ((with_page va perm
              (page_byte image (va % 4096) (some 0) (min size (4096 - va % 4096)))
              s).mapped
            (a / 4096)
          ≡ some perm)
first_byte image va size perm s a l u =
    let near : (a / 4096 == va / 4096) ≡ true = ground arith in
    let low : leb (va % 4096) (a % 4096) ≡ true = ground arith in
    let high : ltb (a % 4096) (va % 4096 + min size (4096 - va % 4096)) ≡ true = ground arith in
    let within : ltb (a - va) size ≡ true = ground arith in
    let page : a / 4096 ≡ va / 4096 = ground arith in
    let e : 0 + (a % 4096 - va % 4096) ≡ a - va = omega arith in
    (rw (near, low, high, within, e), rw near)

pub load_first_lem :
    (image : ℕ → ℕ) (va perm size : ℕ) (s : Space)
    → (t : Space) × (load_first (map_new image) va perm size s ≡ ret tt t)
      × First image va size perm s t
load_first_lem image va perm size s = elim (Bool-cases (va % 4096 == 0)) [
  | inl y ↦
      let z : first_index va size ≡ 0 =
        ap (λ (b : Bool). if b then 0 else min size (4096 - va % 4096)) y in
      (s, rw y, (λ a l u. absurd (omega (arith, z, u)), λ a out. (refl, refl)))
  | inr n ↦
      let len = min size (4096 - va % 4096) in
      let bytes = page_byte image (va % 4096) (some 0) len in
      let z : first_index va size ≡ len = ap (λ (b : Bool). if b then 0 else len) n in
      (
        with_page va perm bytes s,
        rw n,
        (
          λ a l u. first_byte image va size perm s a l (omega (arith, z, u)),
          λ a out. let far : (a / 4096 == va / 4096) ≡ false = ground arith in (rw far, rw far),
        ),
      )
]

-- The three parts of elf_load_seg one after the other.
pub elf_load_seg-run :
    (image : ℕ → ℕ) (ph : ProgramHeader) (s s1 s2 s3 : Space) (j : ℕ)
    → load_first (map_new image) ph.p_vaddr (segment_perm ph.p_flags) ph.p_filesz s ≡ ret tt s1
    → load_from
        (map_new image)
        (suc ph.p_filesz)
        ph.p_vaddr
        (segment_perm ph.p_flags)
        ph.p_filesz
        (first_index ph.p_vaddr ph.p_filesz)
        s1
      ≡ ret j s2
    → clear_from
        (map_new image)
        (suc ph.p_memsz)
        ph.p_vaddr
        (segment_perm ph.p_flags)
        ph.p_memsz
        j
        s2
      ≡ ret tt s3
    → elf_load_seg (map_new image) ph s ≡ ret tt s3
unfolding elf_load_seg
elf_load_seg-run image ph s s1 s2 s3 j run1 run2 run3 = rw (run1, run2) run3

contents :
    (image : ℕ → ℕ) (va size perm i k n : ℕ) (s t : Space)
    → Filled image va size perm i k s t
    → n < k
    → ((a : ℕ)
        → va ≤ a
        → a < va + i
        → (s.byte a ≡ segment_byte image size (a - va)) × (s.mapped (a / 4096) ≡ some perm))
    → (t.byte (va + n) ≡ segment_byte image size n) × (t.mapped ((va + n) / 4096) ≡ some perm)
contents image va size perm i k n s t fill lt inside =
    let e : va + n - va ≡ n = omega arith in
    let (byte, mapped) = fill (va + n) in
    elim (Bool-cases (ltb n i)) [
      | inl early ↦
          let out : (leb (va + i) (va + n) && ltb (va + n) (va + k)) ≡ false = ground arith in
          let (byte', mapped') = inside (va + n) (omega arith) (ground arith) in
          (byte ∙ rw out (byte' ∙ ap (segment_byte image size) e), mapped ∙ rw out mapped')
      | inr late ↦
          let within : (leb (va + i) (va + n) && ltb (va + n) (va + k)) ≡ true = ground arith in
          (byte ∙ rw within (ap (segment_byte image size) e), mapped ∙ rw within refl)
    ]

around :
    (image : ℕ → ℕ) (va size perm i k a : ℕ) (s0 s t : Space)
    → Filled image va size perm i k s t
    → (leb (va + i) a && ltb a (va + k)) ≡ false
    → (s.byte a ≡ s0.byte a) × (s.mapped (a / 4096) ≡ s0.mapped (a / 4096))
    → (t.byte a ≡ s0.byte a) × (t.mapped (a / 4096) ≡ s0.mapped (a / 4096))
around image va size perm i k a s0 s t fill out (byte, mapped) =
    ((fill a).0 ∙ rw out byte, (fill a).1 ∙ rw out mapped)

-- Where Step 1 begins: at a page, or at the end of the file part.
start_lem :
    (va size total : ℕ)
    → (va % 4096 ≡ 0) ⊎ ((4096 - va % 4096 ≤ size) ⊎ (total ≤ size))
    → (first_index va size ≤ size)
      × (((va + first_index va size) % 4096 ≡ 0) ⊎ ((first_index va size ≡ size) × (total ≤ size)))
start_lem va size total shape = elim (Bool-cases (va % 4096 == 0)) [
  | inl y ↦ rw y (omega arith, inl (let e : va % 4096 ≡ 0 = ground arith in omega arith))
  | inr n ↦ rw n (
    omega arith,
    elim shape [
      | inl e ↦ absurd (ground arith)
      | inr (inl full) ↦ inl (omega arith)
      | inr (inr whole) ↦ elim (Bool-cases (leb size (4096 - va % 4096))) [
        | inl short ↦ let l : size ≤ 4096 - va % 4096 = ground arith in inr (omega arith, whole)
        | inr long ↦ let l : 4096 - va % 4096 < size = ground arith in inl (omega arith)
      ]
    ],
  )
]

-- the permission of a segment: PTE_V, and PTE_D if the segment has PF_W
abbrev pub right_perm : ℕ → ℕ
right_perm flags = if bit_and flags 2 == 0 then 0x80 else 0x180

-- A segment is in memory with its permission, and nothing but its pages has changed.
abbrev pub Loaded : (ℕ → ℕ) → ProgramHeader → Space → Space → Type 0
Loaded image ph s t =
    ((k : ℕ)
      → k < ph.p_memsz
      → (t.byte (ph.p_vaddr + k) ≡ segment_byte image ph.p_filesz k)
        × (t.mapped ((ph.p_vaddr + k) / 4096) ≡ some (right_perm ph.p_flags)))
    × ((a : ℕ)
        → (a / 4096 < ph.p_vaddr / 4096) ⊎ (ph.p_vaddr + ph.p_memsz + 4096 ≤ a)
        → (t.byte a ≡ s.byte a) × (t.mapped (a / 4096) ≡ s.mapped (a / 4096)))

-- With a mapper that maps a page of zeros with the permission that it is given, and with the bytes
-- copied into it, over what was there,
-- elf_load_seg comes to an end, for a segment that lies below 2 ^ 32 - 8192 and whose file part is not
-- longer than the segment, if the segment begins with a page, or its file part reaches the end of
-- the first page, or nothing comes behind the file part. Then every byte of the segment is that of
-- the image, or zero behind the file part, on a page that is mapped with PTE_V, and with PTE_D exactly
-- if the segment has PF_W; and the bytes and permissions of pages before the first and from 4096
-- bytes behind the end on are as before.
pub elf_load_seg-Loaded :
    (image : ℕ → ℕ) (ph : ProgramHeader) (s : Space)
    → ph.p_filesz ≤ ph.p_memsz
    → ph.p_vaddr + ph.p_memsz + 8192 ≤ 2 ^ 32
    → (ph.p_vaddr % 4096 ≡ 0)
      ⊎ ((4096 - ph.p_vaddr % 4096 ≤ ph.p_filesz) ⊎ (ph.p_memsz ≤ ph.p_filesz))
    → (t : Space) × (elf_load_seg (map_new image) ph s ≡ ret tt t) × Loaded image ph s t
elf_load_seg-Loaded image ph s sizes fits shape =
    let va = ph.p_vaddr in
    let perm = segment_perm ph.p_flags in
    let i0 = first_index va ph.p_filesz in
    let (i0_le, al) = start_lem va ph.p_filesz ph.p_memsz shape in
    let (s1, run1, (inside, outside)) = load_first_lem image va perm ph.p_filesz s in
    let (j, s2, run2, (l2, done2, al2, near2, fill2)) =
      load_from_lem image (suc ph.p_filesz) va ph.p_filesz perm i0 s1 (omega arith) (omega arith)
        (ground arith) (omega arith) in
    let next : ((va + j) % 4096 ≡ 0) ⊎ (ph.p_memsz ≤ j) = elim al2 [
      | inl e ↦ inl e
      | inr same ↦ elim al [
        | inl e ↦ inl (let e' : va + j ≡ va + i0 = omega (arith, same) in rw e' e)
        | inr (e, whole) ↦ inr (omega (arith, same, e, whole))
      ]
    ] in
    let (k, s3, run3, (l3, done3, al3, near3, fill3)) =
      clear_from_lem image (suc ph.p_memsz) va ph.p_filesz ph.p_memsz perm j s2 (omega arith)
        (omega arith) next (inr (omega arith)) done2 in
    let fill = Filled-trans image va ph.p_filesz perm i0 j k s1 s2 s3 l2 l3 fill2 fill3 in
    let last : k < ph.p_memsz + 4096 = ground arith in
    (
      s3,
      elf_load_seg-run image ph s s1 s2 s3 j run1 run2 run3,
      (
        λ n lt.
            contents image va ph.p_filesz perm i0 k n s1 s3 fill (omega (arith, lt, done3)) inside,
        λ a out.
            let e : (leb (va + i0) a && ltb a (va + k)) ≡ false = ground arith in
            around image va ph.p_filesz perm i0 k a s s1 s3 fill e (outside a (ground arith)),
      ),
    )
