-- ===== src/Loader/Short.antt =====
-- A segment that begins within a page and whose file part ends in the same page.
use buaa_os_challenge.Base.{
  ℕ, zero, suc, ◌+◌, ◌-◌, ◌*◌, ◌/◌, ◌%◌, ◌^◌, ◌<◌, ◌≤◌, ◌≡◌, ◌≢◌, refl, ap, ◌∙◌, true, false, ltb,
  ◌==◌, arith, Bool-cases, inl, inr,
}
use buaa_os_challenge.Base.Monad.{ret}
use buaa_os_challenge.Loader.{
  ProgramHeader, segment_perm, load_from, clear_from, first_index, elf_load_seg,
}
use buaa_os_challenge.Loader.Filled.{Space, with_page, map_new}
use buaa_os_challenge.Loader.Segment.{load_done, clear_step, clear_done}
use buaa_os_challenge.Loader.Load.{load_first_lem, elf_load_seg-run}

-- Pages before the counter stay.
clear_from-before :
    (image : ℕ → ℕ) (n va size perm i : ℕ) (s : Space)
    → size + 4096 ≤ n * 4096 + i
    → 1 ≤ n
    → va + size + 8192 ≤ 2 ^ 32
    → (t : Space) × (clear_from (map_new image) n va perm size i s ≡ ret tt t)
      × ((a : ℕ) → a / 4096 < (va + i) / 4096 → t.byte a ≡ s.byte a)
clear_from-before image zero va size perm i s enough some fits = absurd (omega arith)
clear_from-before image (suc n) va size perm i s enough some fits = elim (Bool-cases (ltb i size)) [
  | inr done ↦ (s, clear_done image n va size perm i s (ground arith), λ a lt. refl)
  | inl more ↦
      let lt : i < size = ground arith in
      let (t, run, kept) =
        clear_from-before image n va size perm (i + 4096) (with_page (va + i) perm (λ _. 0) s)
          (omega arith) (omega arith) fits in
      (
        t,
        clear_step image n va size perm i s lt fits ∙ run,
        λ a l.
            let far : (a / 4096 == (va + i) / 4096) ≡ false = ground arith in
            kept a (omega arith) ∙ rw far,
      )
]

no_pages_read :
    (image : ℕ → ℕ) (ph : ProgramHeader) (s : Space)
    → ph.p_vaddr % 4096 ≢ 0
    → ph.p_filesz < 4096 - ph.p_vaddr % 4096
    → load_from
        (map_new image)
        (suc ph.p_filesz)
        ph.p_vaddr
        (segment_perm ph.p_flags)
        ph.p_filesz
        (first_index ph.p_vaddr ph.p_filesz)
        s
      ≡ ret ph.p_filesz s
no_pages_read image ph s off short =
    let start : first_index ph.p_vaddr ph.p_filesz ≡ ph.p_filesz = ground arith in
    ap
      (λ (i : ℕ).
        load_from (map_new image) (suc ph.p_filesz) ph.p_vaddr (segment_perm ph.p_flags) ph.p_filesz
          i s)
      start
    ∙ load_done image ph.p_filesz ph.p_vaddr ph.p_filesz (segment_perm ph.p_flags) ph.p_filesz s
        (omega arith)

-- For a segment below 2 ^ 32 - 8192 that begins within a page, whose file part ends before the end
-- of this page and which is longer than its file part: elf_load_seg returns without an error,
-- but the first page is mapped a second time, empty, so that all bytes of the file part are zero.
pub elf_load_seg-short :
    (image : ℕ → ℕ) (ph : ProgramHeader) (s : Space)
    → ph.p_vaddr % 4096 ≢ 0
    → ph.p_filesz < 4096 - ph.p_vaddr % 4096
    → ph.p_filesz < ph.p_memsz
    → ph.p_vaddr + ph.p_memsz + 8192 ≤ 2 ^ 32
    → (t : Space) × (elf_load_seg (map_new image) ph s ≡ ret tt t)
      × ((k : ℕ) → k < ph.p_filesz → t.byte (ph.p_vaddr + k) ≡ 0)
elf_load_seg-short image ph s off short more fits =
    let va = ph.p_vaddr in
    let perm = segment_perm ph.p_flags in
    let (s1, run1, _) = load_first_lem image va perm ph.p_filesz s in
    let empty = with_page (va + ph.p_filesz) perm (λ _. 0) s1 in
    let step = clear_step image ph.p_memsz va ph.p_memsz perm ph.p_filesz s1 more fits in
    let (t, run3, kept) =
      clear_from-before image ph.p_memsz va ph.p_memsz perm (ph.p_filesz + 4096) empty (omega arith)
        (omega arith) fits in
    (
      t,
      elf_load_seg-run image ph s s1 s1 t ph.p_filesz run1 (no_pages_read image ph s1 off short)
          (step ∙ run3),
      λ k lt.
          let near : ((va + k) / 4096 == (va + ph.p_filesz) / 4096) ≡ true = ground arith in
          kept (va + k) (omega arith) ∙ rw near,
    )
