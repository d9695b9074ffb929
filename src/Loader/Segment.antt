-- ===== src/Loader/Segment.antt =====
-- What the loops of elf_load_seg leave in an address space.
use Prim.Native.Nat.{min}
use buaa_os_challenge.Base.{
  ℕ, zero, suc, ◌+◌, ◌-◌, ◌*◌, ◌%◌, ◌^◌, ◌<◌, ◌≤◌, ◌≡◌, ◌⊎◌, ap, ◌∙◌, true, false, some, ltb, arith,
  Bool-cases, inl, inr,
}
use buaa_os_challenge.Base.Monad.{ret}
use buaa_os_challenge.Loader.{load_from, clear_from}
use buaa_os_challenge.Loader.Filled.{
  Space, page_byte, with_page, map_new, page_Filled, image_page, Ended, Ended-at, Ended-later,
}

load_step :
    (image : ℕ → ℕ) (n va size perm i : ℕ) (s : Space)
    → i < size
    → va + size + 8192 ≤ 2 ^ 32
    → load_from (map_new image) (suc n) va perm size i s
      ≡ load_from
          (map_new image)
          n
          va
          perm
          size
          (i + 4096)
          (with_page (va + i) perm (page_byte image 0 (some i) (min (size - i) 4096)) s)
unfolding load_from
load_step image n va size perm i s lt fits =
    let more : ltb i size ≡ true = ground arith in
    let e1 : (va + i) % 2 ^ 32 ≡ va + i = omega arith in
    let e2 : (i + 4096) % 2 ^ 32 ≡ i + 4096 = omega arith in
    rw more (
      ap
        (λ (b : ℕ).
          load_from (map_new image) n va perm size ((i + 4096) % 2 ^ 32)
            (with_page b perm (page_byte image 0 (some i) (min (size - i) 4096)) s))
        e1
      ∙ ap
          (λ (j : ℕ).
            load_from (map_new image) n va perm size j
              (with_page (va + i) perm (page_byte image 0 (some i) (min (size - i) 4096)) s))
          e2)

pub load_done :
    (image : ℕ → ℕ) (n va size perm i : ℕ) (s : Space)
    → size ≤ i
    → load_from (map_new image) (suc n) va perm size i s ≡ ret i s
unfolding load_from
load_done image n va size perm i s le = let done : ltb i size ≡ false = ground arith in rw done

pub clear_step :
    (image : ℕ → ℕ) (n va size perm i : ℕ) (s : Space)
    → i < size
    → va + size + 8192 ≤ 2 ^ 32
    → clear_from (map_new image) (suc n) va perm size i s
      ≡ clear_from (map_new image) n va perm size (i + 4096) (with_page (va + i) perm (λ _. 0) s)
unfolding clear_from
clear_step image n va size perm i s lt fits =
    let more : ltb i size ≡ true = ground arith in
    let e1 : (va + i) % 2 ^ 32 ≡ va + i = omega arith in
    let e2 : (i + 4096) % 2 ^ 32 ≡ i + 4096 = omega arith in
    rw more (
      ap
        (λ (b : ℕ).
          clear_from (map_new image) n va perm size ((i + 4096) % 2 ^ 32)
            (with_page b perm (λ _. 0) s))
        e1
      ∙ ap
          (λ (j : ℕ).
            clear_from (map_new image) n va perm size j (with_page (va + i) perm (λ _. 0) s))
          e2)

pub clear_done :
    (image : ℕ → ℕ) (n va size perm i : ℕ) (s : Space)
    → size ≤ i
    → clear_from (map_new image) (suc n) va perm size i s ≡ ret tt s
unfolding clear_from
clear_done image n va size perm i s le = let done : ltb i size ≡ false = ground arith in rw done

-- The loop over the pages of the image, which ends within its bound.
pub load_from_lem :
    (image : ℕ → ℕ) (n va size perm i : ℕ) (s : Space)
    → size + 4096 ≤ n * 4096 + i
    → va + size + 8192 ≤ 2 ^ 32
    → ((va + i) % 4096 ≡ 0) ⊎ (size ≤ i)
    → i < size + 4096
    → (j : ℕ) × (t : Space) × (load_from (map_new image) n va perm size i s ≡ ret j t)
      × Ended image va size perm i size s j t
load_from_lem image zero va size perm i s enough fits al top = absurd (omega arith)
load_from_lem image (suc n) va size perm i s enough fits al top = elim (Bool-cases (ltb i size)) [
  | inr done ↦ (
    i,
    s,
    load_done image n va size perm i s (ground arith),
    Ended-at image va size perm i size s (ground arith),
  )
  | inl more ↦
      let lt : i < size = ground arith in
      let al' : (va + i) % 4096 ≡ 0 = ground arith in
      let bytes = page_byte image 0 (some i) (min (size - i) 4096) in
      let page =
        page_Filled image va size perm i bytes s al' (λ o lo. image_page image size i o lt lo) in
      let next : ((va + (i + 4096)) % 4096 ≡ 0) ⊎ (size ≤ i + 4096) = inl (omega arith) in
      let (j, u, run, end) =
        load_from_lem image n va size perm (i + 4096) (with_page (va + i) perm bytes s)
          (omega arith) fits next (omega arith) in
      (
        j,
        u,
        load_step image n va size perm i s lt fits ∙ run,
        Ended-later image va size perm i size j s (with_page (va + i) perm bytes s) u al' lt page
            end,
      )
]

-- The loop over the pages without an image.
pub clear_from_lem :
    (image : ℕ → ℕ) (n va filesz size perm i : ℕ) (s : Space)
    → size + 4096 ≤ n * 4096 + i
    → va + size + 8192 ≤ 2 ^ 32
    → ((va + i) % 4096 ≡ 0) ⊎ (size ≤ i)
    → (i < size + 4096) ⊎ (1 ≤ n)
    → filesz ≤ i
    → (j : ℕ) × (t : Space) × (clear_from (map_new image) n va perm size i s ≡ ret tt t)
      × Ended image va filesz perm i size s j t
clear_from_lem image zero va filesz size perm i s enough fits al top behind = absurd (ground arith)
clear_from_lem image (suc n) va filesz size perm i s enough fits al top behind =
    elim (Bool-cases (ltb i size)) [
      | inr done ↦ (
        i,
        s,
        clear_done image n va size perm i s (ground arith),
        Ended-at image va filesz perm i size s (ground arith),
      )
      | inl more ↦
          let lt : i < size = ground arith in
          let al' : (va + i) % 4096 ≡ 0 = ground arith in
          let page = page_Filled image va filesz perm i (λ _. 0) s al' (λ o lo. ground arith) in
          let next : ((va + (i + 4096)) % 4096 ≡ 0) ⊎ (size ≤ i + 4096) = inl (omega arith) in
          let (j, u, run, end) =
            clear_from_lem image n va filesz size perm (i + 4096)
              (with_page (va + i) perm (λ _. 0) s) (omega arith) fits next (inl (omega arith))
              (omega arith) in
          (
            j,
            u,
            clear_step image n va size perm i s lt fits ∙ run,
            Ended-later image va filesz perm i size j s (with_page (va + i) perm (λ _. 0) s) u al'
                lt page end,
          )
    ]
