-- ===== src/Loader.antt =====
-- The ELF loader, lib/elfloader.c with include/elf.h. The image is a function from offsets to bytes.
-- The function `map_page` that the caller passes in is a parameter; the address of `bin` that it
-- gets is the offset from `bin`, or none for NULL. Loops count their rounds up to a bound that is
-- enough.
pub mod Filled
pub mod Segment
pub mod Load
pub mod Short
mod Examples
use buaa_os_challenge.Base.{
  ℕ, zero, suc, ◌+◌, ◌-◌, ◌*◌, ◌/◌, ◌%◌, ◌^◌, Bool, true, false, not, ◌&&◌, Option, none, some, ltb,
  leb, ◌==◌, if◌then◌else◌, update,
}
use buaa_os_challenge.Base.Monad.{Run, ret, fail, panic, M, pure, stop, and_then, ◌>>=◌, ◌>>◌}
use Prim.Native.Nat.{min, bit_and, bit_or}
use buaa_os_challenge.Memory.Entry.{pte_v, pte_d}

-- the fields of Elf32_Phdr that the loader reads
pub record ProgramHeader : Type 0 where
  pub p_vaddr : ℕ
  pub p_filesz : ℕ
  pub p_memsz : ℕ
  pub p_flags : ℕ

-- e_type, two bytes with the lowest first
abbrev pub e_type : (ℕ → ℕ) → ℕ
e_type binary = binary 16 + binary 17 * 256

-- elf_from: whether it returns the header
unfoldable pub elf_from : (ℕ → ℕ) → ℕ → Bool
elf_from binary size =
    leb 52 size
    && (binary 0 == 0x7f)
    && (binary 1 == b'E')
    && (binary 2 == b'L')
    && (binary 3 == b'F')
    && (e_type binary == 2)

-- PTE_V, with PTE_D where the segment may be written
abbrev pub segment_perm : ℕ → ℕ
segment_perm flags = if bit_and flags 2 == 0 then pte_v else bit_or pte_v pte_d

-- map_page: address, offset, permission, place in `bin`, length
abbrev pub Mapper : Type 0 → Type 0
Mapper S = ℕ → ℕ → ℕ → Option ℕ → ℕ → M S (Unit {0})

-- where Step 1 begins
abbrev pub first_index : ℕ → ℕ → ℕ
first_index va bin_size = if va % 4096 == 0 then 0 else min bin_size (4096 - va % 4096)

module _ {S : Type 0} (map_page : Mapper S) where
  -- Step 1 from `i` on: the bytes of the image. The result is `i` at the end.
  unfoldable pub load_from : ℕ → ℕ → ℕ → ℕ → ℕ → M S ℕ
  load_from zero va perm bin_size i s = panic
  load_from (suc n) va perm bin_size i s =
      let rest = λ (_ : Unit {0}). load_from n va perm bin_size ((i + 4096) % 2 ^ 32) in
      if ltb i bin_size
      then and_then (map_page ((va + i) % 2 ^ 32) 0 perm (some i) (min (bin_size - i) 4096) s) rest
      else ret i s

  -- Step 2 from `i` on: the pages without an image.
  unfoldable pub clear_from : ℕ → ℕ → ℕ → ℕ → ℕ → M S (Unit {0})
  clear_from zero va perm sgsize i s = panic
  clear_from (suc n) va perm sgsize i s =
      let rest = λ (_ : Unit {0}). clear_from n va perm sgsize ((i + 4096) % 2 ^ 32) in
      if ltb i sgsize
      then and_then (map_page ((va + i) % 2 ^ 32) 0 perm none (min (sgsize - i) 4096) s) rest
      else ret tt s

  -- the page in which the segment begins, if it does not begin with it
  abbrev pub load_first : ℕ → ℕ → ℕ → M S (Unit {0})
  load_first va perm bin_size s =
      if va % 4096 == 0
      then ret tt s
      else map_page va (va % 4096) perm (some 0) (min bin_size (4096 - va % 4096)) s

  -- elf_load_seg
  unfoldable pub elf_load_seg : ProgramHeader → M S (Unit {0})
  unfolding load_from clear_from
  elf_load_seg ph = do
    let va = ph.p_vaddr
    let perm = segment_perm ph.p_flags
    load_first va perm ph.p_filesz
    i ← load_from (suc ph.p_filesz) va perm ph.p_filesz (first_index va ph.p_filesz)
    clear_from (suc ph.p_memsz) va perm ph.p_memsz i
