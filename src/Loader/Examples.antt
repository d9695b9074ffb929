-- ===== src/Loader/Examples.antt =====
-- A segment of 6000 bytes with a file part of 5000, from within a page on, and a short one.
use buaa_os_challenge.Base.{ℕ, ◌+◌, ◌%◌, ◌<◌, ◌≡◌, none, arith, inr, inl}
use buaa_os_challenge.Base.Monad.{ret}
use buaa_os_challenge.Loader.{ProgramHeader, elf_load_seg}
use buaa_os_challenge.Loader.Filled.{Space, map_new}
use buaa_os_challenge.Loader.Load.{Loaded, elf_load_seg-Loaded}
use buaa_os_challenge.Loader.Short.{elf_load_seg-short}

abbrev segment : ProgramHeader
segment = record { p_vaddr = 0x40_0100; p_filesz = 5000; p_memsz = 6000; p_flags = 6 }

abbrev short : ProgramHeader
short = record { p_vaddr = 0x40_0100; p_filesz = 16; p_memsz = 32; p_flags = 6 }

abbrev no_pages : Space
no_pages = record { mapped = λ _. none; byte = λ _. 0 }

abbrev image : ℕ → ℕ
image k = k % 256

elf_load_seg-Loaded_example :
    (t : Space) × (elf_load_seg (map_new image) segment no_pages ≡ ret tt t)
    × Loaded image segment no_pages t
elf_load_seg-Loaded_example =
    elf_load_seg-Loaded image segment no_pages (omega arith) (omega arith) (inr (inl (omega arith)))

elf_load_seg-short_example :
    (t : Space) × (elf_load_seg (map_new image) short no_pages ≡ ret tt t)
    × ((k : ℕ) → k < 16 → t.byte (0x40_0100 + k) ≡ 0)
elf_load_seg-short_example =
    elf_load_seg-short image short no_pages (λ e. omega arith) (omega arith) (omega arith)
      (omega arith)
