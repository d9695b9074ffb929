-- ===== src/Env/Boot.antt =====
-- map_segment and env_init of kern/env.c. Where the linker and the boot allocator put the arrays
-- `pages` and `envs` are arguments: their physical addresses.
use buaa_os_challenge.Base.{ℕ, ◌+◌, ◌-◌, ◌*◌, ◌/◌, ◌%◌, ◌^◌, ◌==◌}
use buaa_os_challenge.Base.Monad.{
  Run, ret, fail, panic, M, modify, get, assert, or_panic, for_from, ◌>>=◌, ◌>>◌,
}
use buaa_os_challenge.Queue.{list_init, insert_head, tailq_init}
use buaa_os_challenge.Memory.{Memory, set_ref, pa2page, page2kva, page_alloc, page_insert}
use buaa_os_challenge.Memory.Entry.{pte_g}
use buaa_os_challenge.Memory.Boot.{round_page}
use buaa_os_challenge.Env.State.{Kernel, update_env, on_mem, env_free_status}

-- a call whose error code nobody reads
abbrev pub ignore : Run Memory (Unit {0}) → Run Memory (Unit {0})
ignore (ret a m) = ret a m
ignore (fail e m) = ret tt m
ignore panic = panic

-- One round of the loop of map_segment.
unfoldable pub map_page : ℕ → ℕ → ℕ → ℕ → ℕ → ℕ → M Memory (Unit {0})
map_page pgdir asid pa va perm i = do
  pp ← pa2page (pa + i * 4096)
  (λ m. ignore (page_insert pgdir asid pp (va + i * 4096) perm m))

-- map_segment
unfoldable pub map_segment : ℕ → ℕ → ℕ → ℕ → ℕ → ℕ → M Memory (Unit {0})
unfolding for_from
map_segment pgdir asid pa va size perm = do
  assert (pa % 4096 == 0)
  assert (va % 4096 == 0)
  assert (size % 4096 == 0)
  for_from (size / 4096) 0 (map_page pgdir asid pa va perm)

-- One round of the loop of env_init: `i` counts down from NENV - 1.
abbrev pub set_free : ℕ → M Kernel (Unit {0})
set_free i k =
    let k1 = update_env i (λ v. record v { status = env_free_status }) k in
    ret tt (record k1 { free = insert_head k1.free i })

-- `panic_on(page_alloc(&p))`
abbrev pub alloc_or_panic : M Memory ℕ
alloc_or_panic m = or_panic (page_alloc m)

-- env_init; the sizes are those of `struct Page` and `struct Env`
unfoldable pub env_init : ℕ → ℕ → M Kernel (Unit {0})
unfolding for_from
env_init pages_pa envs_pa = do
  modify (λ k. record k { free = list_init k.free; sched = tailq_init k.sched })
  for_from 1024 0 (λ j. set_free (1023 - j))
  p ← on_mem alloc_or_panic
  on_mem (modify (λ m. set_ref p ((m.ref p + 1) % 2 ^ 16) m))
  pgdir ← on_mem (page2kva p)
  modify (λ k. record k { base_pgdir = pgdir })
  k ← get
  on_mem (map_segment pgdir 0 pages_pa 0x7f80_0000 (round_page (k.mem.npage * 12)) pte_g)
  on_mem (map_segment pgdir 0 envs_pa 0x7f40_0000 (round_page (1024 * 220)) pte_g)
