-- ===== src/Syscall/Examples.antt =====
-- System calls of a small kernel: environment 1 runs, 2 is its child, 3 is ready, and 4 waits for a
-- message.
use buaa_os_challenge.Base.{
  ℕ, ◌+◌, ◌<◌, ◌≤◌, ◌≡◌, ◌⊎◌, inl, inr, ◌↔◌, refl, ◌^◌, sym, ◌∙◌, true, false, none, some, [], ◌∷◌,
  arith,
}
use buaa_os_challenge.Base.Errors.{inval, no_mem}
use buaa_os_challenge.Base.Monad.{ret, fail}
use buaa_os_challenge.Memory.{page_lookup}
use buaa_os_challenge.Memory.Entry.{make_pte, ppn_of}
use buaa_os_challenge.Memory.Space.{look}
use buaa_os_challenge.Memory.Insert.{page_lookup-none}
use buaa_os_challenge.Memory.Examples.{
  space, address, free_pages, space-IsSpace, mapped_there, nothing_there, page_two,
}
use buaa_os_challenge.Env.State.{Kernel, update_env, env_not_runnable}
use buaa_os_challenge.Env.{schedule, envid2env, check_env}
use buaa_os_challenge.Env.Examples.{kernel, three-IsQueue}
use buaa_os_challenge.Syscall.{
  find_env, sys_set_env_status, sys_ipc_recv, sys_ipc_try_send, sys_mem_alloc, sys_mem_map,
}
use buaa_os_challenge.Syscall.Range.{is_illegal_va, is_illegal_va_range, is_illegal_va_range_lem}
use buaa_os_challenge.Syscall.Device.{Io}
use buaa_os_challenge.Syscall.Jobs.{Machine}
use buaa_os_challenge.Syscall.Switch.{IsReady}
use buaa_os_challenge.Syscall.Ready.{
  Scheduled, schedule-IsReady, StatusSet, sys_set_env_status-IsReady,
}
use buaa_os_challenge.Syscall.Ipc.{
  Blocked, Sent, sys_ipc_recv-Blocked, sys_ipc_try_send-Sent, sys_ipc_try_send-unmapped,
}
use buaa_os_challenge.Syscall.Pages.{
  Mapped, PageCounted, AllocResult, sys_mem_alloc_lem, sys_mem_map_lem,
}

abbrev machine : Kernel
machine =
    update_env 4 (λ v. record v { id = 8196; status = 2; ipc_recving = 1; ipc_dstva = address })
      kernel

machine-IsReady : IsReady machine (1 ∷ 2 ∷ 3 ∷ [])
machine-IsReady = record { queue = three-IsQueue; runnable = λ e. ground arith }

child : find_env 4098 true machine ≡ ret 2 machine
unfolding find_env envid2env check_env
child = refl

waiter : find_env 8196 false machine ≡ ret 4 machine
unfolding find_env envid2env check_env
waiter = refl

is_illegal_va_range_lem_example :
    (is_illegal_va_range address 4096 ≡ false)
    ↔ ((a : ℕ) → address ≤ a → a < address + 4096 → is_illegal_va a ≡ false)
is_illegal_va_range_lem_example =
    is_illegal_va_range_lem address 4096 (omega arith) (omega arith) (omega arith)

schedule-IsReady_example :
    (k' : Kernel) × (schedule false machine ≡ ret tt k') × Scheduled machine k'
schedule-IsReady_example =
    schedule-IsReady false machine (1 ∷ 2 ∷ 3 ∷ []) 1 machine-IsReady refl refl

sys_set_env_status-IsReady_example :
    (k' : Kernel) × (sys_set_env_status 4098 env_not_runnable machine ≡ ret tt k')
    × StatusSet machine 2 env_not_runnable k'
sys_set_env_status-IsReady_example =
    sys_set_env_status-IsReady machine (1 ∷ 2 ∷ 3 ∷ []) 4098 2 env_not_runnable machine-IsReady
      child (inl refl) (inr refl)

sys_ipc_recv-Blocked_example :
    (k' : Kernel) × (sys_ipc_recv address machine ≡ ret tt k') × Blocked 1 2 address (3 ∷ []) k'
sys_ipc_recv-Blocked_example =
    sys_ipc_recv-Blocked machine (1 ∷ 2 ∷ 3 ∷ []) 1 address machine-IsReady refl refl 2 (3 ∷ [])
      refl refl

sys_ipc_try_send-Sent_example :
    (k' : Kernel) × (sys_ipc_try_send 8196 77 0 0 machine ≡ ret tt k')
    × Sent machine (1 ∷ 2 ∷ 3 ∷ []) 1 4 77 0 k'
sys_ipc_try_send-Sent_example =
    sys_ipc_try_send-Sent machine (1 ∷ 2 ∷ 3 ∷ []) 1 4 8196 77 0 machine-IsReady refl waiter
      (λ e. ground arith) (λ e. ground arith)

absent : page_lookup 0 (2 ^ 23) space ≡ ret none space
absent = page_lookup-none space 0 (2 ^ 23) free_pages space-IsSpace (omega arith) nothing_there

sys_ipc_try_send-unmapped_example :
    (k' : Kernel) × (sys_ipc_try_send 8196 77 (2 ^ 23) 0 machine ≡ fail inval k')
    × Sent machine (1 ∷ 2 ∷ 3 ∷ []) 1 4 77 0 k'
sys_ipc_try_send-unmapped_example =
    sys_ipc_try_send-unmapped machine (1 ∷ 2 ∷ 3 ∷ []) 1 4 8196 77 0 machine-IsReady refl waiter
      (2 ^ 23) (λ e. ground arith) refl absent (λ e. ground arith) (λ e. ground arith)
      (λ e. ground arith)

counted : PageCounted space 0 (2 ^ 23) free_pages
counted = λ e q. let p : none ≡ some e = sym nothing_there ∙ q in absurd cc

sys_mem_alloc_lem_example :
    AllocResult machine 0 (2 ^ 23) 256 free_pages (sys_mem_alloc 4098 (2 ^ 23) 256 machine)
sys_mem_alloc_lem_example =
    sys_mem_alloc_lem machine 4098 2 (2 ^ 23) 256 child refl free_pages (omega arith) space-IsSpace
      counted

sys_mem_map_lem_example :
    ((k' : Kernel) × (sys_mem_map 4098 address 4098 (2 ^ 23) 256 machine ≡ ret tt k')
      × Mapped machine 0 (2 ^ 23) (ppn_of (make_pte 2 0)) 256 k')
    ⊎ ((k' : Kernel) × (sys_mem_map 4098 address 4098 (2 ^ 23) 256 machine ≡ fail no_mem k')
        × (free_pages ≡ [])
        × (look space.word 0 (2 ^ 23) ≡ none))
sys_mem_map_lem_example =
    sys_mem_map_lem machine 4098 address 4098 (2 ^ 23) 256 2 2 (make_pte 2 0) free_pages refl child
      child (omega arith) space-IsSpace space-IsSpace mapped_there page_two counted

abbrev quiet : Io
quiet = record { device = []; user = [] }

abbrev shell : Machine
shell = record {
  kernel = machine;
  jobs = λ _. record { id = 1; flag = 0; env_id = 4098; command = [] };
  job_num = 1;
}
