-- ===== src/Env/Examples.antt =====
-- A small kernel: the environments 1, 2 and 3 are runnable, 1 runs, and 2 is a child of 1.
use buaa_os_challenge.Base.{
  ℕ, ◌/◌, ◌^◌, ◌<◌, ◌≡◌, refl, true, some, none, [], ◌∷◌, arith, get_elem?, update,
}
use buaa_os_challenge.Base.Int.{pos}
use buaa_os_challenge.Base.Monad.{ret}
use buaa_os_challenge.Queue.{first_of, Links, TailQueue, tailq_init, tailq_insert_tail}
use buaa_os_challenge.Queue.Chain.{IsQueue}
use buaa_os_challenge.Queue.Laws.{tailq_init-IsQueue, tailq_insert_tail-IsQueue}
use buaa_os_challenge.Memory.Examples.{space}
use buaa_os_challenge.Env.State.{Trapframe, Env, Kernel}
use buaa_os_challenge.Env.{mkenvid, envx, envid2env, schedule}
use buaa_os_challenge.Env.Ident.{mkenvid_lem, IsNumbered, Converted, envid2env_lem}
use buaa_os_challenge.Env.Rotate.{IsRunning, snoc, Slice, yields, schedule-yield, yields-get_elem?}

abbrev pub frame : Trapframe
frame = record { regs = λ _. 0; status = 0; hi = 0; lo = 0; badvaddr = 0; cause = 0; epc = 0 }

abbrev pub environment : ℕ → ℕ → ℕ → Env
environment id parent status = record {
  tf = frame;
  id = id;
  asid = 0;
  parent_id = parent;
  status = status;
  pgdir = 0;
  pri = 2;
  ipc_value = 0;
  ipc_from = 0;
  ipc_recving = 0;
  ipc_dstva = 0;
  ipc_perm = 0;
  user_tlb_mod_entry = 0;
  runs = 0;
}

abbrev no_links : Links
no_links = record { first = none; next = λ _. none; prev = λ _. first_of }

abbrev empty : TailQueue
empty = tailq_init (record { links = no_links; last = first_of })

abbrev three : TailQueue
three = tailq_insert_tail (tailq_insert_tail (tailq_insert_tail empty 1) 2) 3

pub three-IsQueue : IsQueue three (1 ∷ 2 ∷ 3 ∷ [])
three-IsQueue =
    tailq_insert_tail-IsQueue (tailq_insert_tail (tailq_insert_tail empty 1) 2) (1 ∷ 2 ∷ []) 3
      (tailq_insert_tail-IsQueue (tailq_insert_tail empty 1) (1 ∷ []) 2
        (tailq_insert_tail-IsQueue empty [] 1
          (tailq_init-IsQueue (record { links = no_links; last = first_of })) refl)
        refl)
      refl

abbrev pub kernel : Kernel
kernel = record {
  mem = space;
  envs =
      update
        (update (update (λ e. environment 0 0 0) 1 (environment 2049 0 1)) 2
          (environment 4098 2049 1))
        3 (environment 6147 0 1);
  curenv = some 1;
  free = no_links;
  sched = three;
  base_pgdir = 0;
  cur_pgdir = 0;
  asid_bitmap = λ _. 3;
  next_id = 3;
  count = pos 2;
  kstack = frame;
}

kernel-IsRunning : IsRunning kernel (1 ∷ 2 ∷ 3 ∷ [])
kernel-IsRunning = record { queue = three-IsQueue; current = refl; runnable = λ e h. ground arith }

mkenvid_lem_example :
    (id : ℕ) × (mkenvid 5 kernel ≡ ret id (record kernel { next_id = 4 }))
    × (envx id ≡ 5)
    × (id / 2 ^ 11 ≡ 4)
    × (0 < id)
mkenvid_lem_example = mkenvid_lem kernel 5 (omega arith) (omega arith)

kernel-IsNumbered : IsNumbered kernel
kernel-IsNumbered e lt = ground arith

envid2env_lem_example : Converted kernel 1 4098 true (envid2env 4098 true kernel)
envid2env_lem_example = envid2env_lem kernel 1 4098 true kernel-IsNumbered refl (λ e. ground arith)

schedule-yield_example :
    (k' : Kernel) × (schedule true kernel ≡ ret tt k')
    × IsRunning k' (snoc (2 ∷ 3 ∷ []) 1)
    × Slice kernel (snoc (2 ∷ 3 ∷ []) 1) k'.count
schedule-yield_example = schedule-yield kernel 1 (2 ∷ 3 ∷ []) kernel-IsRunning

yields-get_elem?_example :
    (k' : Kernel) × (yields 2 kernel ≡ ret tt k') × (k'.curenv ≡ get_elem? (1 ∷ 2 ∷ 3 ∷ []) 2)
yields-get_elem?_example = yields-get_elem? 2 kernel (1 ∷ 2 ∷ 3 ∷ []) kernel-IsRunning (omega arith)
