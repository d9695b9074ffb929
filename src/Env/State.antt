-- ===== src/Env/State.antt =====
-- The structures of include/env.h and include/trap.h, and the globals of kern/env.c.
use buaa_os_challenge.Base.{ℕ, Bool, false, Option, none, some, update, ◌==◌}
use buaa_os_challenge.Base.Int.{ℤ}
use buaa_os_challenge.Base.Monad.{Run, ret, fail, panic, M}
use buaa_os_challenge.Queue.{Links, TailQueue}
use buaa_os_challenge.Memory.{Memory}

-- struct Trapframe
pub record Trapframe : Type 0 where
  pub regs : ℕ → ℕ
  pub status : ℕ
  pub hi : ℕ
  pub lo : ℕ
  pub badvaddr : ℕ
  pub cause : ℕ
  pub epc : ℕ

-- struct Env, less the links of the two queues
pub record Env : Type 0 where
  pub tf : Trapframe
  pub id : ℕ
  pub asid : ℕ
  pub parent_id : ℕ
  pub status : ℕ
  pub pgdir : ℕ
  pub pri : ℕ
  pub ipc_value : ℕ
  pub ipc_from : ℕ
  pub ipc_recving : ℕ
  pub ipc_dstva : ℕ
  pub ipc_perm : ℕ
  pub user_tlb_mod_entry : ℕ
  pub runs : ℕ

-- ENV_FREE, ENV_RUNNABLE and ENV_NOT_RUNNABLE
abbrev pub env_free_status : ℕ
env_free_status = 0

abbrev pub env_runnable : ℕ
env_runnable = 1

abbrev pub env_not_runnable : ℕ
env_not_runnable = 2

-- The globals. `kstack` is the context that the exception entry saved below KSTACKTOP, `count` the
-- static variable of schedule, `next_id` that of mkenvid.
pub record Kernel : Type 0 where
  pub mem : Memory
  pub envs : ℕ → Env
  pub curenv : Option ℕ
  pub free : Links
  pub sched : TailQueue
  pub base_pgdir : ℕ
  pub cur_pgdir : ℕ
  pub asid_bitmap : ℕ → ℕ
  pub next_id : ℕ
  pub count : ℤ
  pub kstack : Trapframe

abbrev pub env_of : Kernel → ℕ → Env
env_of k e = k.envs e

abbrev pub update_env : ℕ → (Env → Env) → Kernel → Kernel
update_env e f k = record k { envs = update k.envs e (f (k.envs e)) }

-- a function of kern/pmap.c, called from the rest of the kernel
abbrev pub lift_run : {A : Type 0} → Kernel → Run Memory A → Run Kernel A
lift_run k (ret a m) = ret a (record k { mem = m })
lift_run k (fail e m) = fail e (record k { mem = m })
lift_run k panic = panic

abbrev pub on_mem : {A : Type 0} → M Memory A → M Kernel A
on_mem f k = lift_run k (f k.mem)

-- `curenv == e`
abbrev pub is_current : Option ℕ → ℕ → Bool
is_current none e = false
is_current (some c) e = c == e
