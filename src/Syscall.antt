-- ===== src/Syscall.antt =====
-- The system calls of kern/syscall_all.c that act on environments and their address spaces. Their
-- arguments are machine words. A call that does not return to its caller (schedule) ends with the
-- kernel as env_run leaves it.
pub mod Range
pub mod Device
pub mod Jobs
pub mod Switch
pub mod Ready
pub mod Ipc
pub mod Pages
mod Examples
use Range.{is_illegal_va, is_illegal_va_range}
use buaa_os_challenge.Base.{
  ℕ, ◌%◌, ◌^◌, Bool, true, false, not, ◌&&◌, ◌||◌, Option, none, some, update, ◌==◌, if◌then◌else◌,
  bit_or,
}
use buaa_os_challenge.Base.Errors.{inval, ipc_not_recv}
use buaa_os_challenge.Base.Monad.{
  Run, ret, fail, panic, M, pure, throw, get, gets, modify, throw_if, and_then, ◌>>=◌, ◌>>◌,
}
use buaa_os_challenge.Queue.{tailq_insert_tail, tailq_remove}
use buaa_os_challenge.Memory.{page_alloc, page_insert, page_lookup, page_remove, Pte}
use buaa_os_challenge.Memory.Entry.{pte_v}
use buaa_os_challenge.Env.State.{
  Trapframe, Env, Kernel, env_of, update_env, on_mem, is_current, env_runnable, env_not_runnable,
}
use buaa_os_challenge.Env.{deref, envid2env, env_alloc, env_destroy, schedule}

-- envid2env, and then `*` of what it found
unfoldable pub find_env : ℕ → Bool → M Kernel ℕ
find_env envid checkperm = envid2env envid checkperm >>= deref

-- `curenv`, where NULL is an access outside memory
unfoldable pub current : M Kernel ℕ
current = do k ← get; deref k.curenv

-- sys_getenvid
unfoldable pub sys_getenvid : M Kernel ℕ
unfolding current
sys_getenvid = do c ← current; gets (λ k. (env_of k c).id)

-- sys_yield
unfoldable pub sys_yield : M Kernel (Unit {0})
sys_yield = schedule true

-- sys_env_destroy
unfoldable pub sys_env_destroy : ℕ → M Kernel Bool
sys_env_destroy envid = do e ← find_env envid true; env_destroy e

-- sys_set_tlb_mod_entry
unfoldable pub sys_set_tlb_mod_entry : ℕ → ℕ → M Kernel (Unit {0})
sys_set_tlb_mod_entry envid func = do
  e ← find_env envid true
  modify (update_env e (λ v. record v { user_tlb_mod_entry = func }))

-- sys_mem_alloc
unfoldable pub sys_mem_alloc : ℕ → ℕ → ℕ → M Kernel (Unit {0})
sys_mem_alloc envid va perm = do
  throw_if (is_illegal_va va) inval
  e ← find_env envid true
  pp ← on_mem page_alloc
  k ← get
  on_mem (page_insert (env_of k e).pgdir (env_of k e).asid pp va perm)

-- The page of a page_lookup, where NULL is answered with -E_INVAL.
abbrev pub page_found : Option (ℕ × Pte) → M Kernel ℕ
page_found none = throw inval
page_found (some (pp, _)) = pure pp

-- sys_mem_map
unfoldable pub sys_mem_map : ℕ → ℕ → ℕ → ℕ → ℕ → M Kernel (Unit {0})
sys_mem_map srcid srcva dstid dstva perm = do
  throw_if (is_illegal_va srcva || is_illegal_va dstva) inval
  src ← find_env srcid true
  dst ← find_env dstid true
  k ← get
  o ← on_mem (page_lookup (env_of k src).pgdir srcva)
  pp ← page_found o
  on_mem (page_insert (env_of k dst).pgdir (env_of k dst).asid pp dstva perm)

-- sys_mem_unmap
unfoldable pub sys_mem_unmap : ℕ → ℕ → M Kernel (Unit {0})
sys_mem_unmap envid va = do
  throw_if (is_illegal_va va) inval
  e ← find_env envid true
  k ← get
  on_mem (page_remove (env_of k e).pgdir (env_of k e).asid va)

-- What sys_exofork sets in the child.
abbrev pub forked : Trapframe → ℕ → Env → Env
forked tf pri v = record v {
  tf = record tf { regs = update tf.regs 2 0 };
  status = env_not_runnable;
  pri = pri;
}

-- sys_exofork
unfoldable pub sys_exofork : M Kernel ℕ
unfolding current
sys_exofork = do
  c ← current
  k ← get
  e ← env_alloc (env_of k c).id
  k ← get
  modify (update_env e (forked k.kstack (env_of k c).pri))
  gets (λ k. (env_of k e).id)

-- The step of sys_set_env_status on the queue.
abbrev pub move : ℕ → ℕ → Kernel → Kernel
move e status k =
    if (env_of k e).status == status
    then k
    else if status == env_runnable
    then record k { sched = tailq_insert_tail k.sched e }
    else record k { sched = tailq_remove k.sched e }

-- sys_set_env_status
unfoldable pub sys_set_env_status : ℕ → ℕ → M Kernel (Unit {0})
sys_set_env_status envid status = do
  throw_if (not (status == env_runnable) && not (status == env_not_runnable)) inval
  e ← find_env envid true
  modify (move e status)
  modify (update_env e (λ v. record v { status = status }))

-- sys_set_trapframe; `tf` is what stands at the address `va` of user memory
unfoldable pub sys_set_trapframe : ℕ → ℕ → Trapframe → M Kernel ℕ
sys_set_trapframe envid va tf = do
  throw_if (is_illegal_va_range va 152) inval
  e ← find_env envid true
  k ← get
  if is_current k.curenv e
      then (do modify (λ k. record k { kstack = tf }); pure (tf.regs 2))
      else (do modify (update_env e (λ v. record v { tf = tf })); pure 0)

-- What sys_ipc_recv sets in the receiver.
abbrev pub receiving : ℕ → Env → Env
receiving dstva v = record v { ipc_recving = 1; ipc_dstva = dstva; status = env_not_runnable }

abbrev pub set_result : ℕ → Kernel → Kernel
set_result n k = record k { kstack = record k.kstack { regs = update k.kstack.regs 2 n } }

-- sys_ipc_recv
unfoldable pub sys_ipc_recv : ℕ → M Kernel (Unit {0})
unfolding current
sys_ipc_recv dstva = do
  throw_if (not (dstva == 0) && is_illegal_va dstva) inval
  c ← current
  modify (update_env c (receiving dstva))
  modify (λ k. record k { sched = tailq_remove k.sched c })
  modify (set_result 0)
  schedule true

-- What sys_ipc_try_send sets in the receiver.
abbrev pub delivered : ℕ → ℕ → ℕ → Env → Env
delivered value from perm v = record v {
  ipc_value = value;
  ipc_from = from;
  ipc_perm = bit_or pte_v perm;
  ipc_recving = 0;
  status = env_runnable;
}

-- The page of a message, where there is one.
unfoldable pub send_page : ℕ → ℕ → ℕ → ℕ → M Kernel (Unit {0})
send_page c e srcva perm = do
  k ← get
  o ← on_mem (page_lookup (env_of k c).pgdir srcva)
  p ← page_found o
  on_mem (page_insert (env_of k e).pgdir (env_of k e).asid p (env_of k e).ipc_dstva perm)

-- sys_ipc_try_send
unfoldable pub sys_ipc_try_send : ℕ → ℕ → ℕ → ℕ → M Kernel (Unit {0})
unfolding current
sys_ipc_try_send envid value srcva perm = do
  throw_if (not (srcva == 0) && is_illegal_va srcva) inval
  e ← find_env envid false
  k ← get
  throw_if ((env_of k e).ipc_recving == 0) ipc_not_recv
  c ← current
  modify (λ k. update_env e (delivered value (env_of k c).id perm) k)
  modify (λ k. record k { sched = tailq_insert_tail k.sched e })
  if srcva == 0 then pure tt else send_page c e srcva perm

-- sys_get_env_parent_id
unfoldable pub sys_get_env_parent_id : ℕ → M Kernel ℕ
sys_get_env_parent_id envid = do e ← find_env envid false; gets (λ k. (env_of k e).parent_id)
