-- ===== src/Env.antt =====
-- Environments: kern/env.c with include/env.h, and the scheduler of kern/sched.c. A `struct Env *`
-- is the index of the environment in `envs`. What env_pop_tf does (kern/env_asm.S: it loads the
-- saved registers and leaves for user mode) is outside the model: a call of env_run ends with the
-- kernel as env_run hands it over.
pub mod State
pub mod Asid
pub mod Boot
pub mod Ident
pub mod Rotate
pub mod Slices
pub mod Examples
use State.{
  Trapframe, Env, Kernel, env_of, is_current, update_env, on_mem, env_free_status, env_runnable,
  env_not_runnable,
}
use Asid.{asid_alloc, asid_free}
use buaa_os_challenge.Base.{
  ℕ, ◌+◌, ◌-◌, ◌*◌, ◌/◌, ◌%◌, ◌^◌, Bool, true, false, not, ◌&&◌, ◌||◌, Option, none, some, List, [],
  ◌∷◌, update, ltb, ◌==◌, if◌then◌else◌, bit_or, is_none,
}
use buaa_os_challenge.Base.Int.{ℤ, pos, is_spent, pred_ℤ, to_int}
use buaa_os_challenge.Base.Errors.{Error, bad_env, no_free_env}
use buaa_os_challenge.Base.Monad.{
  Run, ret, fail, panic, M, pure, throw, stop, get, gets, modify, assert, throw_if, and_then, ◌>>=◌,
  ◌>>◌, for_from,
}
use buaa_os_challenge.Queue.{
  Links, insert_head, remove, tailq_first, tailq_insert_head, tailq_insert_tail, tailq_remove,
}
use buaa_os_challenge.Memory.{
  Memory, set_ref, store, pte, page2kva, pa2page, page_alloc, page_decref, page_insert, page_remove,
  tlb_invalidate,
}
use buaa_os_challenge.Memory.Entry.{valid, ppn_of, pte_v, page2pa}

-- `*p` of a `struct Env *`, where NULL is an access outside memory
abbrev pub deref : Option ℕ → M Kernel ℕ
deref none = stop
deref (some e) = pure e

-- mkenvid
unfoldable pub mkenvid : ℕ → M Kernel ℕ
mkenvid e = do
  k ← get
  let i = (k.next_id + 1) % 2 ^ 32
  modify (λ k. record k { next_id = i })
  pure (bit_or (i * 2 ^ 11 % 2 ^ 32) e)

-- `ENVX(envid)`
abbrev pub envx : ℕ → ℕ
envx envid = envid % 1024

-- The checks of envid2env on the environment that an id other than zero names.
unfoldable pub check_env : ℕ → Bool → ℕ → M Kernel (Option ℕ)
check_env envid checkperm e = do
  k ← get
  throw_if ((env_of k e).status == env_free_status || not ((env_of k e).id == envid)) bad_env
  if checkperm
      then (do
        c ← deref k.curenv
        throw_if
            (not ((env_of k e).id == (env_of k c).id)
              && not ((env_of k e).parent_id == (env_of k c).id))
            bad_env
        pure (some e))
      else pure (some e)

-- envid2env; the result is what `*penv` is set to
unfoldable pub envid2env : ℕ → Bool → M Kernel (Option ℕ)
envid2env envid checkperm =
    if envid == 0 then gets (λ k. k.curenv) else check_env envid checkperm (envx envid)

-- the words of a new page directory: [PDX(UTOP), PDX(UVPT)) from the template, and itself at
-- PDX(UVPT)
abbrev pub template : (ℕ → ℕ → ℕ) → ℕ → ℕ → ℕ → ℕ
template w base p i =
    if i == 511
    then bit_or (page2pa p) pte_v
    else if ltb i 509
    then w p i
    else if ltb i 511
    then w base i
    else w p i

-- env_setup_vm
unfoldable pub env_setup_vm : ℕ → M Kernel (Unit {0})
env_setup_vm e = do
  p ← on_mem page_alloc
  on_mem (modify (λ m. set_ref p ((m.ref p + 1) % 2 ^ 16) m))
  pgdir ← on_mem (page2kva p)
  modify (update_env e (λ v. record v { pgdir = pgdir }))
  k ← get
  on_mem
      (modify (λ m. record m { word = update m.word pgdir (template m.word k.base_pgdir pgdir) }))

-- STATUS_IM7 | STATUS_IE | STATUS_EXL | STATUS_UM
abbrev pub user_status : ℕ
user_status = 0x8013

-- USTACKTOP - sizeof(int) - sizeof(char **)
abbrev pub user_sp : ℕ
user_sp = 0x7f3f_e000 - 8

-- The fields that env_alloc sets before asid_alloc, and after it.
abbrev pub reset_env : ℕ → Env → Env
reset_env id v = record v { user_tlb_mod_entry = 0; runs = 0; id = id }

abbrev pub fresh_env : ℕ → ℕ → Env → Env
fresh_env asid parent v = record v {
  asid = asid;
  parent_id = parent;
  tf = record v.tf { status = user_status; regs = update v.tf.regs 29 user_sp };
}

-- env_alloc
unfoldable pub env_alloc : ℕ → M Kernel ℕ
unfolding env_setup_vm mkenvid asid_alloc
env_alloc parent k = elim k.free.first [
  | none ↦ fail no_free_env k
  | some e ↦
      (do
        env_setup_vm e
        id ← mkenvid e
        modify (update_env e (reset_env id))
        asid ← asid_alloc
        modify (update_env e (fresh_env asid parent))
        modify (λ k. record k { free = remove k.free e })
        pure e)
        k
]

-- The body of the inner loop of env_free.
unfoldable pub free_entry : ℕ → ℕ → ℕ → ℕ → ℕ → M Kernel (Unit {0})
free_entry pgdir asid table pdeno pteno = do
  k ← get
  if valid (k.mem.word table pteno)
      then (on_mem (page_remove pgdir asid (bit_or (pdeno * 2 ^ 22) (pteno * 2 ^ 12))))
      else pure tt

-- The body of the outer loop of env_free.
unfoldable pub free_dir_entry : ℕ → ℕ → M Kernel (Unit {0})
unfolding free_entry for_from
free_dir_entry e pdeno = do
  k ← get
  let pgdir = (env_of k e).pgdir
  let asid = (env_of k e).asid
  let entry = k.mem.word pgdir pdeno
  if valid entry
      then (do
        assert (ltb (ppn_of entry) k.mem.npage)
        for_from 1024 0 (free_entry pgdir asid (ppn_of entry) pdeno)
        on_mem (modify (store (pte pgdir pdeno) 0))
        page ← on_mem (pa2page entry)
        on_mem (page_decref page)
        on_mem (tlb_invalidate asid (0x7fc0_0000 + pdeno * 2 ^ 12)))
      else pure tt

-- env_free
unfoldable pub env_free : ℕ → M Kernel (Unit {0})
unfolding free_dir_entry for_from asid_free
env_free e = do
  for_from 509 0 (free_dir_entry e)
  k ← get
  page ← on_mem (pa2page (page2pa (env_of k e).pgdir))
  on_mem (page_decref page)
  asid_free (env_of k e).asid
  on_mem (tlb_invalidate (env_of k e).asid (0x7fc0_0000 + 511 * 2 ^ 12))
  modify (update_env e (λ v. record v { status = env_free_status }))
  modify (λ k. record k { free = insert_head k.free e })
  modify (λ k. record k { sched = tailq_remove k.sched e })

-- the saved context of the environment that runs so far
abbrev pub save_context : Option ℕ → Kernel → Kernel
save_context none k = k
save_context (some c) k = update_env c (λ v. record v { tf = k.kstack }) k

-- env_run up to env_pop_tf
unfoldable pub env_run : ℕ → M Kernel (Unit {0})
env_run e = do
  k ← get
  assert ((env_of k e).status == env_runnable)
  modify (save_context k.curenv)
  modify (λ k. record k { curenv = some e })
  modify (update_env e (λ v. record v { runs = (v.runs + 1) % 2 ^ 32 }))
  modify (λ k. record k { cur_pgdir = (env_of k e).pgdir })

-- The removal and the second insertion of the environment that runs so far.
abbrev pub requeue : Option ℕ → Kernel → Kernel
requeue none k = k
requeue (some c) k =
    let removed = tailq_remove k.sched c in
    record k {
      sched = if (env_of k c).status == env_runnable then tailq_insert_tail removed c else removed;
    }

-- `e == NULL || e->env_status != ENV_RUNNABLE`
abbrev pub cannot_go_on : Kernel → Option ℕ → Bool
cannot_go_on k none = true
cannot_go_on k (some c) = not ((env_of k c).status == env_runnable)

-- schedule, where a new environment is picked
unfoldable pub pick_next : M Kernel (Unit {0})
pick_next = do
  modify (λ k. requeue k.curenv k)
  k ← get
  e ← deref (tailq_first k.sched)
  modify (λ k. record k { count = pred_ℤ (to_int (env_of k e).pri) })
  env_run e

-- schedule
unfoldable pub schedule : Bool → M Kernel (Unit {0})
schedule yield = do
  k ← get
  if yield || (is_spent k.count || cannot_go_on k k.curenv)
      then pick_next
      else (do modify (λ k. record k { count = pred_ℤ k.count }); e ← deref k.curenv; env_run e)

-- env_destroy; `true` where it leaves for another environment
unfoldable pub env_destroy : ℕ → M Kernel Bool
env_destroy e = do
  env_free e
  k ← get
  if is_current k.curenv e
      then (do modify (λ k. record k { curenv = none }); schedule true; pure true)
      else pure false
