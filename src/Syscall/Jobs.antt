-- ===== src/Syscall/Jobs.antt =====
-- The background jobs of the shell, kept by kern/syscall_all.c in `jobs` and `job_num`. An access
-- outside the array stops the machine of the model, and so does the use of the environment pointer
-- where envid2env left it unset. Command lines are lists of character codes; strcpy into the field
-- takes them to fit.
use buaa_os_challenge.Base.{
  ℕ, zero, suc, ◌+◌, ◌-◌, ◌^◌, ◌%◌, ◌<◌, ◌≤◌, ◌≡◌, refl, Bool, true, false, ◌&&◌, List, ltb, ◌==◌,
  if◌then◌else◌, arith, update, Bool-cases, inl, inr, lt→ltb, ap, ◌∙◌,
}
use buaa_os_challenge.Base.Monad.{
  Run, ret, fail, panic, M, pure, stop, get, modify, assert, or_panic, for_from, ◌>>=◌, ◌>>◌,
}
use buaa_os_challenge.Env.State.{Kernel, env_of}
use buaa_os_challenge.Env.{env_destroy}
use buaa_os_challenge.Syscall.{find_env, current}

-- struct Job
pub record Job : Type 0 where
  pub id : ℕ
  pub flag : ℕ
  pub env_id : ℕ
  pub command : List ℕ

pub record Machine : Type 0 where
  pub kernel : Kernel
  pub jobs : ℕ → Job
  pub job_num : ℕ

abbrev pub lift_kernel : {A : Type 0} → Machine → Run Kernel A → Run Machine A
lift_kernel s (ret a k) = ret a (record s { kernel = k })
lift_kernel s (fail e k) = fail e (record s { kernel = k })
lift_kernel s panic = panic

abbrev pub on_kernel : {A : Type 0} → M Kernel A → M Machine A
on_kernel f s = lift_kernel s (f s.kernel)

-- a call that takes no notice of an error, and then uses what was to be found
abbrev pub found_or_stop : {A : Type 0} → M Kernel A → M Machine A
found_or_stop f s = lift_kernel s (or_panic (f s.kernel))

abbrev pub set_job : ℕ → Job → Machine → Machine
set_job i j s = record s { jobs = update s.jobs i j }

-- sys_add_job
unfoldable pub sys_add_job : ℕ → List ℕ → M Machine (Unit {0})
sys_add_job envid cmd = do
  s ← get
  assert (ltb s.job_num 1025)
  let n = (s.job_num + 1) % 2 ^ 32
  modify (λ s. record s { job_num = n })
  modify (set_job s.job_num (record { id = n; flag = 0; env_id = envid; command = cmd }))

-- one round of the loop of sys_try_done_job_status
abbrev pub mark_done : ℕ → Job → Job
mark_done id j = if id == j.env_id && j.flag == 0 then record j { flag = 1 } else j

-- sys_try_done_job_status
unfoldable pub sys_try_done_job_status : ℕ → M Machine Bool
unfolding for_from
sys_try_done_job_status envid = do
  s ← get
  c ← on_kernel current
  let id = (env_of s.kernel c).id
  for_from s.job_num 0 (λ i. modify (λ s. set_job i (mark_done id (s.jobs i)) s))
  e ← found_or_stop (find_env envid true)
  on_kernel (env_destroy e)

-- `jobs + job_id - 1`
unfoldable pub job_of : ℕ → M Machine ℕ
job_of zero = stop
job_of (suc i) = do assert (ltb i 1025); pure i

-- sys_kill_job; `false` where it only prints a message
unfoldable pub sys_kill_job : ℕ → M Machine Bool
sys_kill_job job_id = do
  s ← get
  if ltb s.job_num job_id then pure false else (do
    i ← job_of job_id
    if (s.jobs i).flag == 1 then pure false else (do
      modify (set_job i (record (s.jobs i) { flag = 1 }))
      e ← found_or_stop (find_env (s.jobs i).env_id false)
      on_kernel (env_destroy e)))

-- sys_get_envid_by_job
unfoldable pub sys_get_envid_by_job : ℕ → M Machine ℕ
unfolding job_of
sys_get_envid_by_job job_id = do
  s ← get
  if ltb s.job_num job_id then pure (2 ^ 32 - 1) else (do
    i ← job_of job_id
    if (s.jobs i).flag == 1 then pure (2 ^ 32 - 2) else pure (s.jobs i).env_id)

-- What sys_get_envid_by_job answers for a number that was given out.
abbrev pub answer : Job → ℕ
answer j = if j.flag == 1 then 2 ^ 32 - 2 else j.env_id

get_answer :
    (s : Machine) (i : ℕ)
    → i < s.job_num
    → s.job_num ≤ 1025
    → sys_get_envid_by_job (suc i) s ≡ ret (answer (s.jobs i)) s
unfolding sys_get_envid_by_job
get_answer s i lt h =
    let known : ltb s.job_num (suc i) ≡ false = ground arith in
    let inside : ltb i 1025 ≡ true = ground arith in
    elim (Bool-cases ((s.jobs i).flag == 1)) [
      | inl e ↦ rw (known, inside, e)
      | inr e ↦ rw (known, inside, e)
    ]

-- the machine after a job is added
abbrev added : ℕ → List ℕ → Machine → Machine
added envid cmd s = record s {
  job_num = s.job_num + 1;
  jobs =
      update s.jobs s.job_num
        (record { id = s.job_num + 1; flag = 0; env_id = envid; command = cmd });
}

added_lem :
    (s : Machine) (envid : ℕ) (cmd : List ℕ)
    → s.job_num < 1025
    → sys_add_job envid cmd s ≡ ret tt (added envid cmd s)
unfolding sys_add_job
added_lem s envid cmd h =
    let e : (s.job_num + 1) % 2 ^ 32 ≡ s.job_num + 1 = omega arith in
    rw (lt→ltb s.job_num 1025 h, e)

-- While fewer than 1025 jobs were added, a job that is added has the next number, and this number
-- leads to its environment; the numbers that were given out before lead to the answers from before.
pub sys_add_job-get :
    (s : Machine) (envid : ℕ) (cmd : List ℕ)
    → s.job_num < 1025
    → (s' : Machine) × (sys_add_job envid cmd s ≡ ret tt s')
      × (s'.job_num ≡ s.job_num + 1)
      × (sys_get_envid_by_job (suc s.job_num) s' ≡ ret envid s')
      × ((i : ℕ)
          → i < s.job_num
          → (sys_get_envid_by_job (suc i) s ≡ ret (answer (s.jobs i)) s)
            × (sys_get_envid_by_job (suc i) s' ≡ ret (answer (s.jobs i)) s'))
sys_add_job-get s envid cmd h =
    let s' = added envid cmd s in
    (
      s',
      added_lem s envid cmd h,
      refl,
      get_answer s' s.job_num (omega arith) (omega arith)
          ∙ ap (λ (j : Job). ret (answer j) s') (last_job s),
      λ i lt. (
        get_answer s i lt (omega arith),
        get_answer s' i (omega arith) (omega arith)
            ∙ ap (λ (j : Job). ret (answer j) s') (other_job s i lt),
      ),
    )
  where
    new : Machine → Job
    new s = record { id = s.job_num + 1; flag = 0; env_id = envid; command = cmd }

    last_job : (s : Machine) → update s.jobs s.job_num (new s) s.job_num ≡ new s
    last_job s = ground arith

    other_job : (s : Machine) (i : ℕ) → i < s.job_num → update s.jobs s.job_num (new s) i ≡ s.jobs i
    other_job s i lt = ground arith
