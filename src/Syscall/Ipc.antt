-- ===== src/Syscall/Ipc.antt =====
-- sys_ipc_recv and sys_ipc_try_send.
use buaa_os_challenge.Base.{
  ℕ, ◌≡◌, ◌≢◌, inl, inr, refl, sym, ap, ◌∙◌, true, false, not, ◌&&◌, none, some, List, [], ◌∷◌,
  arith, has, erase, ◌==◌, Bool-cases, has-append, has-erase_ne, has-erase_self, bit_or,
}
use buaa_os_challenge.Base.Errors.{inval}
use buaa_os_challenge.Base.Monad.{ret, fail}
use buaa_os_challenge.Queue.{tailq_insert_tail, tailq_remove}
use buaa_os_challenge.Queue.Chain.{IsQueue}
use buaa_os_challenge.Queue.Laws.{tailq_insert_tail-IsQueue, tailq_remove-IsQueue}
use buaa_os_challenge.Queue.Stale.{tailq_remove-tailq_remove}
use buaa_os_challenge.Memory.{page_lookup}
use buaa_os_challenge.Memory.Entry.{pte_v}
use buaa_os_challenge.Env.State.{Kernel, env_of, update_env, env_runnable, env_not_runnable}
use buaa_os_challenge.Env.{requeue, schedule, pick_next}
use buaa_os_challenge.Env.Rotate.{snoc}
use buaa_os_challenge.Syscall.{
  find_env, receiving, set_result, delivered, sys_ipc_recv, sys_ipc_try_send, send_page,
}
use buaa_os_challenge.Syscall.Range.{is_illegal_va}
use buaa_os_challenge.Syscall.Switch.{IsReady, IsReady-kept, ready_in, pick_next-Switched}

-- `va` is zero or an address that the kernel accepts.
abbrev pub ZeroOrLegal : ℕ → Type 0
ZeroOrLegal va = (not (va == 0) && is_illegal_va va) ≡ false

-- What sys_ipc_recv of `c` leaves for the next environment `y`.
pub record Blocked (c y dstva : ℕ) (ys : List ℕ) (k' : Kernel) : Type 0 where
  pub ready : IsReady k' (y ∷ ys)
  pub current : k'.curenv ≡ some y
  pub status : (env_of k' c).status ≡ env_not_runnable
  pub recving : (env_of k' c).ipc_recving ≡ 1
  pub target : (env_of k' c).ipc_dstva ≡ dstva

module _ (k : Kernel) (xs : List ℕ) (c dstva : ℕ) (is : IsReady k xs) (cur : k.curenv ≡ some c)
    (run : (env_of k c).status ≡ env_runnable) where
  -- the kernel when sys_ipc_recv calls schedule
  abbrev waiting : Kernel
  waiting =
      let k1 = update_env c (receiving dstva) k in
      set_result 0 (record k1 { sched = tailq_remove k1.sched c })

  -- schedule takes the environment off the queue a second time, which changes nothing
  requeue-waiting : IsQueue (requeue waiting.curenv waiting).sched (erase c xs)
  requeue-waiting =
      let member = ready_in k xs c is run in
      let q = tailq_remove-IsQueue k.sched xs c is.queue member in
      let not_ready : ((env_of waiting c).status == env_runnable) ≡ false = ground arith in
      rw (cur, not_ready, tailq_remove-tailq_remove k.sched xs c is.queue member) q

  members : (x : ℕ) → has x (erase c xs) ≡ ((env_of waiting x).status == env_runnable)
  members x = elim (Bool-cases (x == c)) [
    | inl s ↦
        let i : x ≡ c = ground arith in rw i (has-erase_self c xs is.queue.distinct ∙ ground arith)
    | inr n ↦ has-erase_ne x c xs n ∙ is.runnable x ∙ rw n
  ]

  -- Where the queue holds the runnable environments: for an address that is zero or legal, and
  -- where another environment is runnable, sys_ipc_recv
  -- of the running environment blocks it: it waits for a message, is out of the queue, and the
  -- first of the other runnable environments runs. The queue holds the runnable environments.
  pub sys_ipc_recv-Blocked :
      (y : ℕ) (ys : List ℕ)
      → ZeroOrLegal dstva
      → erase c xs ≡ y ∷ ys
      → (k' : Kernel) × (sys_ipc_recv dstva k ≡ ret tt k') × Blocked c y dstva ys k'
  unfolding sys_ipc_recv schedule
  sys_ipc_recv-Blocked y ys ok e =
      let q : IsQueue (requeue waiting.curenv waiting).sched (y ∷ ys) = rw e at requeue-waiting in
      let m : (x : ℕ) → has x (y ∷ ys) ≡ ((env_of waiting x).status == env_runnable) =
        λ x. ap (has x) (sym e) ∙ members x in
      let can : (env_of waiting y).status ≡ env_runnable = ground (arith, m y) in
      let (k', go, s) = pick_next-Switched waiting y ys q can in
      (
        k',
        start ok ∙ go,
        record {
          ready = IsReady-kept waiting k' (y ∷ ys) (rw s.sched q) m (λ x. (s.kept x).status);
          current = s.curenv;
          status = (s.kept c).status ∙ ground arith;
          recving = (s.kept c).ipc_recving ∙ ground arith;
          target = (s.kept c).ipc_dstva ∙ ground arith;
        },
      )
    where
      start : ZeroOrLegal dstva → sys_ipc_recv dstva k ≡ pick_next waiting
      start ok = rw (ok, cur)

-- What a message from `c` leaves: of its receiver `e` these fields and the status are new, and of
-- the kernel the receiver and the queue.
pub record Sent (k : Kernel) (xs : List ℕ) (c e value perm : ℕ) (k' : Kernel) : Type 0 where
  pub ready : IsReady k' (snoc xs e)
  pub content : (env_of k' e).ipc_value ≡ value
  pub from : (env_of k' e).ipc_from ≡ (env_of k c).id
  pub permission : (env_of k' e).ipc_perm ≡ bit_or pte_v perm
  pub recving : (env_of k' e).ipc_recving ≡ 0
  pub receiver : env_of k' e ≡ record (env_of k e) {
    ipc_value = value;
    ipc_from = (env_of k c).id;
    ipc_perm = bit_or pte_v perm;
    ipc_recving = 0;
    status = env_runnable;
  }
  pub others : (x : ℕ) → x ≢ e → env_of k' x ≡ env_of k x
  pub rest : k' ≡ record k { envs = k'.envs; sched = k'.sched }

module _ (k : Kernel) (xs : List ℕ) (c e envid value perm : ℕ) (is : IsReady k xs)
    (cur : k.curenv ≡ some c) (find : find_env envid false k ≡ ret e k) where
  -- the kernel after the message is stored
  abbrev stored : Kernel
  stored =
      let k1 = update_env e (delivered value (env_of k c).id perm) k in
      record k1 { sched = tailq_insert_tail k1.sched e }

  stored-Sent : (env_of k e).status ≢ env_runnable → Sent k xs c e value perm stored
  stored-Sent ne =
      let out : has e xs ≡ false = is.runnable e ∙ ground arith in
      let here : (e == e) ≡ true = ground arith in
      record {
        ready = record {
          queue = tailq_insert_tail-IsQueue k.sched xs e is.queue out;
          runnable = λ x. ground (arith, has-append x xs (e ∷ []), is.runnable x);
        };
        content = ground arith;
        from = ground arith;
        permission = ground arith;
        recving = ground arith;
        others = λ x n. ground arith;
        receiver = rw here refl;
        rest = refl;
      }

  -- Where the queue holds the runnable environments: a message without a page to an environment
  -- that waits for one, and that is blocked, is stored in the receiver with the id of the sender
  -- and the permission with PTE_V. The receiver no longer waits, it is runnable, and it stands at
  -- the end of the queue, which holds the runnable environments. No other field of the receiver,
  -- no other environment and nothing else of the kernel changes.
  pub sys_ipc_try_send-Sent :
      (env_of k e).ipc_recving ≢ 0
      → (env_of k e).status ≢ env_runnable
      → (k' : Kernel) × (sys_ipc_try_send envid value 0 perm k ≡ ret tt k')
        × Sent k xs c e value perm k'
  unfolding sys_ipc_try_send
  sys_ipc_try_send-Sent waits ne =
      let w : ((env_of k e).ipc_recving == 0) ≡ false = ground arith in
      (stored, rw (find, w, cur), stored-Sent ne)

  -- Where the queue holds the runnable environments: if the sender names a legal page that it has
  -- not mapped, the call fails with E_INVAL, but the receiver, another environment that waited
  -- and was blocked, has the value and runs on as if the message had been sent.
  pub sys_ipc_try_send-unmapped :
      (srcva : ℕ)
      → srcva ≢ 0
      → is_illegal_va srcva ≡ false
      → page_lookup (env_of k c).pgdir srcva k.mem ≡ ret none k.mem
      → e ≢ c
      → (env_of k e).ipc_recving ≢ 0
      → (env_of k e).status ≢ env_runnable
      → (k' : Kernel) × (sys_ipc_try_send envid value srcva perm k ≡ fail inval k')
        × Sent k xs c e value perm k'
  unfolding sys_ipc_try_send send_page
  sys_ipc_try_send-unmapped srcva nz legal absent other waits ne =
      let w : ((env_of k e).ipc_recving == 0) ≡ false = ground arith in
      let z : (srcva == 0) ≡ false = ground arith in
      let d : (c == e) ≡ false = ground arith in
      (stored, rw (z, legal, find, w, cur) (rw (d, absent)), stored-Sent ne)
