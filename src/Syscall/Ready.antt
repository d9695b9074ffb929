-- ===== src/Syscall/Ready.antt =====
-- The invariant that the comment on `env_sched_list` in kern/env.c states: an environment is in
-- the queue exactly if its status is ENV_RUNNABLE. schedule and sys_set_env_status keep it.
use buaa_os_challenge.Base.{
  ℕ, ◌≡◌, ◌≢◌, ◌⊎◌, inl, inr, sym, ap, ◌∙◌, Bool, true, false, not, ◌&&◌, some, List, [], ◌∷◌,
  arith, has, erase, ◌==◌, if◌then◌else◌, Bool-cases, has-append, has-erase_ne, has-erase_self,
}
use buaa_os_challenge.Base.Int.{pred_ℤ, is_spent}
use buaa_os_challenge.Base.Monad.{ret}
use buaa_os_challenge.Queue.Chain.{IsQueue}
use buaa_os_challenge.Queue.Laws.{tailq_insert_tail-IsQueue, tailq_remove-IsQueue}
use buaa_os_challenge.Env.State.{Kernel, Env, env_of, update_env, env_runnable, env_not_runnable}
use buaa_os_challenge.Env.{requeue, pick_next, schedule, env_run}
use buaa_os_challenge.Env.Rotate.{snoc, entered, env_run-entered}
use buaa_os_challenge.Syscall.{find_env, move, sys_set_env_status}
use buaa_os_challenge.Syscall.Switch.{
  IsReady, pick_next-Switched, IsReady-kept, ready_in, has-requeued, snoc_head, requeue-snoc,
  entered-Switched,
}

-- What schedule leaves: the invariant holds, and the current environment is a runnable one.
pub record Scheduled (k k' : Kernel) : Type 0 where
  pub order : List ℕ
  pub ready : IsReady k' order
  pub members : (e : ℕ) → has e order ≡ ((env_of k e).status == env_runnable)
  pub current : ℕ
  pub is_current : k'.curenv ≡ some current
  pub can_run : (env_of k' current).status ≡ env_runnable

pick_next-Scheduled :
    (k : Kernel) (xs : List ℕ) (c : ℕ)
    → IsReady k xs
    → k.curenv ≡ some c
    → (env_of k c).status ≡ env_runnable
    → (k' : Kernel) × (pick_next k ≡ ret tt k') × Scheduled k k'
pick_next-Scheduled k xs c is cur h =
    let (y, ys, e) = snoc_head (erase c xs) c in
    let q : IsQueue (requeue k.curenv k).sched (y ∷ ys) = rw e at (requeue-snoc k xs c is cur h) in
    let members : (x : ℕ) → has x (y ∷ ys) ≡ ((env_of k x).status == env_runnable) = λ x.
      ap (has x) (sym e)
      ∙ has-requeued c xs is.queue.distinct (ready_in k xs c is h) x
      ∙ is.runnable x in
    let ok : (env_of k y).status ≡ env_runnable = ground (arith, members y) in
    let (k', run, s) = pick_next-Switched k y ys q ok in
    (
      k',
      run,
      record {
        order = y ∷ ys;
        ready = IsReady-kept k k' (y ∷ ys) (rw s.sched q) members (λ x. (s.kept x).status);
        members = members;
        current = y;
        is_current = s.curenv;
        can_run = (s.kept y).status ∙ ok;
      },
    )

-- Where the queue holds the runnable environments and the current environment is one of them,
-- schedule switches to a runnable environment, with the same set of environments in the queue, and
-- the queue holds the runnable environments again.
pub schedule-IsReady :
    (yield : Bool) (k : Kernel) (xs : List ℕ) (c : ℕ)
    → IsReady k xs
    → k.curenv ≡ some c
    → (env_of k c).status ≡ env_runnable
    → (k' : Kernel) × (schedule yield k ≡ ret tt k') × Scheduled k k'
unfolding schedule
schedule-IsReady true k xs c is cur h = pick_next-Scheduled k xs c is cur h
schedule-IsReady false k xs c is cur h = elim (Bool-cases (is_spent k.count)) [
  | inl e ↦ rw e (pick_next-Scheduled k xs c is cur h)
  | inr e ↦
      let k1 = record k { count = pred_ℤ k.count } in
      let s = entered-Switched c k1 in
      (
        entered c k1,
        go_on e ∙ env_run-entered c k1 h,
        record {
          order = xs;
          ready =
              IsReady-kept k (entered c k1) xs (rw s.sched is.queue) is.runnable
                (λ x. (s.kept x).status);
          members = is.runnable;
          current = c;
          is_current = s.curenv;
          can_run = (s.kept c).status ∙ h;
        },
      )
]
  where
    go_on :
        is_spent k.count ≡ false
        → schedule false k ≡ env_run c (record k { count = pred_ℤ k.count })
    go_on e = rw (e, cur, h)

-- What sys_set_env_status leaves.
pub record StatusSet (k : Kernel) (e status : ℕ) (k' : Kernel) : Type 0 where
  pub order : List ℕ
  pub ready : IsReady k' order
  pub set : (env_of k' e).status ≡ status
  pub others : (x : ℕ) → x ≢ e → env_of k' x ≡ env_of k x

set_status : ℕ → ℕ → Kernel → Kernel
set_status e status k = update_env e (λ v. record v { status = status }) (move e status k)

move-envs : (e status : ℕ) (k : Kernel) → (move e status k).envs ≡ k.envs
move-envs e status k = elim (Bool-cases ((env_of k e).status == status)) [
  | inl y ↦ rw y
  | inr n ↦ elim (Bool-cases (status == env_runnable)) [ inl y ↦ rw (n, y) | inr m ↦ rw (n, m) ]
]

move-order :
    (k : Kernel) (xs : List ℕ) (e status : ℕ)
    → IsReady k xs
    → ((env_of k e).status ≡ env_runnable) ⊎ ((env_of k e).status ≡ env_not_runnable)
    → (status ≡ env_runnable) ⊎ (status ≡ env_not_runnable)
    → (ys : List ℕ) × IsQueue (move e status k).sched ys
      × ((x : ℕ) → has x ys ≡ (if x == e then status == env_runnable else has x xs))
move-order k xs e status is (inl old) (inl new) = (
  xs,
  rw (old, new) is.queue,
  λ x. elim (Bool-cases (x == e)) [
    | inl s ↦ let i : x ≡ e = ground arith in rw (s, i, new) (ready_in k xs e is old)
    | inr n ↦ rw n
  ],
)
move-order k xs e status is (inr old) (inr new) = (
  xs,
  rw (old, new) is.queue,
  λ x. elim (Bool-cases (x == e)) [
    | inl s ↦ let i : x ≡ e = ground arith in rw (s, i, new) (is.runnable e ∙ rw old)
    | inr n ↦ rw n
  ],
)
move-order k xs e status is (inr old) (inl new) =
    let out : has e xs ≡ false = is.runnable e ∙ rw old in
    (
      snoc xs e,
      rw (old, new) (tailq_insert_tail-IsQueue k.sched xs e is.queue out),
      λ x. ground (arith, has-append x xs (e ∷ [])),
    )
move-order k xs e status is (inl old) (inr new) =
    let member = ready_in k xs e is old in
    (
      erase e xs,
      rw (old, new) (tailq_remove-IsQueue k.sched xs e is.queue member),
      λ x. elim (Bool-cases (x == e)) [
        | inl s ↦
            let i : x ≡ e = ground arith in rw (s, i, new) (has-erase_self e xs is.queue.distinct)
        | inr n ↦ rw n (has-erase_ne x e xs n)
      ],
    )

-- Where the queue holds the runnable environments: for an id of a living environment that the
-- caller may change, sys_set_env_status with either of
-- the two statuses sets the status of this environment, changes no other environment, and puts it
-- into the queue or takes it out so that the queue holds the runnable environments again.
pub sys_set_env_status-IsReady :
    (k : Kernel) (xs : List ℕ) (envid e status : ℕ)
    → IsReady k xs
    → find_env envid true k ≡ ret e k
    → ((env_of k e).status ≡ env_runnable) ⊎ ((env_of k e).status ≡ env_not_runnable)
    → (status ≡ env_runnable) ⊎ (status ≡ env_not_runnable)
    → (k' : Kernel) × (sys_set_env_status envid status k ≡ ret tt k') × StatusSet k e status k'
unfolding sys_set_env_status
sys_set_env_status-IsReady k xs envid e status is find old new =
    let (ys, q, members) = move-order k xs e status is old new in
    let k1 = move e status k in
    let k' = update_env e (λ v. record v { status = status }) k1 in
    let envs = move-envs e status k in
    (
      k',
      rw (allowed new, find),
      record {
        order = ys;
        ready = record {
          queue = q;
          runnable = λ x. members x ∙ elim (Bool-cases (x == e)) [
            | inl s ↦ rw s
            | inr n ↦
                rw n (is.runnable x ∙ ap (λ (f : ℕ → Env). (f x).status == env_runnable) (sym envs))
          ];
        };
        set = ground arith;
        others = λ x ne. ground (arith, ap (λ (f : ℕ → Env). f x) envs);
      },
    )
  where
    allowed :
        (status ≡ env_runnable) ⊎ (status ≡ env_not_runnable)
        → (not (status == env_runnable) && not (status == env_not_runnable)) ≡ false
    allowed (inl h) = rw h
    allowed (inr h) = rw h
