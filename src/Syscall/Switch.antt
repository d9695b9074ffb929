-- ===== src/Syscall/Switch.antt =====
-- The queue of the scheduler and the runnable environments when the kernel switches from one
-- environment to another.
use buaa_os_challenge.Base.{
  ℕ, ◌≡◌, inl, inr, refl, sym, ap, ◌∙◌, true, Option, none, some, List, [], ◌∷◌, arith, has,
  Distinct, erase, ◌==◌, Bool-cases, has-append, has-erase_ne, has-erase_self,
}
use buaa_os_challenge.Base.Int.{pred_ℤ, to_int}
use buaa_os_challenge.Base.Monad.{ret}
use buaa_os_challenge.Queue.{TailQueue, tailq_remove}
use buaa_os_challenge.Queue.Chain.{IsQueue}
use buaa_os_challenge.Queue.Laws.{tailq_insert_tail-IsQueue, tailq_remove-IsQueue}
use buaa_os_challenge.Env.State.{Kernel, Env, env_of, env_runnable}
use buaa_os_challenge.Env.{requeue, pick_next, save_context}
use buaa_os_challenge.Env.Rotate.{snoc, entered, env_run-entered}

-- The queue holds the environments that are runnable.
pub record IsReady (k : Kernel) (xs : List ℕ) : Type 0 where
  pub queue : IsQueue k.sched xs
  pub runnable : (e : ℕ) → has e xs ≡ ((env_of k e).status == env_runnable)

-- What a switch to another environment keeps of each environment.
pub record Kept (v v' : Env) : Type 0 where
  pub status : v'.status ≡ v.status
  pub id : v'.id ≡ v.id
  pub pgdir : v'.pgdir ≡ v.pgdir
  pub ipc_recving : v'.ipc_recving ≡ v.ipc_recving
  pub ipc_dstva : v'.ipc_dstva ≡ v.ipc_dstva
  pub ipc_value : v'.ipc_value ≡ v.ipc_value
  pub ipc_from : v'.ipc_from ≡ v.ipc_from
  pub ipc_perm : v'.ipc_perm ≡ v.ipc_perm

save_context-Kept :
    (o : Option ℕ) (k : Kernel) (x : ℕ) → Kept (env_of k x) (env_of (save_context o k) x)
save_context-Kept none k x = record {
  status = refl;
  id = refl;
  pgdir = refl;
  ipc_recving = refl;
  ipc_dstva = refl;
  ipc_value = refl;
  ipc_from = refl;
  ipc_perm = refl;
}
save_context-Kept (some c) k x = record {
  status = ground arith;
  id = ground arith;
  pgdir = ground arith;
  ipc_recving = ground arith;
  ipc_dstva = ground arith;
  ipc_value = ground arith;
  ipc_from = ground arith;
  ipc_perm = ground arith;
}

entered-Kept : (e : ℕ) (k : Kernel) (x : ℕ) → Kept (env_of k x) (env_of (entered e k) x)
entered-Kept e k x =
    let s = save_context-Kept k.curenv k x in
    record {
      status = ground (arith, s.status);
      id = ground (arith, s.id);
      pgdir = ground (arith, s.pgdir);
      ipc_recving = ground (arith, s.ipc_recving);
      ipc_dstva = ground (arith, s.ipc_dstva);
      ipc_value = ground (arith, s.ipc_value);
      ipc_from = ground (arith, s.ipc_from);
      ipc_perm = ground (arith, s.ipc_perm);
    }

-- What a switch to `e` leaves.
pub record Switched (k : Kernel) (e : ℕ) (q : TailQueue) (k' : Kernel) : Type 0 where
  pub sched : k'.sched ≡ q
  pub curenv : k'.curenv ≡ some e
  pub kept : (x : ℕ) → Kept (env_of k x) (env_of k' x)

save_context-sched : (o : Option ℕ) (k : Kernel) → (save_context o k).sched ≡ k.sched
save_context-sched none k = refl
save_context-sched (some c) k = refl

pub entered-Switched : (e : ℕ) (k : Kernel) → Switched k e k.sched (entered e k)
entered-Switched e k = record {
  sched = save_context-sched k.curenv k;
  curenv = refl;
  kept = entered-Kept e k;
}

requeue-envs : (o : Option ℕ) (k : Kernel) → (requeue o k).envs ≡ k.envs
requeue-envs none k = refl
requeue-envs (some c) k = refl

-- pick_next switches to the first environment of the queue, if it is runnable.
pub pick_next-Switched :
    (k : Kernel) (y : ℕ) (ys : List ℕ)
    → IsQueue (requeue k.curenv k).sched (y ∷ ys)
    → (env_of k y).status ≡ env_runnable
    → (k' : Kernel) × (pick_next k ≡ ret tt k') × Switched k y (requeue k.curenv k).sched k'
unfolding pick_next
pick_next-Switched k y ys q h =
    let k1 = requeue k.curenv k in
    let k2 = record k1 { count = pred_ℤ (to_int (env_of k1 y).pri) } in
    let envs : k2.envs ≡ k.envs = requeue-envs k.curenv k in
    let ready : (env_of k2 y).status ≡ env_runnable = ap (λ (f : ℕ → Env). (f y).status) envs ∙ h in
    let s = entered-Switched y k2 in
    (
      entered y k2,
      rw q.chain.0 (env_run-entered y k2 ready),
      record {
        sched = s.sched;
        curenv = s.curenv;
        kept = λ x. rw (sym (ap (λ (f : ℕ → Env). f x) envs)) (s.kept x);
      },
    )

-- The invariant with the queue `xs` of a kernel that has the queue and the statuses.
pub IsReady-kept :
    (k k' : Kernel) (xs : List ℕ)
    → IsQueue k'.sched xs
    → ((e : ℕ) → has e xs ≡ ((env_of k e).status == env_runnable))
    → ((x : ℕ) → (env_of k' x).status ≡ (env_of k x).status)
    → IsReady k' xs
IsReady-kept k k' xs q r s = record {
  queue = q;
  runnable = λ e. r e ∙ ap (λ (n : ℕ). n == env_runnable) (sym (s e));
}

pub ready_in :
    (k : Kernel) (xs : List ℕ) (e : ℕ)
    → IsReady k xs
    → (env_of k e).status ≡ env_runnable
    → has e xs ≡ true
ready_in k xs e is h = is.runnable e ∙ ap (λ (n : ℕ). n == env_runnable) h

pub in_ready :
    (k : Kernel) (xs : List ℕ) (e : ℕ)
    → IsReady k xs
    → has e xs ≡ true
    → (env_of k e).status ≡ env_runnable
in_ready k xs e is h = ground (arith, is.runnable e)

pub has-requeued :
    (c : ℕ) (xs : List ℕ)
    → Distinct xs
    → has c xs ≡ true
    → (e : ℕ) → has e (snoc (erase c xs) c) ≡ has e xs
has-requeued c xs d h e = elim (Bool-cases (e == c)) [
  | inl s ↦
      let i : e ≡ c = ground arith in rw i (ground (arith, has-append c (erase c xs) (c ∷ [])))
  | inr n ↦ ground (arith, has-append e (erase c xs) (c ∷ []), has-erase_ne e c xs)
]

pub snoc_head : (xs : List ℕ) (c : ℕ) → (y : ℕ) × (ys : List ℕ) × (snoc xs c ≡ y ∷ ys)
snoc_head [] c = (c, [], refl)
snoc_head (x ∷ xs) c = (x, snoc xs c, refl)

-- The queue after the running environment, which is runnable, went to the tail.
pub requeue-snoc :
    (k : Kernel) (xs : List ℕ) (c : ℕ)
    → IsReady k xs
    → k.curenv ≡ some c
    → (env_of k c).status ≡ env_runnable
    → IsQueue (requeue k.curenv k).sched (snoc (erase c xs) c)
requeue-snoc k xs c is cur h =
    let member = ready_in k xs c is h in
    rw (cur, h)
      (tailq_insert_tail-IsQueue (tailq_remove k.sched c) (erase c xs) c
        (tailq_remove-IsQueue k.sched xs c is.queue member) (has-erase_self c xs is.queue.distinct))
