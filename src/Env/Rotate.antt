-- ===== src/Env/Rotate.antt =====
-- The scheduler against a list of runnable environments: a yield turns the list round.
use buaa_os_challenge.Base.{
  ℕ, zero, suc, ◌+◌, ◌%◌, ◌^◌, ◌<◌, ◌≡◌, refl, sym, ap, ◌∙◌, true, Option, none, some, List, [],
  ◌∷◌, ◌++◌, arith, has, erase, has-append, length, length-append, get_elem?,
}
use mathlib.Core.List.{head?, append_assoc, append-nil}
use buaa_os_challenge.Base.Int.{ℤ, pred_ℤ, to_int}
use buaa_os_challenge.Base.Monad.{Run, ret, and_then}
use buaa_os_challenge.Queue.{tailq_remove}
use buaa_os_challenge.Queue.Chain.{IsQueue}
use buaa_os_challenge.Queue.Laws.{tailq_remove-IsQueue, tailq_insert_tail-IsQueue}
use buaa_os_challenge.Env.State.{Kernel, env_of, update_env, env_runnable}
use buaa_os_challenge.Env.{requeue, save_context, env_run, pick_next, schedule}

-- The queue holds `xs`, all of them runnable, and the first of them is the current environment.
pub record IsRunning (k : Kernel) (xs : List ℕ) : Type 0 where
  pub queue : IsQueue k.sched xs
  pub current : k.curenv ≡ head? xs
  pub runnable : (e : ℕ) → has e xs ≡ true → (env_of k e).status ≡ env_runnable

abbrev pub snoc : List ℕ → ℕ → List ℕ
snoc xs x = xs ++ (x ∷ [])

-- What env_run of `e` leaves: `e` is current, and neither the queue nor a status changes.
pub record Ran (e : ℕ) (k k' : Kernel) : Type 0 where
  pub sched : k'.sched ≡ k.sched
  pub curenv : k'.curenv ≡ some e
  pub count : k'.count ≡ k.count
  pub status : (x : ℕ) → (env_of k' x).status ≡ (env_of k x).status

-- the kernel after env_run
abbrev pub entered : ℕ → Kernel → Kernel
entered e k =
    let k1 = save_context k.curenv k in
    let k2 = record k1 { curenv = some e } in
    let k3 = update_env e (λ v. record v { runs = (v.runs + 1) % 2 ^ 32 }) k2 in
    record k3 { cur_pgdir = (env_of k3 e).pgdir }

save_context-sched : (o : Option ℕ) (k : Kernel) → (save_context o k).sched ≡ k.sched
save_context-sched none k = refl
save_context-sched (some c) k = refl

save_context-count : (o : Option ℕ) (k : Kernel) → (save_context o k).count ≡ k.count
save_context-count none k = refl
save_context-count (some c) k = refl

save_context-status :
    (o : Option ℕ) (k : Kernel) (x : ℕ) → (env_of (save_context o k) x).status ≡ (env_of k x).status
save_context-status none k x = refl
save_context-status (some c) k x = ground arith

pub env_run-entered :
    (e : ℕ) (k : Kernel) → (env_of k e).status ≡ env_runnable → env_run e k ≡ ret tt (entered e k)
unfolding env_run
env_run-entered e k h = rw h

pub Ran-entered : (e : ℕ) (k : Kernel) → Ran e k (entered e k)
Ran-entered e k = record {
  sched = save_context-sched k.curenv k;
  curenv = refl;
  count = save_context-count k.curenv k;
  status = λ x. ground (arith, save_context-status k.curenv k x);
}

-- Where the queue is not empty and its elements are runnable, pick_next hands the processor to the
-- first one, for as many ticks as its priority says.
pick_first :
    (k : Kernel) (y : ℕ) (ys : List ℕ)
    → IsQueue (requeue k.curenv k).sched (y ∷ ys)
    → ((e : ℕ) → (env_of (requeue k.curenv k) e).status ≡ (env_of k e).status)
    → ((e : ℕ) → has e (y ∷ ys) ≡ true → (env_of k e).status ≡ env_runnable)
    → (k' : Kernel) × (pick_next k ≡ ret tt k')
      × IsRunning k' (y ∷ ys)
      × (k'.count ≡ pred_ℤ (to_int (env_of (requeue k.curenv k) y).pri))
unfolding pick_next
pick_first k y ys q keep all =
    let k1 = requeue k.curenv k in
    let k2 = record k1 { count = pred_ℤ (to_int (env_of k1 y).pri) } in
    let ready : (env_of k2 y).status ≡ env_runnable = keep y ∙ all y (ground arith) in
    let r = Ran-entered y k2 in
    (
      entered y k2,
      rw q.chain.0 (env_run-entered y k2 ready),
      record {
        queue = rw r.sched q;
        current = refl;
        runnable = λ e h. r.status e ∙ keep e ∙ all e h;
      },
      r.count,
    )

requeue-status :
    (o : Option ℕ) (k : Kernel) (e : ℕ) → (env_of (requeue o k) e).status ≡ (env_of k e).status
requeue-status none k e = refl
requeue-status (some c) k e = refl

-- the queue after the current environment, its first element, went to the tail
requeue-IsQueue :
    (k : Kernel) (c : ℕ) (ys : List ℕ)
    → IsRunning k (c ∷ ys)
    → IsQueue (requeue k.curenv k).sched (snoc ys c)
requeue-IsQueue k c ys is =
    let ready : (env_of k c).status ≡ env_runnable = is.runnable c (ground arith) in
    let head : erase c (c ∷ ys) ≡ ys = ground arith in
    let out : IsQueue (tailq_remove k.sched c) ys =
      rw head at (tailq_remove-IsQueue k.sched (c ∷ ys) c is.queue (ground arith)) in
    rw (is.current, ready)
      (tailq_insert_tail-IsQueue (tailq_remove k.sched c) ys c out is.queue.distinct.0)

has-snoc : (e c : ℕ) (ys : List ℕ) → has e (snoc ys c) ≡ has e (c ∷ ys)
has-snoc e c ys = ground (arith, has-append e ys (c ∷ []))

-- The count that a new time slice starts with.
abbrev pub Slice : Kernel → List ℕ → ℤ → Type 0
Slice k [] n = Unit
Slice k (y ∷ _) n = n ≡ pred_ℤ (to_int (env_of k y).pri)

requeue-pri : (o : Option ℕ) (k : Kernel) (e : ℕ) → (env_of (requeue o k) e).pri ≡ (env_of k e).pri
requeue-pri none k e = refl
requeue-pri (some c) k e = refl

-- pick_next turns the queue round and starts a time slice.
pub pick_next-snoc :
    (k : Kernel) (c : ℕ) (ys : List ℕ)
    → IsRunning k (c ∷ ys)
    → (k' : Kernel) × (pick_next k ≡ ret tt k')
      × IsRunning k' (snoc ys c)
      × Slice k (snoc ys c) k'.count
pick_next-snoc k c [] is =
    let (k', e, r, n) =
      pick_first k c [] (requeue-IsQueue k c [] is) (requeue-status k.curenv k) is.runnable in
    (k', e, r, n ∙ rw (requeue-pri k.curenv k c))
pick_next-snoc k c (y ∷ ys) is =
    let (k', e, r, n) =
      pick_first k y (snoc ys c) (requeue-IsQueue k c (y ∷ ys) is) (requeue-status k.curenv k)
        (λ e h. is.runnable e (sym (has-snoc e c (y ∷ ys)) ∙ h)) in
    (k', e, r, n ∙ rw (requeue-pri k.curenv k y))

-- A yield of the running environment moves it to the tail of the queue and runs the next one; if
-- it is the only one, it runs again.
pub schedule-yield :
    (k : Kernel) (c : ℕ) (ys : List ℕ)
    → IsRunning k (c ∷ ys)
    → (k' : Kernel) × (schedule true k ≡ ret tt k')
      × IsRunning k' (snoc ys c)
      × Slice k (snoc ys c) k'.count
unfolding schedule
schedule-yield k c ys is = pick_next-snoc k c ys is

-- `n` yields in a row
unfoldable pub yields : ℕ → Kernel → Run Kernel (Unit {0})
unfolding schedule
yields zero k = ret tt k
yields (suc n) k = and_then (schedule true k) (λ _. yields n)

abbrev pub rotate : ℕ → List ℕ → List ℕ
rotate zero xs = xs
rotate (suc n) [] = []
rotate (suc n) (x ∷ xs) = rotate n (snoc xs x)

head?-rotate :
    (n : ℕ) (xs ys : List ℕ) → n < length xs → head? (rotate n (xs ++ ys)) ≡ get_elem? xs n
head?-rotate n [] ys h = absurd (omega arith)
head?-rotate zero (x ∷ xs) ys h = refl
head?-rotate (suc n) (x ∷ xs) ys h =
    rw (append_assoc xs ys (x ∷ [])) (head?-rotate n xs (ys ++ (x ∷ [])) (omega arith))

length-snoc : (xs : List ℕ) (x : ℕ) → 0 < length (snoc xs x)
length-snoc xs x = omega (arith, length-append xs (x ∷ []))

yields-rotate :
    (n : ℕ) (k : Kernel) (xs : List ℕ)
    → IsRunning k xs
    → 0 < length xs
    → (k' : Kernel) × (yields n k ≡ ret tt k') × IsRunning k' (rotate n xs)
unfolding yields
yields-rotate zero k xs is ne = (k, refl, is)
yields-rotate (suc n) k [] is ne = absurd (omega arith)
yields-rotate (suc n) k (x ∷ xs) is ne =
    let (k1, e, is1, _) = schedule-yield k x xs is in
    let (k2, e2, is2) = yields-rotate n k1 (snoc xs x) is1 (length-snoc xs x) in (k2, rw e e2, is2)

-- Round robin: if every environment yields when it runs, the one at place `n` of the queue runs
-- after `n` yields, for each place of the queue.
pub yields-get_elem? :
    (n : ℕ) (k : Kernel) (xs : List ℕ)
    → IsRunning k xs
    → n < length xs
    → (k' : Kernel) × (yields n k ≡ ret tt k') × (k'.curenv ≡ get_elem? xs n)
yields-get_elem? n k xs is h =
    let (k', e, is') = yields-rotate n k xs is (omega arith) in
    (
      k',
      e,
      is'.current ∙ ap (λ ys. head? (rotate n ys)) (sym (append-nil xs)) ∙ head?-rotate n xs [] h,
    )
