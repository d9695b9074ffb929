-- ===== src/Env/Slices.antt =====
-- The time slices of schedule: an environment goes on for as many ticks as its priority says.
use buaa_os_challenge.Base.{ℕ, zero, suc, ◌≡◌, refl, ◌∙◌, true, false, List, ◌∷◌, arith}
use buaa_os_challenge.Base.Int.{pos, pred_ℤ, is_spent}
use buaa_os_challenge.Base.Monad.{Run, ret, and_then}
use buaa_os_challenge.Env.State.{Kernel, env_of, env_runnable}
use buaa_os_challenge.Env.{env_run, schedule}
use buaa_os_challenge.Env.Rotate.{
  IsRunning, snoc, Slice, entered, env_run-entered, Ran-entered, pick_next-snoc,
}

-- A tick of the clock with time left keeps the environment and takes one off the count.
schedule-goes_on :
    (k : Kernel) (c : ℕ) (ys : List ℕ) (n : ℕ)
    → IsRunning k (c ∷ ys)
    → k.count ≡ pos (suc n)
    → (k' : Kernel) × (schedule false k ≡ ret tt k') × IsRunning k' (c ∷ ys) × (k'.count ≡ pos n)
unfolding schedule
schedule-goes_on k c ys n is e =
    let k1 = record k { count = pred_ℤ k.count } in
    let ready : (env_of k1 c).status ≡ env_runnable = is.runnable c (ground arith) in
    let r = Ran-entered c k1 in
    (
      entered c k1,
      go ∙ env_run-entered c k1 ready,
      record {
        queue = rw r.sched is.queue;
        current = refl;
        runnable = λ x h. r.status x ∙ is.runnable x h;
      },
      r.count ∙ rw e,
    )
  where
    go : schedule false k ≡ env_run c (record k { count = pred_ℤ k.count })
    go = rw (e, is.current, is.runnable c (ground arith))

-- A tick of the clock with no time left turns the queue round.
schedule-spent :
    (k : Kernel) (c : ℕ) (ys : List ℕ)
    → IsRunning k (c ∷ ys)
    → is_spent k.count ≡ true
    → (k' : Kernel) × (schedule false k ≡ ret tt k')
      × IsRunning k' (snoc ys c)
      × Slice k (snoc ys c) k'.count
unfolding schedule
schedule-spent k c ys is e = rw e (pick_next-snoc k c ys is)

-- `n` ticks of the clock in a row
unfoldable pub ticks : ℕ → Kernel → Run Kernel (Unit {0})
unfolding schedule
ticks zero k = ret tt k
ticks (suc n) k = and_then (schedule false k) (λ _. ticks n)

-- While the count of the time slice lasts, the running environment and the queue stay; the tick
-- after that moves it to the tail and runs the next one.
pub ticks_lem :
    (n : ℕ) (k : Kernel) (c : ℕ) (ys : List ℕ)
    → IsRunning k (c ∷ ys)
    → k.count ≡ pos n
    → ((k1 : Kernel) × (ticks n k ≡ ret tt k1) × IsRunning k1 (c ∷ ys))
      × ((k2 : Kernel) × (ticks (suc n) k ≡ ret tt k2) × IsRunning k2 (snoc ys c))
unfolding ticks
ticks_lem zero k c ys is e =
    let (k2, e2, is2, _) = schedule-spent k c ys is (rw e) in ((k, refl, is), (k2, rw e2, is2))
ticks_lem (suc n) k c ys is e =
    let (k1, e1, is1, m) = schedule-goes_on k c ys n is e in
    let ((k2, e2, is2), (k3, e3, is3)) = ticks_lem n k1 c ys is1 m in
    ((k2, rw e1 e2, is2), (k3, rw e1 e3, is3))
