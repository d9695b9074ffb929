-- ===== src/Queue/Examples.antt =====
-- The macros of include/queue.h at concrete queues.
use buaa_os_challenge.Base.{refl, some, [], ◌∷◌}
use buaa_os_challenge.Queue.{
  next_of, Links, list_init, insert_head, TailQueue, tailq_init, tailq_insert_tail, tailq_remove,
}
use buaa_os_challenge.Queue.Chain.{IsList, IsQueue}
use buaa_os_challenge.Queue.Laws.{
  list_init-IsList, insert_head-IsList, tailq_init-IsQueue, tailq_insert_tail-IsQueue,
  tailq_remove-IsQueue,
}
use buaa_os_challenge.Queue.Stale.{stale-remove_drops}

abbrev garbage : Links
garbage = record { first = some 9; next = λ _. some 9; prev = λ _. next_of 9 }

-- a list of 5 and 3
abbrev pair : Links
pair = insert_head (insert_head (list_init garbage) 3) 5

pair-IsList : IsList pair (5 ∷ 3 ∷ [])
pair-IsList =
    insert_head-IsList (insert_head (list_init garbage) 3) (3 ∷ []) 5
      (insert_head-IsList (list_init garbage) [] 3 (list_init-IsList garbage) refl) refl

abbrev empty : TailQueue
empty = tailq_init (record { links = garbage; last = next_of 9 })

-- a queue of 5 and 3
abbrev line : TailQueue
line = tailq_insert_tail (tailq_insert_tail empty 5) 3

line-IsQueue : IsQueue line (5 ∷ 3 ∷ [])
line-IsQueue =
    tailq_insert_tail-IsQueue (tailq_insert_tail empty 5) (5 ∷ []) 3
      (tailq_insert_tail-IsQueue empty [] 5
        (tailq_init-IsQueue (record { links = garbage; last = next_of 9 })) refl)
      refl

tailq_remove-IsQueue_example : IsQueue (tailq_remove line 3) (5 ∷ [])
tailq_remove-IsQueue_example = tailq_remove-IsQueue line (5 ∷ 3 ∷ []) 3 line-IsQueue refl

stale-remove_drops_example :
    IsQueue (tailq_remove (tailq_insert_tail (tailq_remove line 3) 8) 3) (5 ∷ [])
stale-remove_drops_example = stale-remove_drops line (5 ∷ []) 3 8 line-IsQueue refl
