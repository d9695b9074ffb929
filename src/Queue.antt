-- ===== src/Queue.antt =====
-- The intrusive queues of include/queue.h at the level of their pointers: the macros LIST_* on a
-- singly headed list and TAILQ_* on a tail queue. An element is the index of its structure in the
-- array that holds it (`pages` or `envs`). A pointer to a pointer is a `Slot`: the head's first
-- field, or the next field of an element. The children prove that the macros act on the list of
-- elements that the pointers lead through.
pub mod Chain
pub mod Removal
pub mod Laws
pub mod After
pub mod Stale
mod Examples
use buaa_os_challenge.Base.{ℕ, Option, none, some, update, Bool, is_none}

pub data Slot : Type 0 where
  first_of : Slot
  next_of : ℕ → Slot

-- `lh_first` of the head with `le_next` and `le_prev` of each element.
pub record Links : Type 0 where
  pub first : Option ℕ
  pub next : ℕ → Option ℕ
  pub prev : ℕ → Slot

-- `*p`
abbrev pub load : Links → Slot → Option ℕ
load l first_of = l.first
load l (next_of x) = l.next x

-- `*p = v`
abbrev pub store : Links → Slot → Option ℕ → Links
store l first_of v = record l { first = v }
store l (next_of x) v = record l { next = update l.next x v }

-- `if (o != NULL) o->field.le_prev = p;`
abbrev pub set_prev : Links → Option ℕ → Slot → Links
set_prev l none p = l
set_prev l (some y) p = record l { prev = update l.prev y p }

-- LIST_INIT: the links of the elements stay as they are.
unfoldable pub list_init : Links → Links
list_init l = record l { first = none }

abbrev pub list_empty : Links → Bool
list_empty l = is_none l.first

-- LIST_INSERT_HEAD
unfoldable pub insert_head : Links → ℕ → Links
insert_head l x =
    let l1 = store l (next_of x) l.first in
    let l2 = set_prev l1 l.first (next_of x) in
    let l3 = store l2 first_of (some x) in record l3 { prev = update l3.prev x first_of }

-- LIST_INSERT_AFTER
unfoldable pub insert_after : Links → ℕ → ℕ → Links
insert_after l y x =
    let l1 = store l (next_of x) (l.next y) in
    let l2 = set_prev l1 (l.next y) (next_of x) in
    let l3 = store l2 (next_of y) (some x) in record l3 { prev = update l3.prev x (next_of y) }

-- LIST_REMOVE
unfoldable pub remove : Links → ℕ → Links
remove l x = let l1 = set_prev l (l.next x) (l.prev x) in store l1 (l1.prev x) (l1.next x)

-- A TAILQ_HEAD with the links of the elements: `tqh_first`, `tqe_next` and `tqe_prev` are the
-- fields of `links`.
pub record TailQueue : Type 0 where
  pub links : Links
  pub last : Slot

-- TAILQ_INIT
unfoldable pub tailq_init : TailQueue → TailQueue
tailq_init q = record { links = record q.links { first = none }; last = first_of }

abbrev pub tailq_first : TailQueue → Option ℕ
tailq_first q = q.links.first

abbrev pub last_before : TailQueue → ℕ → Option ℕ → Slot
last_before q x none = next_of x
last_before q x (some _) = q.last

-- TAILQ_INSERT_HEAD
unfoldable pub tailq_insert_head : TailQueue → ℕ → TailQueue
unfolding insert_head
tailq_insert_head q x = record {
  links = insert_head q.links x;
  last = last_before q x q.links.first;
}

-- TAILQ_INSERT_TAIL
unfoldable pub tailq_insert_tail : TailQueue → ℕ → TailQueue
tailq_insert_tail q x =
    let l1 = store q.links (next_of x) none in
    let l2 = record l1 { prev = update l1.prev x q.last } in
    record { links = store l2 q.last (some x); last = next_of x }

abbrev pub last_after : TailQueue → ℕ → Option ℕ → Slot
last_after q x none = q.links.prev x
last_after q x (some _) = q.last

-- TAILQ_REMOVE
unfoldable pub tailq_remove : TailQueue → ℕ → TailQueue
unfolding remove
tailq_remove q x = record { links = remove q.links x; last = last_after q x (q.links.next x) }
