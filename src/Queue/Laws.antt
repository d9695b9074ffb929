-- ===== src/Queue/Laws.antt =====
-- The macros of include/queue.h act on the list that the pointers stand for.
use buaa_os_challenge.Base.{
  ℕ, ◌≡◌, ◌≢◌, refl, sym, ap, ◌∙◌, none, some, List, [], ◌∷◌, ◌++◌, true, false, inl, inr, arith,
  has, Distinct, erase, update, ◌==◌, Bool-cases, Option-cases, erase-Distinct, append-Distinct,
}
use mathlib.Core.List.{head?}
use buaa_os_challenge.Queue.{
  Slot, first_of, next_of, Links, load, store, list_init, insert_head, remove, TailQueue,
  tailq_init, tailq_insert_head, tailq_insert_tail, tailq_remove, last_before,
}
use buaa_os_challenge.Queue.Chain.{Chain, end_of, Apart, IsList, IsQueue, frame}
use buaa_os_challenge.Queue.Removal.{Chain-remove}

-- LIST_INIT makes the empty list.
pub list_init-IsList : (l : Links) → IsList (list_init l) []
unfolding list_init
list_init-IsList l = record { chain = refl; distinct = tt }

-- LIST_INSERT_HEAD of an element that is not in the list puts it in front.
pub insert_head-IsList :
    (l : Links) (xs : List ℕ) (x : ℕ)
    → IsList l xs
    → has x xs ≡ false
    → IsList (insert_head l x) (x ∷ xs)
unfolding insert_head
insert_head-IsList l [] x is out = record {
  chain = (refl, ground arith, ground arith);
  distinct = (out, is.distinct);
}
insert_head-IsList l (y ∷ ys) x is out = record {
  chain = (
    refl,
    ground arith,
    (
      ground arith,
      ground arith,
      frame l (insert_head l x) (next_of y) ys (ground arith) (λ a h. (ground arith, ground arith))
          is.chain.2,
    ),
  );
  distinct = (out, is.distinct);
}

-- LIST_REMOVE of an element of the list takes it out and keeps the order of the others.
pub remove-IsList :
    (l : Links) (xs : List ℕ) (x : ℕ)
    → IsList l xs
    → has x xs ≡ true
    → IsList (remove l x) (erase x xs)
remove-IsList l xs x is h = record {
  chain = Chain-remove l first_of xs x is.chain is.distinct tt h;
  distinct = erase-Distinct x xs is.distinct;
}

-- the links after TAILQ_INSERT_TAIL of `x` at the slot `e`
abbrev appended : Links → ℕ → Slot → Links
appended l x e =
    let l1 = store l (next_of x) none in store (record l1 { prev = update l1.prev x e }) e (some x)

pub end_of_in :
    (z : ℕ) (zs : List ℕ) → (a : ℕ) × (end_of (next_of z) zs ≡ next_of a) × (has a (z ∷ zs) ≡ true)
end_of_in z [] = (z, refl, ground arith)
end_of_in z (y ∷ ys) = let (a, e, h) = end_of_in y ys in (a, e, ground arith)

load-appended_ne :
    (l : Links) (x a : ℕ) (s : Slot)
    → s ≢ next_of a
    → s ≢ next_of x
    → load (appended l x (next_of a)) s ≡ load l s
load-appended_ne l x a first_of h k = refl
load-appended_ne l x a (next_of b) h k = elim (Bool-cases (b == a)) [
  | inl e ↦ absurd (h (ground arith))
  | inr e ↦ elim (Bool-cases (b == x)) [ inl e' ↦ absurd (k (ground arith)) | inr e' ↦ rw (e, e') ]
]

pub slot_ne_in : (s : Slot) (a : ℕ) (zs : List ℕ) → Apart s zs → has a zs ≡ true → s ≢ next_of a
slot_ne_in first_of a zs ap h = λ e. cc
slot_ne_in (next_of b) a zs ap h = λ e. ground arith

Chain-appended :
    (l : Links) (s : Slot) (zs : List ℕ) (x : ℕ)
    → Chain l s zs
    → Distinct zs
    → Apart s zs
    → has x zs ≡ false
    → s ≢ next_of x
    → Chain (appended l x (end_of s zs)) s (zs ++ (x ∷ []))
Chain-appended l first_of [] x c d ap out ne = (refl, ground arith, ground arith)
Chain-appended l (next_of b) [] x c d ap out ne = ground arith
Chain-appended l s (z ∷ zs) x c d ap out ne =
    let (a, e, h) = end_of_in z zs in
    (
      rw e (load-appended_ne l x a s (slot_ne_in s a (z ∷ zs) ap h) ne ∙ c.0),
      rw e (ground arith),
      Chain-appended l (next_of z) zs x c.2 d.1 d.0 (ground arith) (λ i. ground arith),
    )

-- TAILQ_INSERT_TAIL of an element that is not in the queue puts it at the end.
pub tailq_insert_tail-IsQueue :
    (q : TailQueue) (xs : List ℕ) (x : ℕ)
    → IsQueue q xs
    → has x xs ≡ false
    → IsQueue (tailq_insert_tail q x) (xs ++ (x ∷ []))
unfolding tailq_insert_tail
tailq_insert_tail-IsQueue q xs x is out = record {
  chain = rw is.last (Chain-appended q.links first_of xs x is.chain is.distinct tt out (λ e. cc));
  distinct = append-Distinct xs x is.distinct out;
  last = end_of-snoc first_of xs x;
}
  where
    end_of-snoc : (s : Slot) (ys : List ℕ) (y : ℕ) → next_of y ≡ end_of s (ys ++ (y ∷ []))
    end_of-snoc s [] y = refl
    end_of-snoc s (z ∷ ys) y = end_of-snoc (next_of z) ys y

end_of-erase :
    (l : Links) (s : Slot) (zs : List ℕ) (x : ℕ)
    → Chain l s zs
    → has x zs ≡ true
    → ((l.next x ≡ none → end_of s (erase x zs) ≡ l.prev x)
        × ((y : ℕ) → l.next x ≡ some y → end_of s (erase x zs) ≡ end_of s zs))
end_of-erase l s [] x c h = cc
end_of-erase l s (z ∷ zs) x c h = elim (Bool-cases (x == z)) [
  | inl e ↦ rw e (at_front zs c (ground arith))
  | inr e ↦ rw e (end_of-erase l (next_of z) zs x c.2 (ground arith))
]
  where
    at_front :
        (ys : List ℕ)
        → Chain l s (z ∷ ys)
        → x ≡ z
        → ((l.next x ≡ none → end_of s ys ≡ l.prev x)
            × ((y : ℕ) → l.next x ≡ some y → end_of s ys ≡ end_of (next_of z) ys))
    at_front [] c e = (λ n. rw e (sym c.1), λ y n. ground arith)
    at_front (w ∷ ys) c e = (λ n. ground arith, λ y n. refl)

-- TAILQ_REMOVE of an element of the queue takes it out and keeps the order of the others.
pub tailq_remove-IsQueue :
    (q : TailQueue) (xs : List ℕ) (x : ℕ)
    → IsQueue q xs
    → has x xs ≡ true
    → IsQueue (tailq_remove q x) (erase x xs)
unfolding tailq_remove
tailq_remove-IsQueue q xs x is h = record {
  chain = Chain-remove q.links first_of xs x is.chain is.distinct tt h;
  distinct = erase-Distinct x xs is.distinct;
  last = elim (Option-cases (q.links.next x)) [
    | inl e ↦ rw e (sym ((end_of-erase q.links first_of xs x is.chain h).0 e))
    | inr (y, e) ↦ rw e (is.last ∙ sym ((end_of-erase q.links first_of xs x is.chain h).1 y e))
  ];
}

-- TAILQ_FIRST is the head of the list.
pub first_lem : (l : Links) (xs : List ℕ) → IsList l xs → l.first ≡ head? xs
first_lem l [] is = is.chain
first_lem l (x ∷ xs) is = is.chain.0

pub tailq_init-IsQueue : (q : TailQueue) → IsQueue (tailq_init q) []
unfolding tailq_init
tailq_init-IsQueue q = record { chain = refl; distinct = tt; last = refl }

-- TAILQ_INSERT_HEAD of an element that is not in the queue puts it in front.
pub tailq_insert_head-IsQueue :
    (q : TailQueue) (xs : List ℕ) (x : ℕ)
    → IsQueue q xs
    → has x xs ≡ false
    → IsQueue (tailq_insert_head q x) (x ∷ xs)
unfolding tailq_insert_head
tailq_insert_head-IsQueue q xs x is out =
    let r =
      insert_head-IsList q.links xs x (record { chain = is.chain; distinct = is.distinct }) out in
    record { chain = r.chain; distinct = r.distinct; last = last_lem xs is }
  where
    last_lem : (ys : List ℕ) → IsQueue q ys → last_before q x q.links.first ≡ end_of (next_of x) ys
    last_lem [] is = rw is.chain
    last_lem (y ∷ ys) is = rw is.chain.0 is.last
