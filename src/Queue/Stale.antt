-- ===== src/Queue/Stale.antt =====
-- TAILQ_REMOVE of an element that is not in the queue: its links are those of its last stay.
use buaa_os_challenge.Base.{
  ℕ, ◌≡◌, ◌≢◌, refl, sym, ap, ◌∙◌, Option, none, some, List, [], ◌∷◌, ◌++◌, true, false, inl, inr,
  arith, has, Distinct, erase, update, ◌==◌, Bool-cases, has-append, fun_ext,
}
use buaa_os_challenge.Queue.{
  Slot, first_of, next_of, Links, load, store, set_prev, remove, TailQueue, tailq_insert_tail,
  tailq_remove, last_after,
}
use buaa_os_challenge.Queue.Chain.{Chain, end_of, Apart, IsQueue}
use buaa_os_challenge.Queue.Removal.{
  next_ne, load-remove_ne, prev-remove_ne, load-store_self, load-store_ne, prev-store,
  load-remove_self, prev-remove_next,
}
use buaa_os_challenge.Queue.Laws.{
  tailq_remove-IsQueue, tailq_insert_tail-IsQueue, end_of_in, slot_ne_in,
}

-- The last element of a chain points to NULL, and back to the end of what is before it.
last_links :
    (l : Links) (s : Slot) (zs : List ℕ) (x : ℕ)
    → Chain l s (zs ++ (x ∷ []))
    → (l.next x ≡ none) × (l.prev x ≡ end_of s zs)
last_links l s [] x c = (c.2, c.1)
last_links l s (z ∷ zs) x c = last_links l (next_of z) zs x c.2

-- Cutting a chain before its last element.
cut_last :
    (l : Links) (s : Slot) (zs : List ℕ) (x : ℕ)
    → Chain l s (zs ++ (x ∷ []))
    → Distinct zs
    → Apart s zs
    → Chain (store l (end_of s zs) none) s zs
cut_last l s [] x c d ap = load-store_self l s none
cut_last l s (z ∷ zs) x c d ap =
    let (a, e, h) = end_of_in z zs in
    (
      load-store_ne l (end_of (next_of z) zs) s none (λ i. slot_ne_in s a (z ∷ zs) ap h (i ∙ e))
          ∙ c.0,
      prev-store l (end_of (next_of z) zs) none z ∙ c.1,
      cut_last l (next_of z) zs x c.2 d.1 d.0,
    )

end_ne : (zs : List ℕ) (x : ℕ) → has x zs ≡ false → next_of x ≢ end_of first_of zs
end_ne [] x out = λ e. cc
end_ne (z ∷ zs) x out = let (a, e, h) = end_of_in z zs in λ i. ground arith

erase_last : (zs : List ℕ) (x : ℕ) → has x zs ≡ false → erase x (zs ++ (x ∷ [])) ≡ zs
erase_last [] x out = ground arith
erase_last (z ∷ zs) x out = ground (arith, erase_last zs x)

Distinct-init : (zs : List ℕ) (x : ℕ) → Distinct (zs ++ (x ∷ [])) → Distinct zs × (has x zs ≡ false)
Distinct-init [] x d = (tt, refl)
Distinct-init (z ∷ zs) x d =
    let r = Distinct-init zs x d.1 in ground (arith, has-append z zs (x ∷ []))

-- The links of an element that is taken out stay with it.
module _ (l : Links) (x : ℕ) (ne : l.next x ≢ some x) (apart : next_of x ≢ l.prev x) where
  next-remove : (remove l x).next x ≡ l.next x
  next-remove = load-remove_ne l x ne (next_of x) apart

  prev-remove : (remove l x).prev x ≡ l.prev x
  prev-remove = prev-remove_ne l x ne x ne

set_prev_same :
    (l : Links) (o : Option ℕ) (p : Slot)
    → ((y : ℕ) → o ≡ some y → l.prev y ≡ p)
    → set_prev l o p ≡ l
set_prev_same l none p h = refl
set_prev_same l (some y) p h = λ i. record l { prev = fun_ext same i }
  where
    same : (a : ℕ) → update l.prev y p a ≡ l.prev a
    same a = elim (Bool-cases (a == y)) [
      | inl e ↦ let e' : a ≡ y = ground arith in rw e (sym (h a (ap some (sym e'))))
      | inr e ↦ rw e
    ]

store_same : (l : Links) (s : Slot) (v : Option ℕ) → load l s ≡ v → store l s v ≡ l
store_same l first_of v h = λ i. record l { first = sym h i }
store_same l (next_of b) v h = λ i. record l { next = fun_ext same i }
  where
    same : (a : ℕ) → update l.next b v a ≡ l.next a
    same a = ground arith

prev_ne :
    (l : Links) (xs : List ℕ) (x : ℕ)
    → Chain l first_of xs
    → Distinct xs
    → has x xs ≡ true
    → next_of x ≢ l.prev x
prev_ne l [] x c d h = cc
prev_ne l (z ∷ zs) x c d h = elim (Bool-cases (x == z)) [
  | inl e ↦ λ i. ground arith
  | inr e ↦ prev_ne_in z zs c.2 d.1 d.0 (ground arith)
]
  where
    prev_ne_in :
        (w : ℕ) (ys : List ℕ)
        → Chain l (next_of w) ys
        → Distinct ys
        → has w ys ≡ false
        → has x ys ≡ true
        → next_of x ≢ l.prev x
    prev_ne_in w [] c d o h = cc
    prev_ne_in w (y ∷ ys) c d o h = elim (Bool-cases (x == y)) [
      | inl e ↦ λ i. ground arith
      | inr e ↦ prev_ne_in y ys c.2 d.1 d.0 (ground arith)
    ]

remove_same :
    (m : Links) (x : ℕ)
    → set_prev m (m.next x) (m.prev x) ≡ m
    → load m (m.prev x) ≡ m.next x
    → remove m x ≡ m
unfolding remove
remove_same m x e h =
    ap (λ (k : Links). store k (k.prev x) (k.next x)) e ∙ store_same m (m.prev x) (m.next x) h

-- LIST_REMOVE twice in a row, with nothing in between, is LIST_REMOVE once.
remove_again :
    (l : Links) (xs : List ℕ) (x : ℕ)
    → Chain l first_of xs
    → Distinct xs
    → has x xs ≡ true
    → remove (remove l x) x ≡ remove l x
remove_again l xs x c d h =
    let ne = next_ne l first_of xs x c d h in
    let ap = prev_ne l xs x c d h in
    let n = next-remove l x ne ap in
    let p = prev-remove l x ne ap in
    remove_same (remove l x) x
      (set_prev_same (remove l x) ((remove l x).next x) ((remove l x).prev x)
        (λ y e. prev-remove_next l x ne y (sym n ∙ e) ∙ sym p))
      (rw p (load-remove_self l x ne ∙ sym n))

last_again :
    (q : TailQueue) (m : Links) (x : ℕ) (o : Option ℕ)
    → m.prev x ≡ q.links.prev x
    → last_after (record { links = m; last = last_after q x o }) x o ≡ last_after q x o
last_again q m x none p = p
last_again q m x (some y) p = refl

-- TAILQ_REMOVE of an element of the queue, done twice in a row, is TAILQ_REMOVE done once.
pub tailq_remove-tailq_remove :
    (q : TailQueue) (xs : List ℕ) (x : ℕ)
    → IsQueue q xs
    → has x xs ≡ true
    → tailq_remove (tailq_remove q x) x ≡ tailq_remove q x
unfolding tailq_remove
tailq_remove-tailq_remove q xs x is h =
    let ne = next_ne q.links first_of xs x is.chain is.distinct h in
    let n = next-remove q.links x ne (prev_ne q.links xs x is.chain is.distinct h) in
    let p = prev-remove q.links x ne (prev_ne q.links xs x is.chain is.distinct h) in
    let again = remove_again q.links xs x is.chain is.distinct h in
    let e : last_after (tailq_remove q x) x ((remove q.links x).next x)
        ≡ last_after q x (q.links.next x) =
      rw n (last_again q (remove q.links x) x (q.links.next x) p) in
    λ i. record { links = again i; last = e i }

remove_at_end :
    (l : Links) (x : ℕ) (p : Slot) → l.next x ≡ none → l.prev x ≡ p → remove l x ≡ store l p none
unfolding remove
remove_at_end l x p n e = rw (n, e, n)

-- An insertion at the tail leaves the links of an element alone that is neither the new one nor
-- at the end of the queue.
module _ (q : TailQueue) (x c : ℕ) (ne : x ≢ c) (far : next_of x ≢ q.last) where
  next-insert_tail : (tailq_insert_tail q c).links.next x ≡ q.links.next x
  unfolding tailq_insert_tail
  next-insert_tail =
      load-store_ne
        (record (store q.links (next_of c) none) { prev = update q.links.prev c q.last }) q.last
        (next_of x) (some c) far
      ∙ load-store_ne q.links (next_of c) (next_of x) none (λ i. ne (ground arith))

  prev-insert_tail : (tailq_insert_tail q c).links.prev x ≡ q.links.prev x
  unfolding tailq_insert_tail
  prev-insert_tail =
      prev-store (record (store q.links (next_of c) none) { prev = update q.links.prev c q.last })
        q.last (some c) x
      ∙ ground arith

-- Where the last element of a queue is removed, another one is enqueued, and the first is removed
-- again, the element enqueued in between is lost.
pub stale-remove_drops :
    (q : TailQueue) (zs : List ℕ) (x c : ℕ)
    → IsQueue q (zs ++ (x ∷ []))
    → has c (zs ++ (x ∷ [])) ≡ false
    → IsQueue (tailq_remove (tailq_insert_tail (tailq_remove q x) c) x) zs
unfolding tailq_remove
stale-remove_drops q zs x c is out = record {
  chain =
      rw (remove_at_end q2.links x (end_of first_of zs) n p)
        (cut_last q2.links first_of zs c is2.chain d.0 tt);
  distinct = d.0;
  last = rw n p;
}
  where
    d : Distinct zs × (has x zs ≡ false)
    d = Distinct-init zs x is.distinct

    links : (q.links.next x ≡ none) × (q.links.prev x ≡ end_of first_of zs)
    links = last_links q.links first_of zs x is.chain

    member : has x (zs ++ (x ∷ [])) ≡ true
    member = ground (arith, has-append x zs (x ∷ []))

    q1 : TailQueue
    q1 = tailq_remove q x

    is1 : IsQueue q1 zs
    is1 = rw (erase_last zs x d.1) at (tailq_remove-IsQueue q (zs ++ (x ∷ [])) x is member)

    q2 : TailQueue
    q2 = tailq_insert_tail q1 c

    fresh : has c zs ≡ false
    fresh = ground (arith, has-append c zs (x ∷ []))

    is2 : IsQueue q2 (zs ++ (c ∷ []))
    is2 = tailq_insert_tail-IsQueue q1 zs c is1 fresh

    differ : x ≢ c
    differ = λ e. ground (arith, has-append c zs (x ∷ []))

    far : next_of x ≢ q1.last
    far = rw is1.last (end_ne zs x d.1)

    ne : q.links.next x ≢ some x
    ne = λ e. cc links.0

    apart : next_of x ≢ q.links.prev x
    apart = rw links.1 (end_ne zs x d.1)

    n : q2.links.next x ≡ none
    n = next-insert_tail q1 x c differ far ∙ next-remove q.links x ne apart ∙ links.0

    p : q2.links.prev x ≡ end_of first_of zs
    p = prev-insert_tail q1 x c differ far ∙ prev-remove q.links x ne apart ∙ links.1
