-- ===== src/Queue/Removal.antt =====
-- LIST_REMOVE on a chain: exactly the element goes, and the others keep their order.
use buaa_os_challenge.Base.{
  ℕ, ◌≡◌, ◌≢◌, refl, sym, ap, ◌∙◌, Option, none, some, List, [], ◌∷◌, true, false, inl, inr, ◌⊎◌,
  arith, has, Distinct, erase, ◌==◌, Bool-cases,
}
use buaa_os_challenge.Queue.{Slot, first_of, next_of, Links, load, store, set_prev, remove}
use buaa_os_challenge.Queue.Chain.{Chain, Apart, frame}

pub load-store_self : (l : Links) (s : Slot) (v : Option ℕ) → load (store l s v) s ≡ v
load-store_self l first_of v = refl
load-store_self l (next_of a) v = ground arith

pub load-store_ne :
    (l : Links) (s t : Slot) (v : Option ℕ) → t ≢ s → load (store l s v) t ≡ load l t
load-store_ne l first_of first_of v h = absurd (h refl)
load-store_ne l first_of (next_of b) v h = refl
load-store_ne l (next_of a) first_of v h = refl
load-store_ne l (next_of a) (next_of b) v h = elim (Bool-cases (b == a)) [
  | inl e ↦ absurd (h (ground arith))
  | inr e ↦ rw e
]

pub prev-store : (l : Links) (s : Slot) (v : Option ℕ) (a : ℕ) → (store l s v).prev a ≡ l.prev a
prev-store l first_of v a = refl
prev-store l (next_of b) v a = refl

pub load-set_prev : (l : Links) (o : Option ℕ) (p s : Slot) → load (set_prev l o p) s ≡ load l s
load-set_prev l none p s = refl
load-set_prev l (some y) p first_of = refl
load-set_prev l (some y) p (next_of a) = refl

pub prev-set_prev_ne :
    (l : Links) (o : Option ℕ) (p : Slot) (a : ℕ) → o ≢ some a → (set_prev l o p).prev a ≡ l.prev a
prev-set_prev_ne l none p a h = refl
prev-set_prev_ne l (some y) p a h = elim (Bool-cases (a == y)) [
  | inl e ↦ absurd (h (ground arith))
  | inr e ↦ rw e
]

pub prev-set_prev_self : (l : Links) (y : ℕ) (p : Slot) → (set_prev l (some y) p).prev y ≡ p
prev-set_prev_self l y p = ground arith

-- What LIST_REMOVE writes, for an element that is not its own successor.
module _ (l : Links) (x : ℕ) (apart : l.next x ≢ some x) where
  -- the links between the two writes
  abbrev middle : Links
  middle = set_prev l (l.next x) (l.prev x)

  pub load-remove_self : load (remove l x) (l.prev x) ≡ l.next x
  unfolding remove
  load-remove_self =
      rw (prev-set_prev_ne l (l.next x) (l.prev x) x apart)
        (load-store_self _ (l.prev x) _ ∙ load-set_prev l (l.next x) (l.prev x) (next_of x))

  pub load-remove_ne : (t : Slot) → t ≢ l.prev x → load (remove l x) t ≡ load l t
  unfolding remove
  load-remove_ne t h =
      rw (prev-set_prev_ne l (l.next x) (l.prev x) x apart)
        (load-store_ne _ (l.prev x) t _ h ∙ load-set_prev l (l.next x) (l.prev x) t)

  pub prev-remove_ne : (a : ℕ) → l.next x ≢ some a → (remove l x).prev a ≡ l.prev a
  unfolding remove
  prev-remove_ne a h =
      prev-store middle (middle.prev x) (middle.next x) a
      ∙ prev-set_prev_ne l (l.next x) (l.prev x) a h

  pub prev-remove_next : (y : ℕ) → l.next x ≡ some y → (remove l x).prev y ≡ l.prev x
  unfolding remove
  prev-remove_next y e =
      prev-store middle (middle.prev x) (middle.next x) y ∙ rw e (prev-set_prev_self l y (l.prev x))

-- The successor of an element of a chain is an element of the chain too.
pub next_in :
    (l : Links) (s : Slot) (zs : List ℕ) (x : ℕ)
    → Chain l s zs
    → has x zs ≡ true
    → (l.next x ≡ none) ⊎ ((y : ℕ) × (l.next x ≡ some y) × (has y zs ≡ true))
next_in l s [] x c h = cc
next_in l s (z ∷ []) x c h = inl (ground arith)
next_in l s (z ∷ y ∷ zs) x c h = elim (Bool-cases (x == z)) [
  | inl e ↦ inr (y, ground arith, ground arith)
  | inr e ↦ elim (next_in l (next_of z) (y ∷ zs) x c.2 (ground arith)) [
    | inl n ↦ inl n
    | inr (w, n, i) ↦ inr (w, n, ground arith)
  ]
]

-- An element's back pointer is the start of the chain, or a next field in it.
pub prev_in :
    (l : Links) (s : Slot) (zs : List ℕ) (x : ℕ)
    → Chain l s zs
    → has x zs ≡ true
    → (l.prev x ≡ s) ⊎ ((a : ℕ) × (l.prev x ≡ next_of a) × (has a zs ≡ true))
prev_in l s [] x c h = cc
prev_in l s (z ∷ zs) x c h = elim (Bool-cases (x == z)) [
  | inl e ↦ inl (ground arith)
  | inr e ↦ elim (prev_in l (next_of z) zs x c.2 (ground arith)) [
    | inl n ↦ inr (z, n, ground arith)
    | inr (w, n, i) ↦ inr (w, n, ground arith)
  ]
]

-- No element of a chain of distinct elements is its own successor.
pub next_ne :
    (l : Links) (s : Slot) (zs : List ℕ) (x : ℕ)
    → Chain l s zs
    → Distinct zs
    → has x zs ≡ true
    → l.next x ≢ some x
next_ne l s [] x c d h = cc
next_ne l s (z ∷ []) x c d h = λ e. ground arith
next_ne l s (z ∷ y ∷ zs) x c d h = elim (Bool-cases (x == z)) [
  | inl e ↦ λ e'. ground arith
  | inr e ↦ next_ne l (next_of z) (y ∷ zs) x c.2 d.1 (ground arith)
]

Apart-ne : (s : Slot) (a : ℕ) (zs : List ℕ) → Apart s zs → has a zs ≡ true → s ≢ next_of a
Apart-ne first_of a zs ap h = cc
Apart-ne (next_of b) a zs ap h = λ e. ground arith

-- What is left behind the removed element is a chain from where it stood.
remove_front :
    (l : Links) (s : Slot) (x : ℕ) (zs : List ℕ)
    → Chain l s (x ∷ zs)
    → Distinct (x ∷ zs)
    → Apart s (x ∷ zs)
    → Chain (remove l x) s zs
remove_front l s x [] c d ap =
    let e = load-remove_self l x (next_ne l s (x ∷ []) x c d (ground arith)) in rw c.1 at e ∙ c.2
remove_front l s x (y ∷ ys) c d ap =
    let ne = next_ne l s (x ∷ y ∷ ys) x c d (ground arith) in
    (
      rw c.1 at (load-remove_self l x ne) ∙ c.2.0,
      prev-remove_next l x ne y c.2.0 ∙ c.1,
      frame l (remove l x) (next_of y) ys
          (load-remove_ne l x ne (next_of y)
            (λ e. Apart-ne s y (x ∷ y ∷ ys) ap (ground arith) (sym c.1 ∙ sym e)))
          (λ a h. (
            load-remove_ne l x ne (next_of a)
                (λ e. Apart-ne s a (x ∷ y ∷ ys) ap (ground arith) (sym c.1 ∙ sym e)),
            prev-remove_ne l x ne a (λ e. ground arith),
          ))
          c.2.2,
    )

slot_ne :
    (l : Links) (s : Slot) (z : ℕ) (zs : List ℕ) (x : ℕ)
    → Chain l s (z ∷ zs)
    → Apart s (z ∷ zs)
    → has x zs ≡ true
    → s ≢ l.prev x
slot_ne l s z zs x c ap h = elim (prev_in l (next_of z) zs x c.2 h) [
  | inl e ↦ λ e'. Apart-ne s z (z ∷ zs) ap (ground arith) (e' ∙ e)
  | inr (a, e, i) ↦ λ e'. Apart-ne s a (z ∷ zs) ap (ground arith) (e' ∙ e)
]

head_ne :
    (l : Links) (s : Slot) (z : ℕ) (zs : List ℕ) (x : ℕ)
    → Chain l s (z ∷ zs)
    → has z zs ≡ false
    → has x zs ≡ true
    → l.next x ≢ some z
head_ne l s z zs x c out h = elim (next_in l (next_of z) zs x c.2 h) [
  | inl e ↦ λ e'. ground arith
  | inr (y, e, i) ↦ λ e'. ground arith
]

-- LIST_REMOVE takes an element of a chain of distinct elements out of it.
pub Chain-remove :
    (l : Links) (s : Slot) (zs : List ℕ) (x : ℕ)
    → Chain l s zs
    → Distinct zs
    → Apart s zs
    → has x zs ≡ true
    → Chain (remove l x) s (erase x zs)
Chain-remove l s [] x c d ap h = cc
Chain-remove l s (z ∷ zs) x c d ap h = elim (Bool-cases (x == z)) [
  | inl e ↦ let e' : x ≡ z = ground arith in rw (e, e') (remove_front l s z zs c d ap)
  | inr e ↦
      let ne = next_ne l s (z ∷ zs) x c d h in
      rw e (
        load-remove_ne l x ne s (slot_ne l s z zs x c ap (ground arith)) ∙ c.0,
        prev-remove_ne l x ne z (head_ne l s z zs x c d.0 (ground arith)) ∙ c.1,
        Chain-remove l (next_of z) zs x c.2 d.1 d.0 (ground arith),
      )
]
