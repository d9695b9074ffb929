-- ===== src/Queue/After.antt =====
-- LIST_INSERT_AFTER on the list that the pointers stand for.
use buaa_os_challenge.Base.{
  ℕ, ◌≡◌, ◌≢◌, refl, sym, ap, ◌∙◌, some, List, [], ◌∷◌, true, false, inl, inr, arith, has, Distinct,
  ◌==◌, Bool-cases, Option-cases, if◌then◌else◌, some_inj,
}
use mathlib.Core.Path.{subst}
use buaa_os_challenge.Queue.{Slot, first_of, next_of, Links, load, insert_after}
use buaa_os_challenge.Queue.Chain.{Chain, Apart, IsList, frame}

-- The list with the second argument put behind the first.
abbrev pub insert_behind : ℕ → ℕ → List ℕ → List ℕ
insert_behind y x [] = []
insert_behind y x (z ∷ zs) = if y == z then z ∷ x ∷ zs else z ∷ insert_behind y x zs

module _ (l : Links) (y x : ℕ) where
  load-insert_after_ne :
      (s : Slot) → s ≢ next_of y → s ≢ next_of x → load (insert_after l y x) s ≡ load l s
  unfolding insert_after
  load-insert_after_ne first_of h k = elim (Option-cases (l.next y)) [
    | inl e ↦ rw e
    | inr (a, e) ↦ rw e
  ]
  load-insert_after_ne (next_of b) h k =
      let p : (b == y) ≡ false = elim (Bool-cases (b == y)) [
        | inl e ↦ absurd (h (ground arith))
        | inr e ↦ e
      ] in
      let q : (b == x) ≡ false = elim (Bool-cases (b == x)) [
        | inl e ↦ absurd (k (ground arith))
        | inr e ↦ e
      ] in
      elim (Option-cases (l.next y)) [ inl e ↦ rw (e, p, q) | inr (a, e) ↦ rw (e, p, q) ]

  next-insert_after_self : y ≢ x → (insert_after l y x).next y ≡ some x
  unfolding insert_after
  next-insert_after_self ne = elim (Option-cases (l.next y)) [
    | inl e ↦ rw e (ground arith)
    | inr (a, e) ↦ rw e (ground arith)
  ]

  next-insert_after_new : y ≢ x → (insert_after l y x).next x ≡ l.next y
  unfolding insert_after
  next-insert_after_new ne = elim (Option-cases (l.next y)) [
    | inl e ↦ rw e (ground arith)
    | inr (a, e) ↦ rw e (ground arith)
  ]

  prev-insert_after_new : (insert_after l y x).prev x ≡ next_of y
  unfolding insert_after
  prev-insert_after_new = ground arith

  prev-insert_after_next :
      (a : ℕ) → l.next y ≡ some a → a ≢ x → (insert_after l y x).prev a ≡ next_of x
  unfolding insert_after
  prev-insert_after_next a e ne = rw e (ground arith)

  prev-insert_after_ne :
      (a : ℕ) → l.next y ≢ some a → a ≢ x → (insert_after l y x).prev a ≡ l.prev a
  unfolding insert_after
  prev-insert_after_ne a h ne = elim (Option-cases (l.next y)) [
    | inl e ↦ rw e (ground arith)
    | inr (b, e) ↦ rw e (ground arith)
  ]

has-behind :
    (a y x : ℕ) (zs : List ℕ)
    → has a zs ≡ false
    → (a == x) ≡ false
    → has a (insert_behind y x zs) ≡ false
has-behind a y x [] h n = refl
has-behind a y x (z ∷ zs) h n = elim (Bool-cases (y == z)) [
  | inl e ↦ rw e (ground arith)
  | inr e ↦ rw e (ground (arith, has-behind a y x zs))
]

behind-Distinct :
    (y x : ℕ) (zs : List ℕ) → Distinct zs → has x zs ≡ false → Distinct (insert_behind y x zs)
behind-Distinct y x [] d out = tt
behind-Distinct y x (z ∷ zs) d out = elim (Bool-cases (y == z)) [
  | inl e ↦ rw e (ground arith, (ground arith, d.1))
  | inr e ↦ rw e (has-behind z y x zs d.0 (ground arith), behind-Distinct y x zs d.1 (ground arith))
]

-- the element after a listed one points back to it
back :
    (l : Links) (s : Slot) (zs : List ℕ) (y z : ℕ)
    → Chain l s zs
    → has y zs ≡ true
    → l.next y ≡ some z
    → l.prev z ≡ next_of y
back l s [] y z c h q = cc
back l s (a ∷ zs) y z c h q = elim (Bool-cases (y == a)) [
  | inr e ↦ back l (next_of a) zs y z c.2 (ground arith) q
  | inl e ↦ let i : y ≡ a = ground arith in rw i (at_front zs c.2 (ap l.next (sym i) ∙ q))
]
  where
    at_front : (ys : List ℕ) → Chain l (next_of a) ys → l.next a ≡ some z → l.prev z ≡ next_of a
    at_front [] c q = cc
    at_front (b ∷ ys) c q = let i : b ≡ z = some_inj (sym c.0 ∙ q) in ap l.prev (sym i) ∙ c.1

module _ (l : Links) (y x : ℕ) (ne : y ≢ x) where
  -- behind the element that is followed by `zs`
  Chain-new :
      (zs : List ℕ)
      → Chain l (next_of y) zs
      → Distinct (y ∷ zs)
      → has x zs ≡ false
      → Chain (insert_after l y x) (next_of x) zs
  Chain-new [] c d out = next-insert_after_new l y x ne ∙ c
  Chain-new (z ∷ zs) c d out = (
    next-insert_after_new l y x ne ∙ c.0,
    prev-insert_after_next l y x z c.0 (λ e. ground arith),
    frame l (insert_after l y x) (next_of z) zs
        (load-insert_after_ne l y x (next_of z) (λ e. ground arith) (λ e. ground arith))
        (λ a h. (
          load-insert_after_ne l y x (next_of a) (λ e. ground arith) (λ e. ground arith),
          prev-insert_after_ne l y x a (λ e. ground arith) (λ e. ground arith),
        ))
        c.2,
  )

  self_ne : (zs : List ℕ) → Chain l (next_of y) zs → has y zs ≡ false → l.next y ≢ some y
  self_ne [] c h = λ q. cc
  self_ne (z ∷ zs) c h = λ q. ground arith

  Chain-insert_after :
      (s : Slot) (zs : List ℕ)
      → Chain l s zs
      → Distinct zs
      → Apart s zs
      → has y zs ≡ true
      → has x zs ≡ false
      → s ≢ next_of x
      → s ≢ next_of y
      → Chain (insert_after l y x) s (insert_behind y x zs)
  Chain-insert_after s [] c d apart h out sx sy = cc
  Chain-insert_after s (z ∷ zs) c d apart h out sx sy = elim (Bool-cases (y == z)) [
    | inl e ↦
        let i : z ≡ y = ground arith in
        let c' : Chain l (next_of y) zs = subst (λ (w : ℕ). Chain l (next_of w) zs) i c.2 in
        rw e (
          load-insert_after_ne l y x s sy sx ∙ c.0,
          rw i (prev-insert_after_ne l y x y (self_ne zs c' (ground arith)) ne)
              ∙ ap l.prev (sym i)
              ∙ c.1,
          (
            rw i (next-insert_after_self l y x ne),
            rw i (prev-insert_after_new l y x),
            Chain-new zs c' (ground arith) (ground arith),
          ),
        )
    | inr e ↦
        let h' : has y zs ≡ true = ground arith in
        let far : l.next y ≢ some z = λ q. sy (sym c.1 ∙ back l (next_of z) zs y z c.2 h' q) in
        rw e (
          load-insert_after_ne l y x s sy sx ∙ c.0,
          prev-insert_after_ne l y x z far (λ q. ground arith) ∙ c.1,
          Chain-insert_after (next_of z) zs c.2 d.1 d.0 h' (ground arith) (λ q. ground arith)
              (λ q. ground arith),
        )
  ]

-- LIST_INSERT_AFTER of an element that is not in the list puts it directly behind the listed
-- element, and keeps the order of the others.
pub insert_after-IsList :
    (l : Links) (xs : List ℕ) (y x : ℕ)
    → IsList l xs
    → has y xs ≡ true
    → has x xs ≡ false
    → IsList (insert_after l y x) (insert_behind y x xs)
insert_after-IsList l xs y x is h out = record {
  chain =
      Chain-insert_after l y x (λ e. ground arith) first_of xs is.chain is.distinct tt h out
        (λ e. cc) (λ e. cc);
  distinct = behind-Distinct y x xs is.distinct out;
}
