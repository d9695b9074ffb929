-- ===== src/Queue/Chain.antt =====
-- What the pointers of a queue stand for: the list of elements that they lead through.
use buaa_os_challenge.Base.{
  ℕ, ◌≡◌, ◌∙◌, none, some, List, [], ◌∷◌, true, false, arith, has, Distinct,
}
use buaa_os_challenge.Queue.{Slot, first_of, next_of, Links, load, TailQueue}

-- From `s` the next pointers lead through `xs` to NULL, and each element points back.
abbrev pub Chain : Links → Slot → List ℕ → Type 0
Chain l s [] = load l s ≡ none
Chain l s (x ∷ xs) = (load l s ≡ some x) × (l.prev x ≡ s) × Chain l (next_of x) xs

-- The last next field of a chain.
abbrev pub end_of : Slot → List ℕ → Slot
end_of s [] = s
end_of s (x ∷ xs) = end_of (next_of x) xs

-- The slot is not the next field of an element of the list.
abbrev pub Apart : Slot → List ℕ → Type 0
Apart first_of xs = Unit
Apart (next_of a) xs = has a xs ≡ false

pub record IsList (l : Links) (xs : List ℕ) : Type 0 where
  pub chain : Chain l first_of xs
  pub distinct : Distinct xs

pub record IsQueue (q : TailQueue) (xs : List ℕ) : Type 0 where
  pub chain : Chain q.links first_of xs
  pub distinct : Distinct xs
  pub last : q.last ≡ end_of first_of xs

pub Apart-tail : (s : Slot) (x : ℕ) (xs : List ℕ) → Apart s (x ∷ xs) → Apart s xs
Apart-tail first_of x xs h = tt
Apart-tail (next_of a) x xs h = ground arith

-- A chain is kept by changes elsewhere.
pub frame :
    (l m : Links) (s : Slot) (xs : List ℕ)
    → load m s ≡ load l s
    → ((a : ℕ) → has a xs ≡ true → (m.next a ≡ l.next a) × (m.prev a ≡ l.prev a))
    → Chain l s xs
    → Chain m s xs
frame l m s [] e same c = e ∙ c
frame l m s (x ∷ xs) e same c = (
  e ∙ c.0,
  (same x (ground arith)).1 ∙ c.1,
  frame l m (next_of x) xs (same x (ground arith)).0 (λ a h. same a (ground arith)) c.2,
)
