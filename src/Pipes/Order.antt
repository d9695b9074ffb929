-- ===== src/Pipes/Order.antt =====
-- The bytes of a pipe arrive in order, however readers and writers take turns.
use buaa_os_challenge.Base.{
  ℕ, zero, suc, ◌+◌, ◌-◌, ◌%◌, ◌^◌, ◌<◌, ◌≤◌, ◌≡◌, ◌≢◌, refl, sym, ap, ◌∙◌, Bool, false, ◌||◌, List,
  [], ◌∷◌, ◌++◌, arith, update, ltb, leb, ◌==◌, length, length-append, Bool-cases, inl, inr,
}
use mathlib.Core.List.{append_assoc}
use mathlib.Core.Path.{subst}
use buaa_os_challenge.Pipes.{
  Pipe, ReadPass, read_returns, read_yields, takes, WritePass, write_returns, write_yields, gives,
  pipe_read, pipe_write, System, Step, reads, writes, Reachable, start, next,
}

-- the `n` bytes of the buffer from position `r` on
abbrev pub contents : (ℕ → ℕ) → ℕ → ℕ → List ℕ
contents buf r zero = []
contents buf r (suc n) = buf (r % 32) ∷ contents buf (r + 1) n

contents-update :
    (buf : ℕ → ℕ) (w v r n : ℕ)
    → r + n ≤ w
    → w < r + 32
    → contents (update buf (w % 32) v) r n ≡ contents buf r n
contents-update buf w v r zero lo hi = refl
contents-update buf w v r (suc n) lo hi =
    let far : (r % 32 == w % 32) ≡ false = apart in
    rw far (
      ap (λ (l : List ℕ). buf (r % 32) ∷ l)
        (contents-update buf w v (r + 1) n (omega arith) (omega arith)))
  where
    differ : r % 32 ≢ w % 32
    differ = λ e. omega arith

    apart : (r % 32 == w % 32) ≡ false
    apart = ground (arith, differ)

contents-snoc :
    (buf : ℕ → ℕ) (r n : ℕ) → contents buf r (suc n) ≡ contents buf r n ++ (buf ((r + n) % 32) ∷ [])
contents-snoc buf r zero = ground arith
contents-snoc buf r (suc n) =
    let e : r + 1 + n ≡ r + suc n = omega arith in
    ap (λ (l : List ℕ). buf (r % 32) ∷ l)
      (contents-snoc buf (r + 1) n
        ∙ ap (λ (i : ℕ). contents buf (r + 1) n ++ (buf (i % 32) ∷ [])) e)

-- The pipe holds what was given and not yet taken, at most 32 bytes.
pub record InOrder (s : System) : Type 0 where
  pub read_count : s.pipe.rpos ≡ length s.taken
  pub write_count : s.pipe.wpos ≡ length s.given
  pub behind : s.pipe.rpos ≤ s.pipe.wpos
  pub room : s.pipe.wpos ≤ s.pipe.rpos + 32
  pub order : s.given ≡ s.taken ++ contents s.pipe.buf s.pipe.rpos (s.pipe.wpos - s.pipe.rpos)

-- the byte and the pipe of a pass
byte_of : ReadPass → ℕ
byte_of (read_returns n) = 0
byte_of read_yields = 0
byte_of (takes b p) = b

after_read : Pipe → ReadPass → Pipe
after_read q (read_returns n) = q
after_read q read_yields = q
after_read q (takes b p) = p

after_write : Pipe → WritePass → Pipe
after_write q (write_returns n) = q
after_write q write_yields = q
after_write q (gives p) = p

-- what a pass that takes a byte did
read_takes :
    (closed : Bool) (n i b : ℕ) (p p' : Pipe)
    → pipe_read closed n i p ≡ takes b p'
    → (p.rpos < p.wpos)
      × (p.buf (p.rpos % 32) ≡ b)
      × (record p { rpos = (p.rpos + 1) % 2 ^ 32 } ≡ p')
unfolding pipe_read byte_of after_read
read_takes closed n i b p p' e = elim (Bool-cases (leb n i)) [
  | inl y ↦ let e' : read_returns n ≡ takes b p' = rw y at e in absurd cc
  | inr m ↦ elim (Bool-cases (leb p.wpos p.rpos)) [
    | inl y ↦ elim (Bool-cases (ltb 0 i || closed)) [
      | inl z ↦ let e' : read_returns i ≡ takes b p' = rw (m, y, z) at e in absurd cc
      | inr z ↦ let e' : read_yields ≡ takes b p' = rw (m, y, z) at e in absurd cc
    ]
    | inr y ↦
        let e' : takes (p.buf (p.rpos % 32)) (record p { rpos = (p.rpos + 1) % 2 ^ 32 })
            ≡ takes b p' =
          rw (m, y) at e in
        (ground arith, ap byte_of e', ap (after_read p') e')
  ]
]

-- what a pass that gives a byte did
write_gives :
    (closed : Bool) (n i b : ℕ) (p p' : Pipe)
    → pipe_write closed n i b p ≡ gives p'
    → ((p.wpos + 2 ^ 32 - p.rpos) % 2 ^ 32 < 32)
      × (record p { buf = update p.buf (p.wpos % 32) b; wpos = (p.wpos + 1) % 2 ^ 32 } ≡ p')
unfolding pipe_write after_write
write_gives closed n i b p p' e = elim (Bool-cases (leb n i)) [
  | inl y ↦ let e' : write_returns n ≡ gives p' = rw y at e in absurd cc
  | inr m ↦ elim (Bool-cases (leb 32 ((p.wpos + 2 ^ 32 - p.rpos) % 2 ^ 32))) [
    | inl y ↦ elim (Bool-cases closed) [
      | inl z ↦ let e' : write_returns i ≡ gives p' = rw (m, y, z) at e in absurd cc
      | inr z ↦ let e' : write_yields ≡ gives p' = rw (m, y, z) at e in absurd cc
    ]
    | inr y ↦
        let e' : gives
              (record p { buf = update p.buf (p.wpos % 32) b; wpos = (p.wpos + 1) % 2 ^ 32 })
            ≡ gives p' =
          rw (m, y) at e in
        (ground arith, ap (after_write p') e')
  ]
]

reads-InOrder :
    (s : System)
    → InOrder s
    → s.pipe.rpos < s.pipe.wpos
    → s.pipe.wpos < 2 ^ 32
    → InOrder (record {
      pipe = record s.pipe { rpos = (s.pipe.rpos + 1) % 2 ^ 32 };
      taken = s.taken ++ (s.pipe.buf (s.pipe.rpos % 32) ∷ []);
      given = s.given;
    })
reads-InOrder s is lt small =
    let p = s.pipe in
    let b = p.buf (p.rpos % 32) in
    let k = p.wpos - (p.rpos + 1) in
    let e1 : p.wpos - p.rpos ≡ suc k = omega arith in
    let e2 : (p.rpos + 1) % 2 ^ 32 ≡ p.rpos + 1 = omega arith in
    record {
      read_count = omega (arith, is.read_count, length-append s.taken (b ∷ []));
      write_count = is.write_count;
      behind = omega arith;
      room = omega (arith, is.room);
      order = rw e2 (
          is.order
          ∙ ap (λ (m : ℕ). s.taken ++ contents p.buf p.rpos m) e1
          ∙ sym (append_assoc s.taken (b ∷ []) (contents p.buf (p.rpos + 1) k)));
    }

writes-InOrder :
    (s : System) (b : ℕ)
    → InOrder s
    → s.pipe.wpos < s.pipe.rpos + 32
    → s.pipe.wpos + 1 < 2 ^ 32
    → InOrder (record {
      pipe = record s.pipe {
        buf = update s.pipe.buf (s.pipe.wpos % 32) b;
        wpos = (s.pipe.wpos + 1) % 2 ^ 32;
      };
      taken = s.taken;
      given = s.given ++ (b ∷ []);
    })
writes-InOrder s b is lt small =
    let p = s.pipe in
    let n = p.wpos - p.rpos in
    let buf' = update p.buf (p.wpos % 32) b in
    let e1 : (p.wpos + 1) % 2 ^ 32 ≡ p.wpos + 1 = omega arith in
    let e2 : p.wpos + 1 - p.rpos ≡ suc n = omega (arith, is.behind) in
    let e3 : p.rpos + n ≡ p.wpos = omega (arith, is.behind) in
    let at_end : buf' ((p.rpos + n) % 32) ≡ b = rw e3 (ground arith) in
    record {
      read_count = is.read_count;
      write_count = omega (arith, is.write_count, length-append s.given (b ∷ []));
      behind = omega (arith, is.behind);
      room = omega arith;
      order =
          rw (e1, e2)
            (ap (λ (l : List ℕ). l ++ (b ∷ [])) is.order
              ∙ append_assoc s.taken (contents p.buf p.rpos n) (b ∷ [])
              ∙ ap (λ (l : List ℕ). s.taken ++ l)
                  (sym (
                    contents-snoc buf' p.rpos n
                    ∙ ap (λ (x : ℕ). contents buf' p.rpos n ++ (x ∷ [])) at_end
                    ∙ ap (λ (l : List ℕ). l ++ (b ∷ []))
                        (contents-update p.buf p.wpos b p.rpos n (omega (arith, is.behind)) lt))));
    }

-- A step keeps the order, as long as the positions do not wrap round.
Step-InOrder : (s t : System) → Step s t → InOrder s → length t.given < 2 ^ 32 → InOrder t
Step-InOrder s _ (reads _ closed n i b p e) is small =
    let (lt, eb, ep) = read_takes closed n i b s.pipe p e in
    subst (λ (x : ℕ). InOrder (record { pipe = p; taken = s.taken ++ (x ∷ []); given = s.given }))
      eb
      (subst
        (λ (q : Pipe). InOrder (record {
          pipe = q;
          taken = s.taken ++ (s.pipe.buf (s.pipe.rpos % 32) ∷ []);
          given = s.given;
        }))
        ep (reads-InOrder s is lt (omega (arith, is.write_count))))
Step-InOrder s _ (writes _ closed n i b p e) is small =
    let (lt, ep) = write_gives closed n i b s.pipe p e in
    let len = length-append s.given (b ∷ []) in
    subst
      (λ (q : Pipe). InOrder (record { pipe = q; taken = s.taken; given = s.given ++ (b ∷ []) })) ep
      (writes-InOrder s b is (omega (arith, is.behind, is.write_count, len))
        (omega (arith, is.write_count, len)))

given-grows : (s t : System) → Step s t → length s.given ≤ length t.given
given-grows s _ (reads _ closed n i b p e) = omega arith
given-grows s _ (writes _ closed n i b p e) = omega (arith, length-append s.given (b ∷ []))

-- After any sequence of passes of any readers and writers on a new pipe, in which fewer than
-- 2 ^ 32 bytes were given: the bytes that were given are those that were taken, in their order,
-- followed by what the buffer holds between the two positions, which is at most 32 bytes.
pub Reachable-InOrder : (s : System) → Reachable s → length s.given < 2 ^ 32 → InOrder s
Reachable-InOrder _ start small = record {
  read_count = refl;
  write_count = refl;
  behind = omega arith;
  room = omega arith;
  order = refl;
}
Reachable-InOrder _ (next s t r step) small =
    Step-InOrder s t step (Reachable-InOrder s r (omega (arith, given-grows s t step))) small
