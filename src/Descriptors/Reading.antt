-- ===== src/Descriptors/Reading.antt =====
-- readn on a device that may give fewer bytes than it is asked for.
use Prim.Native.Nat.{bit_and, min}
use mathlib.Core.Path.{subst}
use buaa_os_challenge.Base.{
  ℕ, zero, suc, ◌+◌, ◌-◌, ◌%◌, ◌^◌, ◌<◌, ◌≤◌, ◌≡◌, refl, ap, sym, ◌∙◌, true, false, List, [], ◌∷◌,
  ◌++◌, some, length, leb, ◌==◌, ==_refl, arith, Bool-cases, inl, inr,
}
use buaa_os_challenge.Base.Monad.{Run, ret, and_then}
use buaa_os_challenge.Text.{read as stretch}
use buaa_os_challenge.Text.Buffer.{read-append}
use buaa_os_challenge.Descriptors.{
  Fd, Dev, Process, dev_lookup, fd_lookup, advance, read, or_enough, readn_rounds, readn,
}

length-stretch : (n i : ℕ) (f : ℕ → ℕ) → length (stretch n i f) ≡ n
unfolding stretch
length-stretch zero i f = refl
length-stretch (suc n) i f = ap suc (length-stretch n (i + 1) f)

-- A device that holds `size` bytes. Asked for bytes at an offset it gives those that stand there, as
-- many as `chunk` says: at least one, unless none are asked for or left.
abbrev pub Holds : {D : Type 0} → Dev D → (ℕ → ℕ) → ℕ → (ℕ → ℕ → ℕ) → Type 0
Holds {D} dev content size chunk =
    (n off : ℕ)
    → (chunk n off ≤ min n (size - off))
      × (0 < min n (size - off) → 0 < chunk n off)
      × ((fd : Fd) (d : D) → dev.dev_read fd n off d ≡ ret (stretch (chunk n off) off content) d)

-- The descriptor is open for reading on a device: its page, its device, its mode and its offset.
abbrev pub Readable : {D : Type 0} → List (Dev D) → Dev D → ℕ → ℕ → ℕ → Process D → Type 0
Readable devtab dev fdnum p off s =
    (s.fd_page fdnum ≡ some p)
    × (dev_lookup devtab (s.fds p).fd_dev_id ≡ some dev)
    × ((bit_and (s.fds p).fd_omode 3 == 1) ≡ false)
    × ((s.fds p).fd_offset ≡ off)

module _ {D : Type 0} (devtab : List (Dev D)) (dev : Dev D) (content : ℕ → ℕ) (size : ℕ)
    (chunk : ℕ → ℕ → ℕ) (fdnum p : ℕ) where
  read_there :
      (n : ℕ) (s : Process D)
      → Holds dev content size chunk
      → fdnum < 32
      → Readable devtab dev fdnum p (s.fds p).fd_offset s
      → read devtab fdnum n s
        ≡ ret
            (stretch (chunk n (s.fds p).fd_offset) (s.fds p).fd_offset content)
            (advance devtab p (chunk n (s.fds p).fd_offset) s)
  unfolding read fd_lookup
  read_there n s holds lt (page, device, mode, at) =
      let open_one : leb 32 fdnum ≡ false = ground arith in
      let off = (s.fds p).fd_offset in
      rw (open_one, page, device, mode, (holds n off).2 (s.fds p) s.devices)
        (ap (λ (k : ℕ). ret (stretch (chunk n off) off content) (advance devtab p k s))
          (length-stretch (chunk n off) off content))

  read_chunk :
      (n off : ℕ) (s : Process D)
      → Holds dev content size chunk
      → fdnum < 32
      → Readable devtab dev fdnum p off s
      → read devtab fdnum n s
        ≡ ret (stretch (chunk n off) off content) (advance devtab p (chunk n off) s)
  read_chunk n off s holds lt (page, device, mode, at) =
      subst
        (λ (o : ℕ).
          read devtab fdnum n s
          ≡ ret (stretch (chunk n o) o content) (advance devtab p (chunk n o) s))
        at (read_there n s holds lt (page, device, mode, refl))

  -- Only the offset of the open file has moved.
  abbrev pub Moved : Process D → ℕ → Process D → Type 0
  Moved s off t =
      Readable devtab dev fdnum p off t
      × (t.fd_page ≡ s.fd_page)
      × (t.devices ≡ s.devices)
      × ((q : ℕ) → (q == p) ≡ false → t.fds q ≡ s.fds q)

  advance-Moved :
      (off k : ℕ) (s : Process D)
      → off + k < 2 ^ 32
      → Readable devtab dev fdnum p off s
      → Moved s (off + k) (advance devtab p k s)
  advance-Moved off k s fits (page, device, mode, at) =
      let e : (p == p) ≡ true = ==_refl p in
      let sum : ((s.fds p).fd_offset + k) % 2 ^ 32 ≡ off + k = omega (arith, at) in
      ((page, rw e device, rw e mode, rw e sum), refl, refl, λ q ne. rw ne refl)

  Moved-trans : (s t u : Process D) (o o' : ℕ) → Moved s o t → Moved t o' u → Moved s o' u
  Moved-trans s t u o o' (_, page, dev', keep) (r, page', dev'', keep') =
      (r, page' ∙ page, dev'' ∙ dev', λ q ne. keep' q ne ∙ keep q ne)

  -- the round that follows one of `k` bytes
  or_enough-some :
      (bytes : List ℕ) (more : Process D → Run (Process D) (List ℕ)) (s : Process D)
      → 0 < length bytes
      → or_enough devtab bytes more s ≡ and_then (more s) (λ rest. ret (bytes ++ rest))
  or_enough-some [] more s h = absurd (omega arith)
  or_enough-some (b ∷ bytes) more s h = refl

  Moved-refl : (off : ℕ) (s : Process D) → Readable devtab dev fdnum p off s → Moved s off s
  Moved-refl off s open_file = (open_file, refl, refl, λ q ne. refl)

  no_round : (r : ℕ) (s : Process D) → readn_rounds devtab r fdnum 0 s ≡ ret [] s
  unfolding readn_rounds
  no_round zero s = refl
  no_round (suc r) s = refl

  one_round :
      (r n : ℕ) (bytes : List ℕ) (s t : Process D)
      → 0 < n
      → read devtab fdnum n s ≡ ret bytes t
      → readn_rounds devtab (suc r) fdnum n s
        ≡ or_enough devtab bytes (readn_rounds devtab r fdnum (n - length bytes)) t
  unfolding readn_rounds
  one_round r n bytes s t pos e = let more : (n == 0) ≡ false = ground arith in rw (more, e) refl

  -- the bytes of a round and of those after it
  Result : ℕ → ℕ → Process D → Run (Process D) (List ℕ) → Type 0
  Result n off s run =
      (t : Process D) × (run ≡ ret (stretch (min n (size - off)) off content) t)
      × Moved s (off + min n (size - off)) t

  at_end : (n off : ℕ) → Holds dev content size chunk → chunk n off ≡ 0 → min n (size - off) ≡ 0
  at_end n off holds e = elim (Bool-cases (min n (size - off) == 0)) [
    | inl y ↦ ground arith
    | inr ne ↦
        let pos : 0 < min n (size - off) = ground arith in
        let some_bytes = (holds n off).1 pos in absurd (omega (arith, some_bytes, e))
  ]

  last_round :
      (r n off : ℕ) (s : Process D)
      → Holds dev content size chunk
      → fdnum < 32
      → off + n < 2 ^ 32
      → 0 < n
      → chunk n off ≡ 0
      → Readable devtab dev fdnum p off s
      → Result n off s (readn_rounds devtab (suc r) fdnum n s)
  unfolding Result stretch
  last_round r n off s holds lt fits pos none_left open_file =
      let finished : min n (size - off) ≡ 0 = at_end n off holds none_left in
      let got = read_chunk n off s holds lt open_file in
      let moved = advance-Moved off 0 s (omega arith) open_file in
      (
        advance devtab p 0 s,
        one_round r n [] s (advance devtab p 0 s) pos (
              subst
                (λ (k : ℕ).
                  read devtab fdnum n s ≡ ret (stretch k off content) (advance devtab p k s))
                none_left got)
            ∙ ap (λ (k : ℕ). ret (stretch k off content) (advance devtab p 0 s)) (sym finished),
        subst (λ (k : ℕ). Moved s (off + k) (advance devtab p 0 s)) (sym finished) moved,
      )

  later_round :
      (r n off k : ℕ) (s : Process D)
      → 0 < n
      → 0 < k
      → k ≤ min n (size - off)
      → read devtab fdnum n s ≡ ret (stretch k off content) (advance devtab p k s)
      → Moved s (off + k) (advance devtab p k s)
      → Result
          (n - k)
          (off + k)
          (advance devtab p k s)
          (readn_rounds devtab r fdnum (n - k) (advance devtab p k s))
      → Result n off s (readn_rounds devtab (suc r) fdnum n s)
  unfolding Result
  later_round r n off k s pos some_bytes le got moved (t, run, moved') =
      let s' = advance devtab p k s in
      let k' = min (n - k) (size - (off + k)) in
      let l : length (stretch k off content) ≡ k = length-stretch k off content in
      let total : k + k' ≡ min n (size - off) = omega arith in
      let place : off + k + k' ≡ off + (k + k') = omega arith in
      (
        t,
        one_round r n (stretch k off content) s s' pos got
            ∙ or_enough-some (stretch k off content)
                (readn_rounds devtab r fdnum (n - length (stretch k off content))) s'
                (omega (arith, l))
            ∙ ap
                (λ (m : ℕ).
                  and_then (readn_rounds devtab r fdnum (n - m) s')
                    (λ rest. ret (stretch k off content ++ rest)))
                l
            ∙ rw run (ap (λ (b : List ℕ). ret b t) (sym (read-append k k' off content)))
            ∙ ap (λ (m : ℕ). ret (stretch m off content) t) total,
        subst (λ (o : ℕ). Moved s o t) (place ∙ ap (λ (m : ℕ). off + m) total)
            (Moved-trans s s' t (off + k) (off + k + k') moved moved'),
      )

  readn_rounds-Result :
      (r n off : ℕ) (s : Process D)
      → Holds dev content size chunk
      → fdnum < 32
      → off + n < 2 ^ 32
      → n ≤ r
      → Readable devtab dev fdnum p off s
      → Result n off s (readn_rounds devtab r fdnum n s)
  unfolding Result stretch
  readn_rounds-Result r zero off s holds lt fits enough open_file =
      let finished : min 0 (size - off) ≡ 0 = omega arith in
      let place : off + 0 ≡ off = omega arith in
      (
        s,
        no_round r s ∙ ap (λ (k : ℕ). ret (stretch k off content) s) (sym finished),
        subst (λ (o : ℕ). Moved s o s) (sym place ∙ ap (λ (k : ℕ). off + k) (sym finished))
            (Moved-refl off s open_file),
      )
  readn_rounds-Result zero (suc n) off s holds lt fits enough open_file = absurd (omega arith)
  readn_rounds-Result (suc r) (suc n) off s holds lt fits enough open_file =
      elim (Bool-cases (chunk (suc n) off == 0)) [
        | inl y ↦ last_round r (suc n) off s holds lt fits (omega arith) (ground arith) open_file
        | inr ne ↦
            let k = chunk (suc n) off in
            let le : k ≤ min (suc n) (size - off) = (holds (suc n) off).0 in
            let pos : 0 < k = ground arith in
            let moved = advance-Moved off k s (omega arith) open_file in
            later_round r (suc n) off k s (omega arith) pos le
              (read_chunk (suc n) off s holds lt open_file) moved
              (readn_rounds-Result r (suc n - k) (off + k) (advance devtab p k s) holds lt
                (omega arith) (omega arith) moved.0)
      ]

  -- On a descriptor that is open for reading on a device that holds `size` bytes, and gives as many
  -- of those at the offset as it likes, but at least one unless none are asked for or left: readn
  -- comes to an end, gives all bytes from the offset on, up to `n` or to the end, and moves the
  -- offset of the open file behind them; nothing else changes. The offset and `n` stay below
  -- 2 ^ 32 together.
  pub readn-Result :
      (n off : ℕ) (s : Process D)
      → Holds dev content size chunk
      → fdnum < 32
      → off + n < 2 ^ 32
      → Readable devtab dev fdnum p off s
      → (t : Process D) × (readn devtab fdnum n s
          ≡ ret (stretch (min n (size - off)) off content) t)
        × Moved s (off + min n (size - off)) t
  unfolding readn Result
  readn-Result n off s holds lt fits open_file =
      readn_rounds-Result n n off s holds lt fits (omega arith) open_file
