-- ===== src/Pipes.antt =====
-- Pipes between processes: user/lib/pipe.c. A pipe is a page that its readers and writers share. One
-- pass through the loops of pipe_read and pipe_write is a step, taken by any of the processes; that
-- a process is interrupted within a pass is outside the model. `_pipe_is_closed` compares counts of
-- references that the kernel keeps; its answer is an argument.
pub mod Order
mod Examples
use buaa_os_challenge.Base.{
  ℕ, ◌+◌, ◌-◌, ◌%◌, ◌^◌, ◌≡◌, Bool, true, false, ◌||◌, List, [], ◌∷◌, ◌++◌, update, ltb, leb,
  if◌then◌else◌,
}

-- struct Pipe
pub record Pipe : Type 0 where
  pub rpos : ℕ
  pub wpos : ℕ
  pub buf : ℕ → ℕ

-- What a pass of pipe_read does: return a count, give up the processor, or take a byte.
pub data ReadPass : Type 0 where
  read_returns : ℕ → ReadPass
  read_yields : ReadPass
  takes : ℕ → Pipe → ReadPass

-- A pass of pipe_read for `n` bytes with `i` of them read.
unfoldable pub pipe_read : Bool → ℕ → ℕ → Pipe → ReadPass
pipe_read closed n i p =
    if leb n i
    then read_returns n
    else if leb p.wpos p.rpos
    then (if ltb 0 i || closed then read_returns i else read_yields)
    else takes (p.buf (p.rpos % 32)) (record p { rpos = (p.rpos + 1) % 2 ^ 32 })

-- What a pass of pipe_write does.
pub data WritePass : Type 0 where
  write_returns : ℕ → WritePass
  write_yields : WritePass
  gives : Pipe → WritePass

-- A pass of pipe_write for `n` bytes with `i` of them written, the next of which is `b`.
unfoldable pub pipe_write : Bool → ℕ → ℕ → ℕ → Pipe → WritePass
pipe_write closed n i b p =
    if leb n i
    then write_returns n
    else if leb 32 ((p.wpos + 2 ^ 32 - p.rpos) % 2 ^ 32)
    then (if closed then write_returns i else write_yields)
    else gives (record p { buf = update p.buf (p.wpos % 32) b; wpos = (p.wpos + 1) % 2 ^ 32 })

-- A pipe with the bytes that its readers took and its writers gave so far, in order.
pub record System : Type 0 where
  pub pipe : Pipe
  pub taken : List ℕ
  pub given : List ℕ

-- The passes that move a byte.
pub data Step : System → System → Type 0 where
  reads :
      (s : System) (closed : Bool) (n i b : ℕ) (p : Pipe)
      → pipe_read closed n i s.pipe ≡ takes b p
      → Step s (record { pipe = p; taken = s.taken ++ (b ∷ []); given = s.given })
  writes :
      (s : System) (closed : Bool) (n i b : ℕ) (p : Pipe)
      → pipe_write closed n i b s.pipe ≡ gives p
      → Step s (record { pipe = p; taken = s.taken; given = s.given ++ (b ∷ []) })

-- a new page, all zero
abbrev pub new_pipe : System
new_pipe = record { pipe = record { rpos = 0; wpos = 0; buf = λ _. 0 }; taken = []; given = [] }

pub data Reachable : System → Type 0 where
  start : Reachable new_pipe
  next : (s t : System) → Reachable s → Step s t → Reachable t
