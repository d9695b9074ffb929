-- ===== src/Pipes/Examples.antt =====
-- A pipe with one byte in it.
use buaa_os_challenge.Base.{◌≡◌, refl, false, [], ◌∷◌, arith, update}
use buaa_os_challenge.Pipes.{pipe_write, gives, System, writes, new_pipe, Reachable, start, next}
use buaa_os_challenge.Pipes.Order.{InOrder, Reachable-InOrder}

abbrev one_byte : System
one_byte = record {
  pipe = record { rpos = 0; wpos = 1; buf = update (λ _. 0) 0 65 };
  taken = [];
  given = 65 ∷ [];
}

one_write : pipe_write false 1 0 65 new_pipe.pipe ≡ gives one_byte.pipe
unfolding pipe_write
one_write = refl

reached : Reachable one_byte
reached = next new_pipe one_byte start (writes new_pipe false 1 0 65 one_byte.pipe one_write)

Reachable-InOrder_example : InOrder one_byte
Reachable-InOrder_example = Reachable-InOrder one_byte reached (omega arith)
