-- ===== src/Text/Examples.antt =====
-- vprintfmt on a format with several conversions, and the properties of Text at concrete inputs.
use Prim.Native.String.{String}
use Prim.Native.Char.{code}
use native.Mathlib.Decide.{dec_lt}
use buaa_os_challenge.Base.{
  ℕ, List, [], ◌∷◌, ◌≡◌, ◌≢◌, refl, ◌^◌, ◌+◌, ◌-◌, ◌≤◌, true, false, length, arith,
}
use buaa_os_challenge.Bytes.{fill_bytes}
use buaa_os_challenge.Text.{
  Bytes, print_num, finish, add_padding, turn, read, print_char, print_str, put_digits, lt_wf,
}
use buaa_os_challenge.Text.Format.{
  vprintfmt, vprintfmt_rounds, directive, done, unfinished, word, string,
}
use buaa_os_challenge.Text.Bounds.{print_num-length}
use buaa_os_challenge.Text.Scan.{vprintfmt-rounds}

abbrev codes : String → Bytes
codes String.[] = []
codes (String.◌∷◌ c s) = code c ∷ codes s

mixed :
    vprintfmt
      (λ _. 7)
      (codes "a%05d|%-4x|%s %c%%!")
      (word (2 ^ 32 - 12) ∷ word 255 ∷ string (codes "hi") ∷ word 65 ∷ [])
    ≡ done (codes "a-0012|ff  |hi A%!")
unfolding vprintfmt vprintfmt_rounds directive print_num finish add_padding turn read print_char
    print_str put_digits lt_wf dec_lt fill_bytes
mixed = refl

abbrev buffer : ℕ → ℕ
buffer _ = 7

print_num-length_example :
    ((put_digits 10 (omega arith) 1234 (lt_wf.apply 1234) false 0 buffer).1 ≤ 32)
    × (8 ≤ length (print_num 1234 10 (omega arith) true 8 true b' ' false buffer))
    × (length (print_num 1234 10 (omega arith) true 8 true b' ' false buffer) ≤ 8 + 33)
print_num-length_example =
    print_num-length 1234 10 (omega arith) true 8 true b' ' false buffer (omega arith)

vprintfmt-rounds_example :
    (vprintfmt buffer (codes "%d%") (word 5 ∷ []) ≢ unfinished)
    × (vprintfmt_rounds buffer 9 (codes "%d%") (word 5 ∷ [])
        ≡ vprintfmt buffer (codes "%d%") (word 5 ∷ []))
vprintfmt-rounds_example = vprintfmt-rounds buffer (codes "%d%") (word 5 ∷ []) 9 (omega arith)
