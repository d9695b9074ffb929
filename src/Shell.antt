-- ===== src/Shell.antt =====
-- The tokenizer of the shell, _gettoken and gettoken of user/sh.c. The command line is a string in
-- memory, and addresses stand for pointers into it, with 0 for NULL. The loops end without a result
-- after a given number of rounds.
pub mod Loops
pub mod Tokens
mod Examples
use buaa_os_challenge.Base.{
  ℕ, zero, suc, ◌+◌, Bool, true, false, not, ◌&&◌, ◌||◌, Option, none, some, update, ◌==◌,
  if◌then◌else◌,
}

-- `strchr(WHITESPACE, c)` and `strchr(SYMBOLS, c)`, as tests
abbrev pub is_space : ℕ → Bool
is_space c = c == b' ' || c == 9 || c == 13 || c == 10

abbrev pub is_symbol : ℕ → Bool
is_symbol c =
    c == b'<' || c == b'|' || c == b'>' || c == b'&' || c == b';' || c == b'(' || c == b')'

-- what _gettoken returns and sets
pub record Token : Type 0 where
  pub kind : ℕ
  pub p1 : ℕ
  pub p2 : ℕ

-- `while (strchr(WHITESPACE, *s)) *s++ = 0;`
unfoldable pub skip_space : ℕ → ℕ → (ℕ → ℕ) → Option (ℕ × (ℕ → ℕ))
skip_space zero s m = none
skip_space (suc r) s m =
    let rest = skip_space r (s + 1) (update m s 0) in if is_space (m s) then rest else some (s, m)

-- `do { s++; } while (*s && *s != q);`
unfoldable pub find_quote : ℕ → ℕ → ℕ → (ℕ → ℕ) → Option ℕ
find_quote zero q s m = none
find_quote (suc r) q s m =
    let rest = find_quote r q (s + 1) m in
    if m (s + 1) == 0 || m (s + 1) == q then some (s + 1) else rest

-- `while (*s && !strchr(WHITESPACE SYMBOLS, *s)) s++;`
unfoldable pub word_end : ℕ → ℕ → (ℕ → ℕ) → Option ℕ
word_end zero s m = none
word_end (suc r) s m =
    let rest = word_end r (s + 1) m in
    if m s == 0 || is_space (m s) || is_symbol (m s) then some s else rest

-- a token in quotes, from the quote on
abbrev pub quoted : ℕ → (ℕ → ℕ) → Option ℕ → Option (Token × (ℕ → ℕ))
quoted s m none = none
quoted s m (some e) = some (record { kind = b'w'; p1 = s; p2 = e + 1 }, update m e 0)

-- `>>`, `||` and `&&`
abbrev pub doubled : ℕ → ℕ → (ℕ → ℕ) → Option (Token × (ℕ → ℕ))
doubled kind s m =
    some (record { kind = kind; p1 = s; p2 = s + 1 + 1 }, update (update m s 0) (s + 1) 0)

abbrev pub plain_word : ℕ → (ℕ → ℕ) → Option ℕ → Option (Token × (ℕ → ℕ))
plain_word s m none = none
plain_word s m (some e) = some (record { kind = b'w'; p1 = s; p2 = e }, m)

-- _gettoken behind the white space
abbrev pub token_at : ℕ → ℕ → (ℕ → ℕ) → Option (Token × (ℕ → ℕ))
token_at r s m =
    if m s == 0
    then some (record { kind = 0; p1 = 0; p2 = 0 }, m)
    else if m s == b'"'
    then quoted s m (find_quote r b'"' s m)
    else if m s == b'`'
    then quoted s m (find_quote r b'`' s m)
    else if m s == b'>' && m (s + 1) == b'>'
    then doubled b'a' s m
    else if m s == b'|' && m (s + 1) == b'|'
    then doubled b'O' s m
    else if m s == b'&' && m (s + 1) == b'&'
    then doubled b'A' s m
    else if is_symbol (m s)
    then some (record { kind = m s; p1 = s; p2 = s + 1 }, update m s 0)
    else plain_word s m (word_end r s m)

abbrev pub after_space : ℕ → Option (ℕ × (ℕ → ℕ)) → Option (Token × (ℕ → ℕ))
after_space r none = none
after_space r (some (s, m)) = token_at r s m

-- _gettoken
unfoldable pub next_token : ℕ → ℕ → (ℕ → ℕ) → Option (Token × (ℕ → ℕ))
unfolding skip_space find_quote word_end
next_token r s m =
    if s == 0
    then some (record { kind = 0; p1 = 0; p2 = 0 }, m)
    else after_space r (skip_space r s m)

-- the static variables of gettoken, with the memory
pub record Lexer : Type 0 where
  pub ahead : Token
  pub memory : ℕ → ℕ

-- gettoken: the start of a line, and the tokens after it
abbrev pub looked_ahead : Option (Token × (ℕ → ℕ)) → Option Lexer
looked_ahead none = none
looked_ahead (some (t, m)) = some (record { ahead = t; memory = m })

unfoldable pub start_tokens : ℕ → ℕ → (ℕ → ℕ) → Option Lexer
unfolding next_token
start_tokens r s m = looked_ahead (next_token r s m)

unfoldable pub get_token : ℕ → Lexer → ℕ × ℕ × Option Lexer
unfolding next_token
get_token r l = (l.ahead.kind, l.ahead.p1, looked_ahead (next_token r l.ahead.p2 l.memory))
