-- ===== src/Bytes/Strings.antt =====
-- The loops over strings of lib/string.c: strlen, strcpy, strchr and strcmp. They run until they
-- meet a zero; here they also end without a result after a given number of rounds.
use buaa_os_challenge.Base.{
  ℕ, zero, suc, ◌+◌, ◌-◌, ◌^◌, not, ◌&&◌, Option, none, some, update, ◌==◌, ltb, if◌then◌else◌,
}
use buaa_os_challenge.Base.Int.{ℤ, pos, negsuc}

-- a char as an int or u_int: chars are signed
abbrev pub extend : ℕ → ℕ
extend b = if ltb b 128 then b else b + (2 ^ 32 - 256)

-- the loop of strlen from `s` on, behind `n` bytes
unfoldable pub strlen_from : ℕ → ℕ → ℕ → (ℕ → ℕ) → Option ℕ
strlen_from zero n s m = none
strlen_from (suc r) n s m =
    let more = strlen_from r (n + 1) (s + 1) m in if m s == 0 then some n else more

-- strlen
unfoldable pub strlen : ℕ → ℕ → (ℕ → ℕ) → Option ℕ
unfolding strlen_from
strlen r s m = strlen_from r 0 s m

-- strcpy: the memory afterwards
unfoldable pub strcpy : ℕ → ℕ → ℕ → (ℕ → ℕ) → Option (ℕ → ℕ)
strcpy zero dst src m = none
strcpy (suc r) dst src m =
    let m' = update m dst (m src) in
    let more = strcpy r (dst + 1) (src + 1) m' in if m src == 0 then some m' else more

-- strchr: the address of the byte, or NULL
unfoldable pub strchr : ℕ → ℕ → ℕ → (ℕ → ℕ) → Option (Option ℕ)
strchr zero s c m = none
strchr (suc r) s c m =
    let more = strchr r (s + 1) c m in
    if m s == 0 then some none else if extend (m s) == c then some (some s) else more

-- the comparison of the two bytes at which strcmp stops
abbrev pub compare_bytes : ℕ → ℕ → ℤ
compare_bytes a b =
    if ltb (extend a) (extend b)
    then negsuc 0
    else if ltb (extend b) (extend a)
    then pos 1
    else pos 0

-- strcmp, on the bytes from `p` and from `q` on
unfoldable pub strcmp : ℕ → (ℕ → ℕ) → ℕ → (ℕ → ℕ) → ℕ → Option ℤ
strcmp zero f p g q = none
strcmp (suc r) f p g q =
    let more = strcmp r f (p + 1) g (q + 1) in
    if not (f p == 0) && (f p == g q) then more else some (compare_bytes (f p) (g q))
