-- ===== src/Env/Ident.antt =====
-- The ids of environments: mkenvid and envid2env.
use buaa_os_challenge.Base.{
  ℕ, ◌+◌, ◌*◌, ◌/◌, ◌%◌, ◌^◌, ◌<◌, ◌≡◌, ◌≢◌, refl, ap, ◌∙◌, Bool, true, false, some, Option, arith,
  bit_or, ◌==◌, not, ◌||◌, Bool-cases, inl, inr, ◌⊎◌,
}
use buaa_os_challenge.Base.Bits.{bit_or_split, bit_or-zero, zero-bit_or}
use buaa_os_challenge.Base.Errors.{bad_env}
use buaa_os_challenge.Base.Monad.{Run, ret, fail}
use buaa_os_challenge.Env.State.{Kernel, env_of, env_free_status}
use buaa_os_challenge.Env.{mkenvid, envx, check_env, envid2env}

id_bits : (i e : ℕ) → i < 2 ^ 21 → e < 2 ^ 11 → bit_or (i * 2 ^ 11 % 2 ^ 32) e ≡ i * 2 ^ 11 + e
id_bits i e h he =
    let big : i * 2 ^ 11 % 2 ^ 32 ≡ i * 2048 + 0 = omega arith in
    let low : e ≡ 0 * 2048 + e = omega arith in
    let split = bit_or_split 11 i 0 0 e (omega arith) he in
    ap (λ (a : ℕ). bit_or a e) big
    ∙ ap (bit_or (i * 2048 + 0)) low
    ∙ split
    ∙ rw (bit_or-zero i, zero-bit_or e) (omega arith)

-- Before 2 ^ 21 ids are made, mkenvid numbers its calls: the call with `next_id` calls before it
-- returns an id that is not 0, whose low ten bits are the index of the environment, and whose bits
-- from 11 on are the number of the call. So no two calls return the same id.
pub mkenvid_lem :
    (k : Kernel) (e : ℕ)
    → e < 1024
    → k.next_id + 1 < 2 ^ 21
    → (id : ℕ) × (mkenvid e k ≡ ret id (record k { next_id = k.next_id + 1 }))
      × (envx id ≡ e)
      × (id / 2 ^ 11 ≡ k.next_id + 1)
      × (0 < id)
unfolding mkenvid
mkenvid_lem k e he h =
    let i : (k.next_id + 1) % 2 ^ 32 ≡ k.next_id + 1 = omega arith in
    (
      (k.next_id + 1) * 2 ^ 11 + e,
      rw (i, id_bits (k.next_id + 1) e h (omega arith)),
      omega arith,
      omega arith,
      omega arith,
    )

-- The environment may be used by the caller `c`: it is `c` itself or a child of it.
abbrev pub Permits : Kernel → ℕ → ℕ → Type 0
Permits k c e = ((env_of k e).id ≡ (env_of k c).id) ⊎ ((env_of k e).parent_id ≡ (env_of k c).id)

-- The living environments have ids whose low ten bits are their places in `envs`, as mkenvid makes
-- them.
abbrev pub IsNumbered : Kernel → Type 0
IsNumbered k =
    (e : ℕ) → e < 1024 → (env_of k e).status ≢ env_free_status → (env_of k e).id % 1024 ≡ e

-- The id is that of the living environment.
pub record Names (k : Kernel) (envid e : ℕ) : Type 0 where
  pub small : e < 1024
  pub living : (env_of k e).status ≢ env_free_status
  pub same : (env_of k e).id ≡ envid

-- An environment with the id stands where envid2env looks.
index : (k : Kernel) (envid e : ℕ) → IsNumbered k → Names k envid e → e ≡ envx envid
index k envid e is n = omega (arith, is e n.small n.living, n.same)

-- the outcome of envid2env for a caller `c`
abbrev pub Converted : Kernel → ℕ → ℕ → Bool → Run Kernel (Option ℕ) → Type 0
Converted k c envid check r =
    ((e : ℕ) × (r ≡ ret (some e) k) × Names k envid e × (check ≡ true → Permits k c e))
    ⊎ ((r ≡ fail bad_env k) × ((e : ℕ) → Names k envid e → (check ≡ true) × ¬ Permits k c e))

-- The first test of `check_env` failed: no environment has the id.
check_env-nobody :
    (k : Kernel) (c envid : ℕ) (check : Bool)
    → IsNumbered k
    → ((env_of k (envx envid)).status == env_free_status
        || not ((env_of k (envx envid)).id == envid))
      ≡ true
    → Converted k c envid check (check_env envid check (envx envid) k)
unfolding check_env
check_env-nobody k c envid check is bad =
    inr (rw bad, λ e n. absurd (nobody e (index k envid e is n) n.living n.same))
  where
    nobody :
        (e : ℕ)
        → e ≡ envx envid
        → (env_of k e).status ≢ env_free_status
        → (env_of k e).id ≡ envid
        → ⊥
    nobody e i living same = ground arith

check_env-living :
    (k : Kernel) (c envid : ℕ) (check : Bool)
    → IsNumbered k
    → k.curenv ≡ some c
    → ((env_of k (envx envid)).status == env_free_status
        || not ((env_of k (envx envid)).id == envid))
      ≡ false
    → Converted k c envid check (check_env envid check (envx envid) k)
unfolding check_env
check_env-living k c envid false is cur good = inl (envx envid, rw good, names, λ i. cc)
  where
    names : Names k envid (envx envid)
    names = record { small = omega arith; living = ground arith; same = ground arith }
check_env-living k c envid true is cur good =
    let e = envx envid in
    elim (Bool-cases ((env_of k e).id == (env_of k c).id)) [
      | inl self ↦ inl (e, rw (good, cur, self), names, λ _. inl (ground arith))
      | inr other ↦ elim (Bool-cases ((env_of k e).parent_id == (env_of k c).id)) [
        | inl child ↦ inl (e, rw (good, cur, other, child), names, λ _. inr (ground arith))
        | inr stranger ↦ inr (
          rw (good, cur, other, stranger),
          λ e' n. (refl, strange other stranger e' (index k envid e' is n)),
        )
      ]
    ]
  where
    names : Names k envid (envx envid)
    names = record { small = omega arith; living = ground arith; same = ground arith }

    strange :
        ((env_of k (envx envid)).id == (env_of k c).id) ≡ false
        → ((env_of k (envx envid)).parent_id == (env_of k c).id) ≡ false
        → (e' : ℕ) → e' ≡ envx envid
        → ¬ Permits k c e'
    strange o p e' i = λ q. ground arith

-- Where the low ten bits of the id of each living environment are its place in `envs`, and for an
-- id other than 0, envid2env never changes the kernel. What it returns is one of the 1024
-- environments, which is alive, has this id, and may be used by the caller if the check is asked
-- for; and it fails with E_BAD_ENV only where none of the 1024 is such an environment.
pub envid2env_lem :
    (k : Kernel) (c envid : ℕ) (check : Bool)
    → IsNumbered k
    → k.curenv ≡ some c
    → envid ≢ 0
    → Converted k c envid check (envid2env envid check k)
unfolding envid2env
envid2env_lem k c envid check is cur ne =
    let nz : (envid == 0) ≡ false = ground arith in
    rw nz
      (elim (Bool-cases (
        (env_of k (envx envid)).status == env_free_status
        || not ((env_of k (envx envid)).id == envid))) [
          | inl bad ↦ check_env-nobody k c envid check is bad
          | inr good ↦ check_env-living k c envid check is cur good
        ])
