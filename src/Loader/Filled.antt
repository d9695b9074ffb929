-- ===== src/Loader/Filled.antt =====
-- Address spaces whose pages elf_load_seg has filled up to an offset in the segment.
use Prim.Native.Nat.{min}
use buaa_os_challenge.Base.{
  ℕ, ◌+◌, ◌-◌, ◌/◌, ◌%◌, ◌<◌, ◌≤◌, ◌≡◌, ◌⊎◌, refl, ap, ◌∙◌, ◌&&◌, Option, none, some, ltb, leb,
  ◌==◌, if◌then◌else◌, update, arith, Bool-cases, inl, inr,
}
use buaa_os_challenge.Base.Monad.{ret}
use buaa_os_challenge.Loader.{Mapper}

-- An address space: the permission with which each page is mapped, if it is, and the bytes.
pub record Space : Type 0 where
  pub mapped : ℕ → Option ℕ
  pub byte : ℕ → ℕ

-- a byte of a new page
abbrev pub page_byte : (ℕ → ℕ) → ℕ → Option ℕ → ℕ → ℕ → ℕ
page_byte image offset none len o = 0
page_byte image offset (some p) len o =
    if leb offset o && ltb o (offset + len) then image (p + (o - offset)) else 0

abbrev pub with_page : ℕ → ℕ → (ℕ → ℕ) → Space → Space
with_page va perm bytes s = record {
  mapped = update s.mapped (va / 4096) (some perm);
  byte = λ a. if a / 4096 == va / 4096 then bytes (a % 4096) else s.byte a;
}

-- A mapper that maps a page of zeros with the permission, with the bytes copied into it, over what
-- was there.
abbrev pub map_new : (ℕ → ℕ) → Mapper Space
map_new image va offset perm src len s =
    ret tt (with_page va perm (page_byte image offset src len) s)

-- What a byte of the segment should be.
abbrev pub segment_byte : (ℕ → ℕ) → ℕ → ℕ → ℕ
segment_byte image size k = if ltb k size then image k else 0

-- The space is that from before with the bytes between two addresses set and their pages mapped
-- with the permission.
abbrev pub Filled : (ℕ → ℕ) → ℕ → ℕ → ℕ → ℕ → ℕ → Space → Space → Type 0
Filled image va size perm lo hi s t =
    (a : ℕ)
    → (t.byte a ≡ (
        if leb (va + lo) a && ltb a (va + hi) then segment_byte image size (a - va) else s.byte a))
      × (t.mapped (a / 4096)
          ≡ (if leb (va + lo) a && ltb a (va + hi) then some perm else s.mapped (a / 4096)))

pub Filled-trans :
    (image : ℕ → ℕ) (va size perm i j k : ℕ) (s t u : Space)
    → i ≤ j
    → j ≤ k
    → Filled image va size perm i j s t
    → Filled image va size perm j k t u
    → Filled image va size perm i k s u
Filled-trans image va size perm i j k s t u h1 h2 f g a =
    (ground (arith, f a, g a), ground (arith, f a, g a))

same_page : (b a : ℕ) → b % 4096 ≡ 0 → (a / 4096 == b / 4096) ≡ (leb b a && ltb a (b + 4096))
same_page b a al = ground arith

-- What a new page adds, for any way to fill it that is right on it.
pub page_Filled :
    (image : ℕ → ℕ) (va size perm i : ℕ) (bytes : ℕ → ℕ) (s : Space)
    → (va + i) % 4096 ≡ 0
    → ((o : ℕ) → o < 4096 → bytes o ≡ segment_byte image size (i + o))
    → Filled image va size perm i (i + 4096) s (with_page (va + i) perm bytes s)
page_Filled image va size perm i bytes s al right a =
    let assoc : va + (i + 4096) ≡ va + i + 4096 = omega arith in
    let page : (a / 4096 == (va + i) / 4096) ≡ (leb (va + i) a && ltb a (va + (i + 4096))) =
      rw assoc (same_page (va + i) a al) in
    elim (Bool-cases (leb (va + i) a && ltb a (va + (i + 4096)))) [
      | inr out ↦ rw (page, out) (refl, refl)
      | inl inside ↦
          let e : i + a % 4096 ≡ a - va = ground arith in
          rw (page, inside) (right (a % 4096) (omega arith) ∙ ap (segment_byte image size) e, refl)
    ]

-- One page in the middle of the segment.
pub image_page :
    (image : ℕ → ℕ) (size i o : ℕ)
    → i < size
    → o < 4096
    → page_byte image 0 (some i) (min (size - i) 4096) o ≡ segment_byte image size (i + o)
image_page image size i o lt lo =
    let test : (leb 0 o && ltb o (0 + min (size - i) 4096)) ≡ ltb (i + o) size = ground arith in
    let e : i + (o - 0) ≡ i + o = omega arith in rw (test, e)

Filled-refl : (image : ℕ → ℕ) (va size perm i : ℕ) (s : Space) → Filled image va size perm i i s s
Filled-refl image va size perm i s a = (ground arith, ground arith)

-- How a loop over pages ends: `j` is its counter then.
abbrev pub Ended : (ℕ → ℕ) → ℕ → ℕ → ℕ → ℕ → ℕ → Space → ℕ → Space → Type 0
Ended image va size perm i size' s j t =
    (i ≤ j)
    × (size' ≤ j)
    × (((va + j) % 4096 ≡ 0) ⊎ (j ≡ i))
    × ((j < size' + 4096) ⊎ (j ≡ i))
    × Filled image va size perm i j s t

pub Ended-at :
    (image : ℕ → ℕ) (va size perm i size' : ℕ) (s : Space)
    → size' ≤ i
    → Ended image va size perm i size' s i s
Ended-at image va size perm i size' s le =
    (omega arith, le, inr refl, inr refl, Filled-refl image va size perm i s)

pub Ended-later :
    (image : ℕ → ℕ) (va size perm i size' j : ℕ) (s t u : Space)
    → (va + i) % 4096 ≡ 0
    → i < size'
    → Filled image va size perm i (i + 4096) s t
    → Ended image va size perm (i + 4096) size' t j u
    → Ended image va size perm i size' s j u
Ended-later image va size perm i size' j s t u al lt page (l, done, al', near, rest) = (
  omega arith,
  done,
  ground arith,
  ground arith,
  Filled-trans image va size perm i (i + 4096) j s t u (omega arith) l page rest,
)
