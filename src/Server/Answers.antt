-- ===== src/Server/Answers.antt =====
-- Every request is answered exactly once.
use mathlib.Core.Path.{subst}
use buaa_os_challenge.Base.{
  ◌&&◌, ℕ, zero, suc, ◌+◌, ◌/◌, ◌≡◌, refl, ap, Bool, true, false, List, [], ◌∷◌, ◌++◌, Option, none,
  some, ◌==◌, leb, ltb, if◌then◌else◌, arith, Bool-cases, inl, inr,
}
use buaa_os_challenge.Base.Errors.{Error, inval}
use buaa_os_challenge.Base.Monad.{Run, ret, fail, panic, M, and_then, ◌>>=◌}
use buaa_os_challenge.Disk.{
  Disk, Place, file_get_block, file_set_size, file_close, file_dirty, fs_sync,
}
use buaa_os_challenge.Disk.Paths.{file_open, file_remove}
use buaa_os_challenge.Disk.Total.{NeverFails, file_set_size-NeverFails, fs_sync-NeverFails}
use buaa_os_challenge.Server.{
  Server, Sent, no_page, block_page, dereference, Answer, answer, Request, ipc_send, lift_disk,
  on_disk, or_send, alloc_filefd, take_entry, open_alloc_from, open_alloc, open_lookup, file_of,
  has_flag, create_if, mark_dir, set_file, truncated, truncate_if, fill_filefd, opened, serve_open,
  serve_map, serve_set_size, serve_close, serve_dirty, serve_remove, serve_sync, serve_table,
  serve_round,
}

-- A part of a handler that sends nothing: the answers are those of the list.
abbrev Keeps : {A : Type 0} → List Answer → Run Server A → Type 0
Keeps l (ret a s) = s.answers ≡ l
Keeps l (fail e s) = s.answers ≡ l
Keeps l panic = Unit

-- The request is answered once behind the answers of the list, unless the server panics.
abbrev pub AnsweredOnce : ℕ → List Answer → Run Server (Unit {0}) → Type 0
AnsweredOnce whom l (ret _ s) =
    (e : Option Error) × (page : Sent) × (s.answers ≡ l ++ (answer whom e page ∷ []))
AnsweredOnce whom l (fail e s) = ⊥
AnsweredOnce whom l panic = Unit

send-once :
    (whom : ℕ) (l : List Answer) (e : Option Error) (page : Sent) (s : Server)
    → s.answers ≡ l
    → AnsweredOnce whom l (ipc_send whom e page s)
send-once whom l e page s h = (e, page, ap (λ (m : List Answer). m ++ (answer whom e page ∷ [])) h)

or_send-once :
    {A : Type 0} (whom : ℕ) (l : List Answer) (r : Run Server A) (k : A → M Server (Unit {0}))
    → Keeps l r
    → ((a : A) (s : Server) → s.answers ≡ l → AnsweredOnce whom l (k a s))
    → AnsweredOnce whom l (or_send whom r k)
or_send-once whom l (ret a s) k h hk = hk a s h
or_send-once whom l (fail e s) k h hk = send-once whom l (some e) _ s h
or_send-once whom l panic k h hk = tt

lift-Keeps : {A : Type 0} (s : Server) (r : Run Disk A) → Keeps s.answers (lift_disk s r)
lift-Keeps s (ret a d) = refl
lift-Keeps s (fail e d) = refl
lift-Keeps s panic = tt

if-Keeps :
    {A : Type 0} (l : List Answer) (b : Bool) (r t : Run Server A)
    → Keeps l r
    → Keeps l t
    → Keeps l (if b then r else t)
if-Keeps l true r t h k = h
if-Keeps l false r t h k = k

take_new-Keeps :
    (i : ℕ) (s : Server) → Keeps s.answers (and_then (alloc_filefd i s) (λ _. take_entry i))
take_new-Keeps i s = elim (Bool-cases (s.disk.pages == 0)) [ inl y ↦ rw y refl | inr n ↦ rw n refl ]

open_alloc_from-Keeps : (n i : ℕ) (s : Server) → Keeps s.answers (open_alloc_from n i s)
unfolding open_alloc_from
open_alloc_from-Keeps zero i s = refl
open_alloc_from-Keeps (suc n) i s =
    if-Keeps s.answers (s.refs i == 0) (and_then (alloc_filefd i s) (λ _. take_entry i)) _
      (take_new-Keeps i s)
      (if-Keeps s.answers (s.refs i == 1) (take_entry i s) (open_alloc_from n (i + 1) s) refl
        (open_alloc_from-Keeps n (i + 1) s))

open_lookup-Keeps : (i : ℕ) (s : Server) → Keeps s.answers (open_lookup i s)
unfolding open_lookup
open_lookup-Keeps i s =
    if-Keeps s.answers (leb 1024 i) (fail inval s) _ refl
      (if-Keeps s.answers (leb (s.refs i) 1) (fail inval s) (ret i s) refl refl)

file-Keeps :
    {A : Type 0} (o : Option Place) (f : Place → M Disk A) (s : Server)
    → Keeps s.answers ((dereference o >>= λ p. on_disk (f p)) s)
file-Keeps none f s = tt
file-Keeps (some p) f s = lift-Keeps s (f p s.disk)

-- The requests on an open file: the entry, a call on its file, and the answer.
on_open_once :
    {A : Type 0} (whom i : ℕ) (f : Place → M Disk A) (page : A → Sent) (s : Server)
    → AnsweredOnce whom s.answers (
        or_send whom (open_lookup i s) (λ i s.
          or_send whom ((file_of i >>= λ p. on_disk (f p)) s) (λ a. ipc_send whom none (page a))))
on_open_once whom i f page s =
    or_send-once whom s.answers (open_lookup i s) _ (open_lookup-Keeps i s) (λ i t h.
      or_send-once whom s.answers ((file_of i >>= λ p. on_disk (f p)) t) _
        (subst (λ (l : List Answer). Keeps l ((file_of i >>= λ p. on_disk (f p)) t)) h
          (file-Keeps (t.opentab i).o_file f t))
        (λ a u h'. send-once whom s.answers none (page a) u h'))

-- A part that sends nothing and returns no error.
abbrev Quiet : {A : Type 0} → List Answer → Run Server A → Type 0
Quiet l (ret a s) = s.answers ≡ l
Quiet l (fail e s) = ⊥
Quiet l panic = Unit

and_then-once :
    {A : Type 0} (whom : ℕ) (l : List Answer) (r : Run Server A) (k : A → M Server (Unit {0}))
    → Quiet l r
    → ((a : A) (s : Server) → s.answers ≡ l → AnsweredOnce whom l (k a s))
    → AnsweredOnce whom l (and_then r k)
and_then-once whom l (ret a s) k h hk = hk a s h
and_then-once whom l (fail e s) k h hk = absurd h
and_then-once whom l panic k h hk = tt

lift-Quiet :
    {A : Type 0} (s : Server) (r : Run Disk A) → NeverFails r → Quiet s.answers (lift_disk s r)
lift-Quiet s (ret a d) h = refl
lift-Quiet s (fail e d) h = absurd h
lift-Quiet s panic h = tt

truncated-Quiet :
    (whom : ℕ) (l : List Answer) (r : Run Server (Unit {0}))
    → Quiet l r
    → Quiet l (truncated whom r)
truncated-Quiet whom l (ret _ s) h = h
truncated-Quiet whom l (fail e s) h = absurd h
truncated-Quiet whom l panic h = tt

truncate_if-Quiet :
    (whom mode : ℕ) (f : Place) (s : Server) → Quiet s.answers (truncate_if whom mode f s)
truncate_if-Quiet whom mode f s = elim (Bool-cases (has_flag mode 0x200)) [
  | inr n ↦ rw n refl
  | inl y ↦ rw y (
      truncated-Quiet whom s.answers (on_disk (file_set_size f 0) s)
        (lift-Quiet s (file_set_size f 0 s.disk) (file_set_size-NeverFails f 0 s.disk)))
]

opened-once :
    (whom mode i : ℕ) (f : Place) (s : Server)
    → AnsweredOnce whom s.answers (opened whom mode i f s)
unfolding opened
opened-once whom mode i f s =
    let t = set_file i f (record s { disk = mark_dir mode f s.disk }) in
    and_then-once whom s.answers (truncate_if whom mode f t) _ (truncate_if-Quiet whom mode f t)
      (λ _ u h. send-once whom s.answers none _ (fill_filefd i mode f u) h)

kept :
    {A : Type 0} (l : List Answer) (t : Server) (r : Run Disk A)
    → t.answers ≡ l
    → Keeps l (lift_disk t r)
kept l t r h = subst (λ (m : List Answer). Keeps m (lift_disk t r)) h (lift-Keeps t r)

serve_open-once :
    (whom : ℕ) (path : List ℕ) (mode : ℕ) (s : Server)
    → AnsweredOnce whom s.answers (serve_open whom path mode s)
unfolding serve_open open_alloc
serve_open-once whom path mode s =
    let l = s.answers in
    or_send-once whom l (open_alloc s) _ (open_alloc_from-Keeps 1024 0 s) (λ i t h.
      or_send-once whom l (on_disk (create_if (has_flag mode 0x800) path) t) _
        (kept l t (create_if (has_flag mode 0x800) path t.disk) h)
        (λ _ u h'.
          or_send-once whom l (on_disk (create_if (has_flag mode 0x100) path) u) _
            (kept l u (create_if (has_flag mode 0x100) path u.disk) h')
            (λ _ v h''.
              or_send-once whom l (on_disk (file_open path) v) _
                (kept l v (file_open path v.disk) h'')
                (λ f w h3.
                  subst (λ (m : List Answer). AnsweredOnce whom m (opened whom mode i f w)) h3
                    (opened-once whom mode i f w)))))

table_once :
    (req whom : ℕ) (rq : Request) (s : Server)
    → AnsweredOnce whom s.answers (serve_table req whom rq s)
unfolding serve_table serve_map serve_set_size serve_close serve_dirty serve_remove serve_sync
table_once zero whom rq s = serve_open-once whom rq.req_path rq.req_omode s
table_once (suc zero) whom rq s =
    on_open_once whom rq.req_fileid (λ f. file_get_block f (rq.req_value / 4096)) block_page s
table_once (suc (suc zero)) whom rq s =
    on_open_once whom rq.req_fileid (λ f. file_set_size f rq.req_value) (λ _. no_page) s
table_once (suc (suc (suc zero))) whom rq s =
    on_open_once whom rq.req_fileid file_close (λ _. no_page) s
table_once (suc (suc (suc (suc zero)))) whom rq s =
    on_open_once whom rq.req_fileid (λ f. file_dirty f rq.req_value) (λ _. no_page) s
table_once (suc (suc (suc (suc (suc zero))))) whom rq s =
    or_send-once whom s.answers (on_disk (file_remove rq.req_path) s) _
      (lift-Keeps s (file_remove rq.req_path s.disk))
      (λ a u h'. send-once whom s.answers none no_page u h')
table_once (suc (suc (suc (suc (suc (suc n)))))) whom rq s =
    and_then-once whom s.answers (on_disk fs_sync s) _
      (lift-Quiet s (fs_sync s.disk) (fs_sync-NeverFails s.disk))
      (λ a u h'. send-once whom s.answers none no_page u h')

-- Each request with a page and a valid number is answered exactly once, to the one that sent it,
-- behind all answers from before, unless the server panics; the others are not answered.
pub serve_round-AnsweredOnce :
    (req whom : ℕ) (page : Bool) (rq : Request) (s : Server)
    → if page && ltb req 7
      then AnsweredOnce whom s.answers (serve_round req page whom rq s)
      else (serve_round req page whom rq s ≡ ret tt s)
unfolding serve_round
serve_round-AnsweredOnce req whom false rq s = refl
serve_round-AnsweredOnce req whom true rq s = elim (Bool-cases (ltb req 7)) [
  | inr n ↦ let n' : leb 7 req ≡ true = ground arith in rw (n, n') refl
  | inl y ↦ let n' : leb 7 req ≡ false = ground arith in rw (y, n') (table_once req whom rq s)
]
