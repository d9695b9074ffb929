-- ===== src/Server.antt =====
-- The file system server, fs/serv.c: the table of open files and the handlers of requests. The
-- files are the model of fs/fs.c. Of the pages for Filefd structures the model keeps how many
-- mappings pageref counts (`refs`) and what stands in them; a client that gets such a page maps
-- it, which adds one, and takes one away when it unmaps it. ipc_send appends to the answers: it
-- repeats the system call until the client receives, and asserts that it succeeds.
pub mod Table
pub mod Answers
pub mod Opening
mod Examples
use Prim.Native.Nat.{bit_and}
use buaa_os_challenge.Base.{
  ℕ, zero, suc, ◌+◌, ◌-◌, ◌/◌, Bool, true, false, not, ◌&&◌, ◌||◌, List, [], ◌∷◌, ◌++◌, Option,
  none, some, update, ltb, leb, ◌==◌, if◌then◌else◌,
}
use buaa_os_challenge.Base.Errors.{Error, inval, no_mem, max_open, file_exists}
use buaa_os_challenge.Base.Monad.{
  Run, ret, fail, panic, M, pure, throw, stop, get, gets, modify, throw_if, and_then, ◌>>=◌, ◌>>◌,
}
use buaa_os_challenge.Disk.{
  Disk, Place, peek, poke, at, f_size, file_get_block, file_set_size, file_close, file_dirty,
  fs_sync,
}
use buaa_os_challenge.Disk.Directory.{f_type}
use buaa_os_challenge.Disk.Paths.{file_open, file_create, file_remove}

-- struct Filefd, with the words of its copy of the file
pub record Filefd : Type 0 where
  pub fd_dev_id : ℕ
  pub fd_offset : ℕ
  pub fd_omode : ℕ
  pub f_fileid : ℕ
  pub f_file : ℕ → ℕ

abbrev pub empty_filefd : Filefd
empty_filefd = record { fd_dev_id = 0; fd_offset = 0; fd_omode = 0; f_fileid = 0; f_file = λ _. 0 }

-- struct Open: its o_fileid is the index, its o_ff the page of `filefd`
pub record Open : Type 0 where
  pub o_file : Option Place
  pub o_mode : ℕ

-- the page that goes with an answer
pub data Sent : Type 0 where
  no_page : Sent
  filefd_page : ℕ → Sent
  block_page : ℕ → Sent

pub data Answer : Type 0 where
  answer : ℕ → Option Error → Sent → Answer

pub record Server : Type 0 where
  pub disk : Disk
  pub opentab : ℕ → Open
  pub refs : ℕ → ℕ
  pub filefd : ℕ → Filefd
  pub answers : List Answer

-- ipc_send
abbrev pub ipc_send : ℕ → Option Error → Sent → M Server (Unit {0})
ipc_send whom e page s = ret tt (record s { answers = s.answers ++ (answer whom e page ∷ []) })

-- functions of fs/fs.c
abbrev pub lift_disk : {A : Type 0} → Server → Run Disk A → Run Server A
lift_disk s (ret a d) = ret a (record s { disk = d })
lift_disk s (fail e d) = fail e (record s { disk = d })
lift_disk s panic = panic

abbrev pub on_disk : {A : Type 0} → M Disk A → M Server A
on_disk f s = lift_disk s (f s.disk)

-- `if ((r = ...) < 0) { ipc_send(envid, r, 0, 0); return; }`
abbrev pub or_send :
    {A : Type 0} → ℕ → Run Server A → (A → M Server (Unit {0})) → Run Server (Unit {0})
or_send whom (ret a s) k = k a s
or_send whom (fail e s) k = ipc_send whom (some e) no_page s
or_send whom panic k = panic

-- syscall_mem_alloc of the page of an entry
abbrev pub alloc_filefd : ℕ → M Server (Unit {0})
alloc_filefd i s =
    if s.disk.pages == 0
    then fail no_mem s
    else ret tt
        (record s { disk = record s.disk { pages = s.disk.pages - 1 }; refs = update s.refs i 1 })

-- `memset((void *)opentab[i].o_ff, 0, BLOCK_SIZE)` and the index
abbrev pub take_entry : ℕ → M Server ℕ
take_entry i s = ret i (record s { filefd = update s.filefd i empty_filefd })

-- The loop of open_alloc from `i` on, with `n` rounds left.
unfoldable pub open_alloc_from : ℕ → ℕ → M Server ℕ
open_alloc_from zero i s = fail max_open s
open_alloc_from (suc n) i s =
    let rest = open_alloc_from n (i + 1) s in
    if s.refs i == 0
    then and_then (alloc_filefd i s) (λ _. take_entry i)
    else if s.refs i == 1
    then take_entry i s
    else rest

-- open_alloc
unfoldable pub open_alloc : M Server ℕ
unfolding open_alloc_from
open_alloc = open_alloc_from 1024 0

-- open_lookup
unfoldable pub open_lookup : ℕ → M Server ℕ
open_lookup fileid s =
    if leb 1024 fileid
    then fail inval s
    else if leb (s.refs fileid) 1
    then fail inval s
    else ret fileid s

-- `pOpen->o_file`, used as a pointer
abbrev pub dereference : Option Place → M Server Place
dereference none s = panic
dereference (some f) s = ret f s

abbrev pub file_of : ℕ → M Server Place
file_of i s = dereference (s.opentab i).o_file s

-- `if ((mode & flag) && (r = file_create(path, &f)) < 0 && r != -E_FILE_EXISTS)`: the error
abbrev pub unless_exists : Run Disk Place → Run Disk (Unit {0})
unless_exists (ret f d) = ret tt d
unless_exists (fail file_exists d) = ret tt d
unless_exists (fail e d) = fail e d
unless_exists panic = panic

abbrev pub has_flag : ℕ → ℕ → Bool
has_flag mode flag = not (bit_and mode flag == 0)

abbrev pub create_if : Bool → List ℕ → M Disk (Unit {0})
create_if true path d = unless_exists (file_create path d)
create_if false path d = ret tt d

-- `if (rq->req_omode & O_MKDIR) f->f_type = FTYPE_DIR;`
abbrev pub mark_dir : ℕ → Place → Disk → Disk
mark_dir mode f d = if has_flag mode 0x800 then poke (f_type f) 1 d else d

-- `o->o_file = f;`
abbrev pub set_file : ℕ → Place → Server → Server
set_file i f s = record s {
  opentab = update s.opentab i (record (s.opentab i) { o_file = some f });
}

-- `if (rq->req_omode & O_TRUNC)`: an error of file_set_size is sent, and the function goes on.
abbrev pub truncated : ℕ → Run Server (Unit {0}) → Run Server (Unit {0})
truncated whom (ret _ s) = ret tt s
truncated whom (fail e s) = ipc_send whom (some e) no_page s
truncated whom panic = panic

abbrev pub truncate_if : ℕ → ℕ → Place → M Server (Unit {0})
truncate_if whom mode f s =
    if has_flag mode 0x200 then truncated whom (on_disk (file_set_size f 0) s) else ret tt s

-- The Filefd structure and the mode of the entry; the device is that of files, 'f'.
abbrev pub fill_filefd : ℕ → ℕ → Place → Server → Server
fill_filefd i mode f s = record s {
  opentab = update s.opentab i (record (s.opentab i) { o_mode = mode });
  filefd = update s.filefd i (record (s.filefd i) {
    fd_dev_id = b'f';
    fd_offset = (if has_flag mode 4 then peek s.disk (f_size f) else (s.filefd i).fd_offset);
    fd_omode = mode;
    f_fileid = i;
    f_file = λ k. peek s.disk (at f k);
  });
}

-- serve_open behind file_open
unfoldable pub opened : ℕ → ℕ → ℕ → Place → M Server (Unit {0})
opened whom mode i f = do
  modify (λ s. record s { disk = mark_dir mode f s.disk })
  modify (set_file i f)
  truncate_if whom mode f
  modify (fill_filefd i mode f)
  ipc_send whom none (filefd_page i)

-- serve_open
unfoldable pub serve_open : ℕ → List ℕ → ℕ → M Server (Unit {0})
unfolding open_alloc
serve_open whom path mode s = or_send whom (open_alloc s) (λ i s.
    or_send whom (on_disk (create_if (has_flag mode 0x800) path) s) (λ _ s.
      or_send whom (on_disk (create_if (has_flag mode 0x100) path) s)
        (λ _ s. or_send whom (on_disk (file_open path) s) (opened whom mode i))))

-- serve_map
unfoldable pub serve_map : ℕ → ℕ → ℕ → M Server (Unit {0})
unfolding open_lookup
serve_map whom fileid offset s = or_send whom (open_lookup fileid s) (λ i s.
    or_send whom ((file_of i >>= λ f. on_disk (file_get_block f (offset / 4096))) s)
      (λ b. ipc_send whom none (block_page b)))

-- serve_set_size
unfoldable pub serve_set_size : ℕ → ℕ → ℕ → M Server (Unit {0})
unfolding open_lookup
serve_set_size whom fileid size s = or_send whom (open_lookup fileid s) (λ i s.
    or_send whom ((file_of i >>= λ f. on_disk (file_set_size f size)) s)
      (λ _. ipc_send whom none no_page))

-- serve_close
unfoldable pub serve_close : ℕ → ℕ → M Server (Unit {0})
unfolding open_lookup
serve_close whom fileid s = or_send whom (open_lookup fileid s) (λ i s.
    or_send whom ((file_of i >>= λ f. on_disk (file_close f)) s) (λ _. ipc_send whom none no_page))

-- serve_dirty
unfoldable pub serve_dirty : ℕ → ℕ → ℕ → M Server (Unit {0})
unfolding open_lookup
serve_dirty whom fileid offset s = or_send whom (open_lookup fileid s) (λ i s.
    or_send whom ((file_of i >>= λ f. on_disk (file_dirty f offset)) s)
      (λ _. ipc_send whom none no_page))

-- serve_remove
unfoldable pub serve_remove : ℕ → List ℕ → M Server (Unit {0})
serve_remove whom path s =
    or_send whom (on_disk (file_remove path) s) (λ _. ipc_send whom none no_page)

-- serve_sync
unfoldable pub serve_sync : ℕ → M Server (Unit {0})
serve_sync whom s = and_then (on_disk fs_sync s) (λ _. ipc_send whom none no_page)

-- The page of a request, as the handlers read it; `req_value` is req_offset or req_size.
pub record Request : Type 0 where
  pub req_path : List ℕ
  pub req_omode : ℕ
  pub req_fileid : ℕ
  pub req_value : ℕ

-- serve_table
unfoldable pub serve_table : ℕ → ℕ → Request → M Server (Unit {0})
unfolding serve_open serve_map serve_set_size serve_close serve_dirty serve_remove serve_sync
serve_table zero whom rq = serve_open whom rq.req_path rq.req_omode
serve_table (suc zero) whom rq = serve_map whom rq.req_fileid rq.req_value
serve_table (suc (suc zero)) whom rq = serve_set_size whom rq.req_fileid rq.req_value
serve_table (suc (suc (suc zero))) whom rq = serve_close whom rq.req_fileid
serve_table (suc (suc (suc (suc zero)))) whom rq = serve_dirty whom rq.req_fileid rq.req_value
serve_table (suc (suc (suc (suc (suc zero))))) whom rq = serve_remove whom rq.req_path
serve_table (suc (suc (suc (suc (suc (suc n)))))) whom rq = serve_sync whom

-- A round of serve, by the number of the request and whether it came with a page.
unfoldable pub serve_round : ℕ → Bool → ℕ → Request → M Server (Unit {0})
unfolding serve_table
serve_round req page whom rq s =
    if not page then ret tt s else if leb 7 req then ret tt s else serve_table req whom rq s
