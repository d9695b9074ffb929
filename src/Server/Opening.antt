-- ===== src/Server/Opening.antt =====
-- What a client can do with a file that it has opened.
use buaa_os_challenge.Base.{
  ℕ, ◌+◌, ◌/◌, ◌<◌, ◌≤◌, ◌≡◌, refl, ◌∙◌, true, false, List, [], ◌∷◌, ◌++◌, none, some, ◌==◌, leb,
  arith, update, ==_refl,
}
use buaa_os_challenge.Base.Monad.{ret}
use buaa_os_challenge.Disk.{Disk, Place, file_get_block}
use buaa_os_challenge.Disk.Paths.{file_open}
use buaa_os_challenge.Server.{
  Server, filefd_page, block_page, answer, ipc_send, on_disk, or_send, has_flag, lift_disk,
  open_alloc, open_lookup, opened, serve_open, serve_map, fill_filefd, set_file,
}

-- The client maps the page that it is sent.
abbrev pub received : ℕ → Server → Server
received i s = record s { refs = update s.refs i (s.refs i + 1) }

-- The state that serve_open leaves where it neither makes a directory nor truncates the file.
after_open : ℕ → ℕ → ℕ → Place → Server → Server
after_open whom mode i f s = record (fill_filefd i mode f (set_file i f s)) {
  answers = s.answers ++ (answer whom none (filefd_page i) ∷ []);
}

opened-plain :
    (whom mode i : ℕ) (f : Place) (s : Server)
    → has_flag mode 0x800 ≡ false
    → has_flag mode 0x200 ≡ false
    → opened whom mode i f s ≡ ret tt (after_open whom mode i f s)
unfolding opened after_open
opened-plain whom mode i f s m t = rw (m, t) refl

run_open :
    (whom mode i : ℕ) (path : List ℕ) (s s1 : Server) (f : Place) (d : Disk)
    → has_flag mode 0x800 ≡ false
    → has_flag mode 0x100 ≡ false
    → open_alloc s ≡ ret i s1
    → file_open path s1.disk ≡ ret f d
    → serve_open whom path mode s ≡ opened whom mode i f (record s1 { disk = d })
unfolding serve_open
run_open whom mode i path s s1 f d m c alloc found = rw (alloc, m, c, found) refl

map_open :
    (whom i offset : ℕ) (s : Server) (f : Place)
    → i < 1024
    → 2 ≤ s.refs i
    → (s.opentab i).o_file ≡ some f
    → serve_map whom i offset s
      ≡ or_send whom
          (on_disk (file_get_block f (offset / 4096)) s)
          (λ b. ipc_send whom none (block_page b))
unfolding serve_map open_lookup
map_open whom i offset s f lt many file =
    let in_table : leb 1024 i ≡ false = ground arith in
    let is_open : leb (s.refs i) 1 ≡ false = ground arith in rw (in_table, is_open, file) refl

-- If open_alloc gives an entry, and file_open finds the file, serve_open without O_MKDIR, O_CREAT and
-- O_TRUNC sends the page of the entry, with its number and the mode in it. Once the client has mapped
-- this page, serve_map of the number sends the block that file_get_block gives for this file, or
-- its error, and otherwise changes the disk only.
pub serve_open-serve_map :
    (whom mode offset i : ℕ) (path : List ℕ) (s s1 : Server) (f : Place) (d : Disk)
    → has_flag mode 0x800 ≡ false
    → has_flag mode 0x100 ≡ false
    → has_flag mode 0x200 ≡ false
    → i < 1024
    → open_alloc s ≡ ret i s1
    → 1 ≤ s1.refs i
    → file_open path s1.disk ≡ ret f d
    → (t : Server) × (serve_open whom path mode s ≡ ret tt t)
      × (t.answers ≡ s1.answers ++ (answer whom none (filefd_page i) ∷ []))
      × ((t.filefd i).f_fileid ≡ i)
      × ((t.filefd i).fd_omode ≡ mode)
      × (t.disk ≡ d)
      × (serve_map whom i offset (received i t)
          ≡ or_send whom
              (lift_disk (received i t) (file_get_block f (offset / 4096) d))
              (λ b. ipc_send whom none (block_page b)))
unfolding after_open
serve_open-serve_map whom mode offset i path s s1 f d m c t lt alloc one found =
    let e : (i == i) ≡ true = ==_refl i in
    let u = after_open whom mode i f (record s1 { disk = d }) in
    (
      u,
      run_open whom mode i path s s1 f d m c alloc found
          ∙ opened-plain whom mode i f (record s1 { disk = d }) m t,
      refl,
      rw e refl,
      rw e refl,
      refl,
      map_open whom i offset (received i u) f lt (rw e (omega (arith, one))) (rw e refl),
    )
