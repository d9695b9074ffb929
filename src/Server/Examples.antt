-- ===== src/Server/Examples.antt =====
-- A server with the disk of the small root directory, on which the root is opened.
use buaa_os_challenge.Base.{
  ◌≡◌, ◌/◌, ◌++◌, refl, false, true, none, [], ◌∷◌, arith, update, ltb, ◌&&◌, if◌then◌else◌,
}
use buaa_os_challenge.Base.Monad.{ret}
use buaa_os_challenge.Disk.{Disk, file_get_block}
use buaa_os_challenge.Disk.Directory.{root}
use buaa_os_challenge.Disk.Paths.{file_open}
use buaa_os_challenge.Server.{
  Server, Request, answer, filefd_page, block_page, empty_filefd, open_alloc, or_send, lift_disk,
  ipc_send, serve_open, serve_map, serve_round,
}
use buaa_os_challenge.Server.Answers.{AnsweredOnce, serve_round-AnsweredOnce}
use buaa_os_challenge.Server.Table.{Allocated, open_alloc-Allocated}
use buaa_os_challenge.Server.Opening.{received, serve_open-serve_map}

abbrev empty_disk : Disk
empty_disk = record {
  nblocks = 8;
  cache = λ _ _. 0;
  mapped = λ _. true;
  dirty = λ _. false;
  sectors = λ _ _. 0;
  pages = 3;
}

abbrev server : Server
server = record {
  disk = empty_disk;
  opentab = λ _. record { o_file = none; o_mode = 0 };
  refs = λ _. 0;
  filefd = λ _. empty_filefd;
  answers = [];
}

-- the server after open_alloc
abbrev allocated : Server
allocated = record server {
  disk = record empty_disk { pages = 2 };
  refs = update (λ _. 0) 0 1;
  filefd = update (λ _. empty_filefd) 0 empty_filefd;
}

abbrev request : Request
request = record { req_path = []; req_omode = 0; req_fileid = 3; req_value = 0 }

open_alloc-Allocated_example : Allocated server 0 1024 (open_alloc server)
open_alloc-Allocated_example = open_alloc-Allocated server

serve_round-AnsweredOnce_example :
    if true && ltb 2 7
    then AnsweredOnce 77 [] (serve_round 2 true 77 request server)
    else (serve_round 2 true 77 request server ≡ ret tt server)
serve_round-AnsweredOnce_example = serve_round-AnsweredOnce 2 77 true request server

allocated_run : open_alloc server ≡ ret 0 allocated
unfolding open_alloc
allocated_run = refl

root_found : file_open [] allocated.disk ≡ ret root allocated.disk
unfolding file_open
root_found = refl

serve_open-serve_map_example :
    (t : Server) × (serve_open 77 [] 0 server ≡ ret tt t)
    × (t.answers ≡ allocated.answers ++ (answer 77 none (filefd_page 0) ∷ []))
    × ((t.filefd 0).f_fileid ≡ 0)
    × ((t.filefd 0).fd_omode ≡ 0)
    × (t.disk ≡ allocated.disk)
    × (serve_map 77 0 5000 (received 0 t)
        ≡ or_send 77
            (lift_disk (received 0 t) (file_get_block root (5000 / 4096) allocated.disk))
            (λ b. ipc_send 77 none (block_page b)))
serve_open-serve_map_example =
    serve_open-serve_map 77 0 5000 0 [] server allocated root allocated.disk refl refl refl
      (omega arith) allocated_run (omega arith) root_found
