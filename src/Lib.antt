-- ===== src/Lib.antt =====
-- A model of the MOS kernel of this repository, and the theorems that make it correct.
--
-- The program. MOS is a teaching kernel for a MIPS machine. kern/pmap.c hands out physical pages
-- and keeps the two-level page tables of the environments; kern/env.c creates, destroys and
-- switches environments, and names them by ids; kern/sched.c picks the next one. All three chain
-- their structures by the intrusive lists and tail queues of include/queue.h. User programs reach
-- them by the system calls of kern/syscall_all.c, which check addresses and ids first. The file
-- system server, fs/fs.c, is such a program; it reaches the kernel only by system calls.
--
-- The files.
--   Base models no code: numbers, lists, bits, signed integers, and the monad of the kernel. A run
--   of a kernel function returns a value with the state after it, fails with an error code (the
--   state stays as it is then: a C function that returns an error keeps what it wrote), or stops
--   the machine (panic, assert, an access through NULL).
--   Queue is include/queue.h. Pointers are explicit: a list is a table of next pointers and a table
--   of the slots that point at an element. Queue/Chain says which list of elements the pointers
--   stand for; Queue/Removal, Queue/Laws and Queue/After prove what each macro does to it;
--   Queue/Stale is about a removal of an element that is not in the queue.
--   Memory is kern/pmap.c with include/pmap.h, include/mmu.h and tlb_invalidate of kern/tlbex.c.
--   The words of memory are a function of a frame and an index; page tables live in these words.
--   Memory/Entry is about the bits of an entry, Memory/Alloc about the list of free pages,
--   Memory/Boot about page_init.
--   Memory/Space defines what the MMU sees at an address, Memory/Insert and Memory/Mapping prove
--   page_lookup, page_remove and page_insert against it.
--   Env is kern/env.c and kern/sched.c. Env/State holds the globals of the kernel, Env/Asid the
--   bitmap of ASIDs, Env/Boot env_init, Env/Ident the ids, Env/Rotate and Env/Slices the scheduler
--   against a list.
--   Syscall is kern/syscall_all.c: one function per system call, with the errors of the calls that
--   it makes passed on as the macro `try` does. Syscall/Range holds the tests on user addresses,
--   Syscall/Device the device calls with include/io.h, Syscall/Jobs the job list of the shell. In
--   Syscall/Ready stands the invariant that the queue of the scheduler holds exactly the runnable
--   environments, on the lemmas of Syscall/Switch, in Syscall/Ipc the messages, in Syscall/Pages
--   the calls on address spaces.
--   Disk is fs/fs.c, a user program that serves files: the cache of disk blocks as words, with the
--   bitmap of free blocks and the file structures in it at the offsets of user/include/fs.h.
--   Disk/Bitmap proves the allocation of blocks, Disk/Blocks the blocks of a file and the cache.
--   Disk/Directory and Disk/Paths hold dir_lookup, dir_alloc_file, walk_path and the calls on paths;
--   Disk/Search and Disk/Lookup are about the search of a directory, Disk/Naming about names in the
--   words of the cache, Disk/Create about a file that is created, Disk/Walking about paths;
--   Disk/Total lists calls that return no error.
--   Server is fs/serv.c, the handlers of requests on the model of fs/fs.c: Server/Table is about the
--   table of open files, Server/Answers about the answers, Server/Opening about an opened file.
--   Descriptors is user/lib/fd.c with the devices as parameters: Descriptors/Numbers is about the
--   table, Descriptors/Reading about readn.
--   Shell is the tokenizer of user/sh.c, _gettoken and gettoken; Shell/Loops and Shell/Tokens are
--   about a token that is taken off a line.
--   Loader is lib/elfloader.c with the caller's mapper as a parameter: Loader/Filled,
--   Loader/Segment and Loader/Load prove what it leaves in an address space, Loader/Short a case
--   in which it loses a segment.
--   Pipes is user/lib/pipe.c: the passes of its two loops as functions, all their interleavings as
--   a step relation, and Pipes/Order the order of the bytes.
--   Text is lib/print.c: Text.antt prints characters, strings and numbers, Text/Format is vprintfmt.
--   Text/Buffer is about the array of print_num, Text/Number about its digits, Text/Field and
--   Text/Layout about the field that it fills and Text/Bounds about its size; Text/Scan is about
--   the end of vprintfmt and Text/Compose about formats that are put together.
--   Bytes is lib/string.c: memcpy and memset against their loops over single bytes, and in
--   Bytes/Strings and Bytes/Ended the functions on strings that end with a zero.
--   The modules named Examples hold small concrete states and apply the theorems to them.
--
-- Conventions. Machine words are natural numbers, with the wrap-around written out where the code
-- can overflow. A pointer into `pages` or `envs` is an index. Most loops of the modelled code have
-- a bound that the code fixes, and count their rounds. The digits of print_num are a recursion on
-- Acc. vprintfmt counts rounds up to a bound; one round more than the format has bytes is enough.
-- The loops over strings do so too, with those of _gettoken; one round more than the string has
-- bytes is enough, and those of walk_path, which takes at least one byte of the path in a round.
-- The loops of elf_load_seg have one round more than the segment has bytes, of which each takes
-- 4096; readn has as many as bytes are asked for, of which each takes one or is the last.
--
-- Not modelled: the assembly (boot, exception entry, TLB writes, env_pop_tf), device access of the
-- console (sys_putchar, sys_print_cons, sys_cgetc), output by printk,
-- the self-tests in pmap.c and env.c, load_icode and env_create, and of the shell all behind the
-- tokenizer.
pub mod Base
pub mod Queue
pub mod Memory
pub mod Env
pub mod Syscall
pub mod Text
pub mod Bytes
pub mod Disk
pub mod Server
pub mod Descriptors
pub mod Shell
pub mod Loader
pub mod Pipes
