-- ===== src/Lib.antt =====
-- Models and proofs for the exercise programs of this repository, small system programs in C. Each
-- module is about one program, named in its first line. The programs do not call each other, but
-- for pstree.c, proclist.c and sherlock.c, which use trim() of proclib.c.
--
-- Where the parts stand:
-- - Common: what all modules use: lists and numbers, C strings (lists of bytes), bits, what is
--   printed.
-- - Files: open(), read(), write(), lseek(), close() and printf() as a record of parameters, with
--   their documented behaviour on regular files as a record of hypotheses (IsRegular, and IsReliable
--   for calls that do not fail and writes that are whole, IsFull for reads that are not short).
--   Files.Ram gives all of them for files in memory, and Files.Written has the laws of a file that
--   is written in several calls.
-- - Malloc: 07-memory-allocation/po_malloc_free.c. Malloc.Machine has the memory: a block header at
--   every address, the head of the free list, and the state of sbrk(). Headers that overlap share
--   bytes in the source and none here: a heap stands for the memory only as long as the headers
--   that are read and written do not overlap. Pointer arithmetic wraps at
--   2 ^ 64. ll_append, ll_remove, ll_replace, po_malloc and po_free keep their names; the loop of
--   po_malloc is `scan`, its body `take_block`, its end `expand`. Malloc.FirstFit has first fit on
--   a list of blocks, to which Malloc.Allocate relates po_malloc. Malloc.History has the runs of a
--   program that allocates, frees and writes in what it was given, as a relation.
-- - Chattr: 15-file-attributes/chattr.c, whose ioctl() calls are parameters (Chattr.Kernel).
-- - Accounts.Getpwnam and Accounts.InitGroups: 08-users-and-groups/getpwnam.c and
--   09-process-credentials/initgroups.c. The databases are lists of entries.
-- - Copy and CpHoles: 13-file-io-buffering/copy.c and 04-file-io-universal-io-model/cpholes.c.
-- - VectorIo: 05-file-io-further-details/vector_fileio.c, writev() and readv().
-- - AtomicAppend: 05-file-io-further-details/atomic_append.c; AtomicAppend.Steps has two instances
--   on one file, as a relation of single system calls in any order; AtomicAppend.Alone relates the
--   loop over the file calls to it. What the calls do to the shared file is a parameter.
-- - Dup: 05-file-io-further-details/dup.c over fcntl(), close(), open() and read().
-- - HolyFile: 04-file-io-universal-io-model/holy_file.c. AppendSeek and LargeFile:
--   05-file-io-further-details/append_seek.c and large_file.c.
-- - Tee: 04-file-io-universal-io-model/tee.c, over stdio streams as parameters.
-- - Tail: 13-file-io-buffering/tail.c, with its string functions in Tail.Text.
-- - WriteBytes: 13-file-io-buffering/write_bytes.c.
-- - Chmod: 15-file-attributes/exercise6_chmod.c. TStat: 15-file-attributes/exercise3_tstat.c.
-- - Setfattr: 16-extended-attributes/setfattr.c. DispAcl: 17-access-control-lists/dispacl.c.
-- - FreeSbrk: 07-memory-allocation/free_and_sbrk.c, and FreeSbrk.Trace: free_and_sbrk_7_1.c there.
-- - ProcLib and Pstree: 12-system-and-process-information/proclib.c and pstree.c. The linked list
--   of pstree.c is a list, and a pointer to a node is its position.
-- - ProcList and Sherlock: 12-system-and-process-information/proclist.c and sherlock.c. They and
--   pstree.c take the lines of a status file apart in the same way, which is ProcLib.Status.
-- - Benchmark: 14-file-systems/benchmarkwrites.c; Benchmark.Shuffle has its permutation.
--
-- Loops over system calls take fuel for their rounds, and the theorems say how much is enough: for
-- copying, more than the bytes that are left in the input; for write_bytes, more than the bytes that
-- are left to write; for tail, more than the bytes of the file; for free_and_sbrk, more than the
-- indices that are left; for po_malloc, more than the blocks in the free list. print_tree of pstree.c
-- takes fuel for the depth of the tree. Other loops are recursion on the list or the number that they
-- run through. Failure is a value: `none` for -1 or NULL of a call, and, where a comment says so, for
-- a run out of fuel or an access out of bounds; Common.Outcome tells these two apart. An int counter
-- that overflows ends the run of atomic_append.c and of free_and_sbrk.c with such an outcome, and the
-- int that vector_fileio.c keeps a count in is cut to 32 bits (Files.as_int).
--
-- Not modelled: the programs that only print the results of single calls (ch3_1.c, longjmp_retfunc.c,
-- t_fpathconf.c, exercise2_stattest.c), myenviron.c, which does not compile, the test drivers of
-- po_malloc_free.c, and tlpi-dist, a copy of the book's own programs that the exercises do not call.
-- errno, the text of numbers in messages, and failures of malloc() in vector_fileio.c and pstree.c are
-- left out.
pub mod Common
pub mod Malloc
pub mod Chattr
pub mod Accounts
pub mod Files
pub mod Copy
pub mod CpHoles
pub mod VectorIo
pub mod Chmod
pub mod Setfattr
pub mod AtomicAppend
pub mod WriteBytes
pub mod ProcLib
pub mod Pstree
pub mod Benchmark
pub mod DispAcl
pub mod Dup
pub mod ProcList
pub mod Sherlock
pub mod FreeSbrk
pub mod HolyFile
pub mod AppendSeek
pub mod LargeFile
pub mod TStat
pub mod Tail
pub mod Tee
